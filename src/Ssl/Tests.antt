-- ===== src/Ssl/Tests.antt =====
-- amqp_ssl_connect with an engine and a key.
use wate_rmq.Common.{ℕ, ◌≡◌, refl, true, false, List, [], ◌∷◌, some, ℤ, pos}
use wate_rmq.Memory.{null_access}
use wate_rmq.Argv.{codes, same_string}
use wate_rmq.Session.{set_ssl_engine, set_verify_hostname, set_key, Log, fault}
use wate_rmq.Session.Script.{Follows}
use wate_rmq.Session.Tests.{fine}
use wate_rmq.Ssl.{ssl_main}
use wate_rmq.Ssl.Script.{Options, NoOption, option_words, option_calls}
use wate_rmq.Ssl.Main.{tls_calls, ssl_script, ssl_main-Follows}

abbrev atoi : List ℕ → ℤ
atoi s = pos 5671

abbrev options : Options
options = record {
  engine = some (codes "pkcs11");
  verify_peer = false;
  verify_hostname = true;
  key_and_cert = some (codes "key.pem", codes "cert.pem");
}

options_free : NoOption options.key_and_cert
unfolding same_string
options_free = (refl, refl, refl)

ssl_main-Follows_example :
    Follows fine
      (ssl_script
        (codes "h")
        (pos 5671)
        (pos 5671)
        (tls_calls (option_words options) (codes "ca.pem") (option_calls options)))
      (pos 0)
      (ssl_main atoi fine
        (codes "p" ∷ codes "h" ∷ codes "5671" ∷ codes "9" ∷ codes "ca.pem" ∷ option_words options))
    × Follows fine
        (ssl_script (codes "h") (pos 5671) (pos 5671) [])
        (pos 0)
        (ssl_main atoi fine (codes "p" ∷ codes "h" ∷ codes "5671" ∷ codes "9" ∷ []))
    × ((l : Log)
        → ssl_main atoi fine (codes "p" ∷ codes "h" ∷ codes "5671" ∷ []) l ≡ fault null_access)
ssl_main-Follows_example =
    ssl_main-Follows atoi fine (codes "p") (codes "h") (codes "5671") (codes "9") (codes "ca.pem")
      options options_free

-- The calls that these options ask for.
options_calls :
    option_calls options
    ≡ set_ssl_engine (some (codes "pkcs11"))
      ∷ set_verify_hostname true
      ∷ set_key (codes "cert.pem") (codes "key.pem")
      ∷ []
options_calls = refl
