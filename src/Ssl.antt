-- ===== src/Ssl.antt =====
-- The program BackendC/librabbitmq/watermq/amqp_ssl_connect.c, which connects over TLS and disconnects
-- again. Its optional arguments are read one after the other: those that are left are a list.
pub mod Script
pub mod Main
mod Tests
use wate_rmq.Common.{
  ℕ, Bool, true, false, List, [], ◌∷◌, Option, none, some, ℤ, pos, ltb_ℤ, if◌then◌else◌,
}
use wate_rmq.Memory.{text, null_access}
use wate_rmq.Argv.{codes, same_string}
use wate_rmq.Session.{
  Call, new_connection, ssl_socket_new, set_verify_peer, set_verify_hostname, set_cacert,
  set_ssl_engine, set_key, socket_open_noblock, login, connection_close, destroy_connection,
  uninitialize_ssl_library, Library, Session, fault, pure, ◌>>=◌, ◌>>◌, print, print_error, perform,
  ask, die, die_on_error, die_on_amqp_error,
}
use wate_rmq.Session.Connect.{log_in}

abbrev Words : Type 0
Words = List (List ℕ)

abbrev first_word : Words → Option (List ℕ)
first_word [] = none
first_word (w ∷ ws) = some w

abbrev other_words : Words → Words
other_words [] = []
other_words (w ∷ ws) = ws

-- "engine" and its name, NULL if there is no word left: the words behind them.
unfoldable pub take_engine : Words → Session Words
take_engine [] = pure []
take_engine (w ∷ ws) =
    if same_string (codes "engine") w
    then perform (set_ssl_engine (first_word ws)) >> pure (other_words ws)
    else pure (w ∷ ws)

-- A word that turns a check on.
unfoldable pub take_flag : List ℕ → Call → Words → Session Words
take_flag name c [] = pure []
take_flag name c (w ∷ ws) = if same_string name w then perform c >> pure ws else pure (w ∷ ws)

-- The key and its certificate, if two words are left.
unfoldable pub take_key : Library → Words → Session (Unit {0})
take_key lib (key ∷ cert ∷ _) =
    ask lib.status (set_key cert key) >>= λ x. die_on_error lib x "setting client key"
take_key lib _ = pure tt

-- The arguments from `argv[4]` on: nothing is done with fewer than two.
unfoldable pub configure_tls : Library → Words → Session (Unit {0})
configure_tls lib (cacert ∷ w ∷ ws) =
    (ask lib.status (set_cacert cacert) >>= λ x. die_on_error lib x "setting CA certificate")
    >> (take_engine (w ∷ ws) >>= λ words.
        take_flag (codes "verifypeer") (set_verify_peer true) words >>= λ words'.
        take_flag (codes "verifyhostname") (set_verify_hostname true) words' >>= λ words''.
        take_key lib words'')
configure_tls lib _ = pure tt

-- `if (!socket) die(…)`.
unfoldable pub need_socket : Option ℕ → Session (Unit {0})
need_socket none = die (text "creating SSL/TLS socket" ∷ [])
need_socket (some s) = pure tt

abbrev pub timeval : ℤ → Option ℤ
timeval timeout = if ltb_ℤ (pos 0) timeout then some timeout else none

-- The end of `main`, from the connection of the socket on.
unfoldable pub open_and_close : Library → List ℕ → ℤ → ℤ → Session ℤ
open_and_close lib hostname port timeout =
    (ask lib.status (socket_open_noblock hostname port (timeval timeout)) >>= λ x.
    die_on_error lib x "opening SSL/TLS connection")
    >> log_in lib
    >> (ask lib.reply connection_close >>= λ r. die_on_amqp_error lib r (text "Closing connection"))
    >> (ask lib.status destroy_connection >>= λ x. die_on_error lib x "Ending connection")
    >> (ask lib.status uninitialize_ssl_library >>= λ x.
        die_on_error lib x "Uninitializing SSL library")
    >> print (text "Done\n" ∷ [])
    >> pure (pos 0)

-- `argv[3]` is read although there may be only two arguments: it is NULL then.
unfoldable pub ssl_main : (List ℕ → ℤ) → Library → List (List ℕ) → Session ℤ
ssl_main atoi lib (_ ∷ hostname ∷ port ∷ timeout ∷ more) =
    perform new_connection
    >> (ask lib.handle ssl_socket_new >>= λ socket. need_socket socket)
    >> perform (set_verify_peer false)
    >> perform (set_verify_hostname false)
    >> configure_tls lib more
    >> open_and_close lib hostname (atoi port) (atoi timeout)
ssl_main atoi lib (_ ∷ hostname ∷ port ∷ []) = λ l. fault null_access
ssl_main atoi lib _ =
    print_error (
      text
        "Usage: amqp_ssl_connect host port timeout_sec [cacert.pem [engine engine_ID] [verifypeer] [verifyhostname] [key.pem cert.pem]]\n"
      ∷ [])
    >> pure (pos 1)
