-- ===== src/Ssl/Main.antt =====
-- `main` of amqp_ssl_connect.c on the command lines that its usage offers.
use wate_rmq.Common.{
  ℕ, ◌≡◌, refl, sym, append-nil, true, false, List, [], ◌∷◌, ◌++◌, Option, none, some, ℤ, pos,
}
use wate_rmq.Memory.{Piece, text, null_access}
use wate_rmq.Session.{
  Call, new_connection, ssl_socket_new, set_verify_peer, set_verify_hostname, set_cacert,
  socket_open_noblock, connection_close, destroy_connection, uninitialize_ssl_library, Library, Log,
  ok, exited, fault, called, pure, ask, ◌>>=◌, print, die,
}
use wate_rmq.Session.Script.{
  is_some, Follows, finished, Follows-then, perform-Follows, pure-Follows, test-Follows, complained,
}
use wate_rmq.Session.Checks.{guest_login, log_in-Follows, reply-Follows, status-Follows}
use wate_rmq.Ssl.{configure_tls, need_socket, timeval, open_and_close, ssl_main}
use wate_rmq.Ssl.Script.{
  Options, NoOption, option_words, option_calls, take_options, options-Follows,
}

-- What the arguments behind the timeout, a CA certificate first, make of the calls for the words
-- behind that: the certificate is read only if there are such words.
abbrev pub tls_calls : List (List ℕ) → List ℕ → List Call → List Call
tls_calls [] cacert cs = []
tls_calls (w ∷ ws) cacert cs = set_cacert cacert ∷ cs

configure_tls-Follows :
    (lib : Library) (cacert : List ℕ) (words : List (List ℕ)) (cs : List Call)
    → Follows lib cs tt (take_options lib words)
    → Follows lib (tls_calls words cacert cs) tt (configure_tls lib (cacert ∷ words))
unfolding configure_tls
configure_tls-Follows lib cacert [] cs f = pure-Follows lib tt
configure_tls-Follows lib cacert (w ∷ ws) cs f =
    Follows-then lib (set_cacert cacert ∷ []) cs _ _
      (status-Follows lib (set_cacert cacert) "setting CA certificate" λ h. refl) f

nothing : (lib : Library) → Follows lib [] tt (configure_tls lib [])
unfolding configure_tls
nothing lib = pure-Follows lib tt

print-Follows : (lib : Library) (ps : List Piece) → Follows lib [] tt (print ps)
print-Follows lib ps = record { ends = λ l. finished refl (sym (append-nil l.calls)) refl }

socket_test :
    (o : Option ℕ) (l : Log)
    → (is_some o ≡ true → need_socket o l ≡ ok tt l)
      × (is_some o ≡ false
          → need_socket o l
            ≡ exited (pos 1) (complained (text "creating SSL/TLS socket" ∷ text "\n" ∷ []) l))
unfolding need_socket die
socket_test none l = ((λ e. cc), λ e. refl)
socket_test (some s) l = ((λ e. refl), λ e. cc)

socket-Follows :
    (lib : Library)
    → Follows lib
        (ssl_socket_new ∷ [])
        tt
        (ask lib.handle ssl_socket_new >>= λ socket. need_socket socket)
socket-Follows lib =
    test-Follows lib ssl_socket_new [] (pure tt) _
      (λ l.
        let t =
          socket_test (lib.handle (l.calls ++ ssl_socket_new ∷ [])) (called ssl_socket_new l) in
        (t.0, λ bad. (_, refl, t.1 bad)))
      (pure-Follows lib tt)

abbrev pub close_script : List ℕ → ℤ → ℤ → List Call
close_script hostname port timeout =
    socket_open_noblock hostname port (timeval timeout)
    ∷ guest_login
    ∷ connection_close
    ∷ destroy_connection
    ∷ uninitialize_ssl_library
    ∷ []

open_and_close-Follows :
    (lib : Library) (hostname : List ℕ) (port timeout : ℤ)
    → Follows lib
        (close_script hostname port timeout)
        (pos 0)
        (open_and_close lib hostname port timeout)
unfolding open_and_close
open_and_close-Follows lib hostname port timeout =
    Follows-then lib (close_script hostname port timeout) [] _ _
      (Follows-then lib (close_script hostname port timeout) [] _ _
        (Follows-then lib (c ∷ guest_login ∷ connection_close ∷ destroy_connection ∷ [])
          (uninitialize_ssl_library ∷ []) _ _
          (Follows-then lib (c ∷ guest_login ∷ connection_close ∷ []) (destroy_connection ∷ []) _ _
            (Follows-then lib (c ∷ guest_login ∷ []) (connection_close ∷ []) _ _
              (Follows-then lib (c ∷ []) (guest_login ∷ []) _ _
                (status-Follows lib c "opening SSL/TLS connection" λ h. refl) (log_in-Follows lib))
              (reply-Follows lib connection_close (text "Closing connection") λ h. refl))
            (status-Follows lib destroy_connection "Ending connection" λ h. refl))
          (status-Follows lib uninitialize_ssl_library "Uninitializing SSL library" λ h. refl))
        (print-Follows lib (text "Done\n" ∷ [])))
      (pure-Follows lib (pos 0))
  where
    c : Call
    c = socket_open_noblock hostname port (timeval timeout)

abbrev pub ssl_script : List ℕ → ℤ → ℤ → List Call → List Call
ssl_script hostname port timeout tls =
    (new_connection ∷ ssl_socket_new ∷ set_verify_peer false ∷ set_verify_hostname false ∷ [])
    ++ tls
    ++ close_script hostname port timeout

main-tls :
    (atoi : List ℕ → ℤ) (lib : Library) (program hostname port timeout : List ℕ)
    (more : List (List ℕ)) (tls : List Call)
    → Follows lib tls tt (configure_tls lib more)
    → Follows lib
        (ssl_script hostname (atoi port) (atoi timeout) tls)
        (pos 0)
        (ssl_main atoi lib (program ∷ hostname ∷ port ∷ timeout ∷ more))
unfolding ssl_main
main-tls atoi lib program hostname port timeout more tls f =
    Follows-then lib
      (new_connection ∷ ssl_socket_new ∷ set_verify_peer false ∷ set_verify_hostname false ∷ tls)
      (close_script hostname (atoi port) (atoi timeout)) _ _
      (Follows-then lib
        (new_connection ∷ ssl_socket_new ∷ set_verify_peer false ∷ set_verify_hostname false ∷ [])
        tls _ _
        (Follows-then lib (new_connection ∷ ssl_socket_new ∷ set_verify_peer false ∷ [])
          (set_verify_hostname false ∷ []) _ _
          (Follows-then lib (new_connection ∷ ssl_socket_new ∷ []) (set_verify_peer false ∷ []) _ _
            (Follows-then lib (new_connection ∷ []) (ssl_socket_new ∷ []) _ _
              (perform-Follows lib new_connection λ h. refl) (socket-Follows lib))
            (perform-Follows lib (set_verify_peer false) λ h. refl))
          (perform-Follows lib (set_verify_hostname false) λ h. refl))
        f)
      (open_and_close-Follows lib hostname (atoi port) (atoi timeout))

-- amqp_ssl_connect makes its calls in order, and those that its options ask for between the checks
-- turned off and the connection; at the first call that goes wrong it stops and exits with 1. The CA
-- certificate alone, with no option behind it, is not read; and with a host and a port only, though
-- the usage is not printed then, the program reads through NULL.
pub ssl_main-Follows :
    (atoi : List ℕ → ℤ) (lib : Library) (program hostname port timeout cacert : List ℕ)
    (o : Options)
    → NoOption o.key_and_cert
    → Follows lib
        (ssl_script hostname
          (atoi port)
          (atoi timeout)
          (tls_calls (option_words o) cacert (option_calls o)))
        (pos 0)
        (ssl_main atoi lib (program ∷ hostname ∷ port ∷ timeout ∷ cacert ∷ option_words o))
      × Follows lib
          (ssl_script hostname (atoi port) (atoi timeout) [])
          (pos 0)
          (ssl_main atoi lib (program ∷ hostname ∷ port ∷ timeout ∷ []))
      × ((l : Log) → ssl_main atoi lib (program ∷ hostname ∷ port ∷ []) l ≡ fault null_access)
unfolding ssl_main
ssl_main-Follows atoi lib program hostname port timeout cacert o free = (
  main-tls atoi lib program hostname port timeout (cacert ∷ option_words o) _ (
      configure_tls-Follows lib cacert (option_words o) (option_calls o)
        (options-Follows lib o free)),
  main-tls atoi lib program hostname port timeout [] [] (nothing lib),
  λ l. refl,
)
