-- ===== src/Session/Checks.antt =====
-- The answers that the programs test: `die_on_error` and `die_on_amqp_error`, and what
-- Session/Connect.antt makes of them.
use wate_rmq.Common.{
  ℕ, ◌≡◌, refl, sym, ◌∙◌, Bool, true, false, List, [], ◌∷◌, ◌++◌, none, some, String, ℤ, pos, eqb_ℤ,
  ltb_ℤ, not, if◌then◌else◌, inl, inr, Bool-cases, arith,
}
use wate_rmq.Memory.{Piece, text, str}
use wate_rmq.Argv.{codes}
use wate_rmq.Session.{
  Call, new_connection, tcp_socket_new, socket_open, login, get_rpc_reply, channel_close,
  connection_close, destroy_connection, Reply, normal, no_reply, library_exception,
  server_exception, complaint, Library, Log, ok, exited, Session, pure, ◌>>=◌, ◌>>◌, ask, called,
  die, die_on_error, die_on_amqp_error,
}
use wate_rmq.Session.Connect.{log_in, request, need_handle, open_socket, connect, disconnect}
use wate_rmq.Config.{Handle}
use wate_rmq.Session.Script.{
  is_normal, is_some, good, Follows, Follows-then, perform-Follows, pure-Follows, test-Follows,
  complained,
}

die_on_amqp_error-normal :
    (lib : Library) (r : Reply) (context : Piece) (l : Log)
    → is_normal r ≡ true
    → die_on_amqp_error lib r context l ≡ ok tt l
unfolding die_on_amqp_error
die_on_amqp_error-normal lib normal context l e = refl
die_on_amqp_error-normal lib no_reply context l e = cc
die_on_amqp_error-normal lib (library_exception x) context l e = cc
die_on_amqp_error-normal lib (server_exception m) context l e = cc

pub die_on_amqp_error-bad :
    (lib : Library) (r : Reply) (context : Piece) (l : Log)
    → is_normal r ≡ false
    → die_on_amqp_error lib r context l ≡ exited (pos 1) (complained (context ∷ complaint lib r) l)
unfolding die_on_amqp_error
die_on_amqp_error-bad lib normal context l e = cc
die_on_amqp_error-bad lib no_reply context l e = refl
die_on_amqp_error-bad lib (library_exception x) context l e = refl
die_on_amqp_error-bad lib (server_exception m) context l e = refl

-- `die_on_amqp_error` returns on a normal reply and does nothing then; on every other reply it
-- writes the context and what the reply says to stderr, and exits with 1.
pub die_on_amqp_error-Ends :
    (lib : Library) (r : Reply) (context : Piece) (l : Log)
    → die_on_amqp_error lib r context l
      ≡ (if is_normal r then ok tt l else exited (pos 1) (complained (context ∷ complaint lib r) l))
die_on_amqp_error-Ends lib r context l = elim (Bool-cases (is_normal r)) [
  | inl fine ↦ rw fine (die_on_amqp_error-normal lib r context l fine)
  | inr bad ↦ rw bad (die_on_amqp_error-bad lib r context l bad)
]

-- A call that goes wrong when its reply is not normal.
pub reply-Follows :
    (lib : Library) (c : Call) (context : Piece)
    → ((h : List Call) → good lib h c ≡ is_normal (lib.reply h))
    → Follows lib (c ∷ []) tt (ask lib.reply c >>= λ r. die_on_amqp_error lib r context)
reply-Follows lib c context same =
    test-Follows lib c [] (pure tt) _
      (λ l. (
        λ fine. die_on_amqp_error-normal lib _ context (called c l) (sym (same _) ∙ fine),
        λ bad. (_, refl, die_on_amqp_error-bad lib _ context (called c l) (sym (same _) ∙ bad)),
      ))
      (pure-Follows lib tt)

die_on_error-fine :
    (lib : Library) (x : ℤ) (context : String) (l : Log)
    → not (ltb_ℤ x (pos 0)) ≡ true
    → die_on_error lib x context l ≡ ok tt l
unfolding die_on_error
die_on_error-fine lib x context l e = ground arith

die_on_error-bad :
    (lib : Library) (x : ℤ) (context : String) (l : Log)
    → not (ltb_ℤ x (pos 0)) ≡ false
    → die_on_error lib x context l
      ≡ exited
          (pos 1)
          (complained (text context ∷ text ": " ∷ str (lib.error_string x) ∷ text "\n" ∷ []) l)
unfolding die_on_error
die_on_error-bad lib x context l e = ground arith

-- A call that goes wrong when its status is negative.
pub status-Follows :
    (lib : Library) (c : Call) (context : String)
    → ((h : List Call) → good lib h c ≡ not (ltb_ℤ (lib.status h) (pos 0)))
    → Follows lib (c ∷ []) tt (ask lib.status c >>= λ x. die_on_error lib x context)
status-Follows lib c context same =
    test-Follows lib c [] (pure tt) _
      (λ l. (
        λ fine. die_on_error-fine lib _ context (called c l) (sym (same _) ∙ fine),
        λ bad. (_, refl, die_on_error-bad lib _ context (called c l) (sym (same _) ∙ bad)),
      ))
      (pure-Follows lib tt)

-- A request and the reply to it.
pub request-Follows :
    (lib : Library) (c : Call) (context : Piece)
    → ((h : List Call) → good lib h c ≡ true)
    → Follows lib (c ∷ get_rpc_reply ∷ []) tt (request lib c context)
unfolding request
request-Follows lib c context fine =
    Follows-then lib (c ∷ []) (get_rpc_reply ∷ []) _ _ (perform-Follows lib c fine)
      (reply-Follows lib get_rpc_reply context λ h. refl)

abbrev pub guest_login : Call
guest_login = login (codes "/") (pos 0) (pos 131072) (pos 0) (pos 0) (codes "guest") (codes "guest")

pub log_in-Follows : (lib : Library) → Follows lib (guest_login ∷ []) tt (log_in lib)
unfolding log_in
log_in-Follows lib = reply-Follows lib guest_login (text "Logging in") λ h. refl

abbrev pub connect_script : List ℕ → ℤ → List Call
connect_script hostname port =
    new_connection ∷ tcp_socket_new ∷ socket_open hostname port ∷ guest_login ∷ []

handle_test :
    {A : Type 0} (o : Handle) (message : List Piece) (k : Session A) (l : Log)
    → (is_some o ≡ true → need_handle o message k l ≡ k l)
      × (is_some o ≡ false
          → need_handle o message k l ≡ exited (pos 1) (complained (message ++ text "\n" ∷ []) l))
unfolding need_handle die
handle_test none message k l = ((λ e. cc), λ e. refl)
handle_test (some s) message k l = ((λ e. refl), λ e. cc)

zero_test :
    {A : Type 0} (b : Bool) (message : List Piece) (k : Session A) (l : Log)
    → (b ≡ true → (if b then k else die message) l ≡ k l)
      × (b ≡ false
          → (if b then k else die message) l
            ≡ exited (pos 1) (complained (message ++ text "\n" ∷ []) l))
unfolding die
zero_test true message k l = ((λ e. refl), λ e. cc)
zero_test false message k l = ((λ e. cc), λ e. refl)

open_socket-Follows :
    {A : Type 0} (lib : Library) (hostname : List ℕ) (port : ℤ) (cs : List Call) {a : A}
    (m : Session A)
    → Follows lib cs a m
    → Follows lib (socket_open hostname port ∷ guest_login ∷ cs) a (open_socket lib hostname port m)
unfolding open_socket
open_socket-Follows lib hostname port cs m f =
    test-Follows lib (socket_open hostname port) (guest_login ∷ cs) (log_in lib >> m) _
      (λ l.
        let c = socket_open hostname port in
        let t =
          zero_test (eqb_ℤ (lib.status (l.calls ++ c ∷ [])) (pos 0))
            (text "opening TCP socket" ∷ []) (log_in lib >> m) (called c l) in
        (t.0, λ bad. (_, refl, t.1 bad)))
      (Follows-then lib (guest_login ∷ []) cs _ _ (log_in-Follows lib) f)

pub connect-Follows :
    {A : Type 0} (lib : Library) (hostname : List ℕ) (port : ℤ) (cs : List Call) {a : A}
    (m : Session A)
    → Follows lib cs a m
    → Follows lib (connect_script hostname port ++ cs) a (connect lib hostname port m)
unfolding connect
connect-Follows lib hostname port cs {a} m f =
    Follows-then lib (new_connection ∷ [])
      (tcp_socket_new ∷ socket_open hostname port ∷ guest_login ∷ cs) _ _
      (perform-Follows lib new_connection λ h. refl)
      (test-Follows lib tcp_socket_new (socket_open hostname port ∷ guest_login ∷ cs)
        (open_socket lib hostname port m) _
        (λ l.
          let t =
            handle_test (lib.handle (l.calls ++ tcp_socket_new ∷ []))
              (text "creating TCP socket" ∷ []) (open_socket lib hostname port m)
              (called tcp_socket_new l) in
          (t.0, λ bad. (_, refl, t.1 bad)))
        (open_socket-Follows lib hostname port cs m f))

abbrev pub disconnect_script : List Call
disconnect_script = channel_close 1 ∷ connection_close ∷ destroy_connection ∷ []

pub disconnect-Follows : (lib : Library) → Follows lib disconnect_script (pos 0) (disconnect lib)
unfolding disconnect
disconnect-Follows lib =
    Follows-then lib disconnect_script [] _ _
      (Follows-then lib (channel_close 1 ∷ connection_close ∷ []) (destroy_connection ∷ []) _ _
        (Follows-then lib (channel_close 1 ∷ []) (connection_close ∷ []) _ _
          (reply-Follows lib (channel_close 1) (text "Closing channel") λ h. refl)
          (reply-Follows lib connection_close (text "Closing connection") λ h. refl))
        (status-Follows lib destroy_connection "Ending connection" λ h. refl))
      (pure-Follows lib (pos 0))
