-- ===== src/Session/Connect.antt =====
-- What amqp_unbind.c and amqp_consumerX.c in BackendC/librabbitmq/watermq/ have in common: how they
-- connect, how they make a request, and how they disconnect.
use wate_rmq.Common.{ℕ, List, [], ◌∷◌, none, some, ℤ, pos, eqb_ℤ, if◌then◌else◌}
use wate_rmq.Memory.{Piece, text}
use wate_rmq.Argv.{codes}
use wate_rmq.Config.{Handle}
use wate_rmq.Session.{
  Call, new_connection, tcp_socket_new, socket_open, login, get_rpc_reply, channel_close,
  connection_close, destroy_connection, Library, Session, pure, ◌>>=◌, ◌>>◌, perform, ask, die,
  die_on_error, die_on_amqp_error,
}

-- `amqp_login` as a guest, and the test of its reply.
unfoldable pub log_in : Library → Session (Unit {0})
log_in lib =
    ask lib.reply
      (login (codes "/") (pos 0) (pos 131072) (pos 0) (pos 0) (codes "guest") (codes "guest"))
    >>= λ r. die_on_amqp_error lib r (text "Logging in")

-- A call whose outcome `amqp_get_rpc_reply` tells, and the test of that reply.
unfoldable pub request : Library → Call → Piece → Session (Unit {0})
request lib c context =
    perform c >> (ask lib.reply get_rpc_reply >>= λ r. die_on_amqp_error lib r context)

-- `if (!socket) die(…)`.
unfoldable pub need_handle : {A : Type 0} → Handle → List Piece → Session A → Session A
need_handle none message continue = die message
need_handle (some s) message continue = continue

-- The connection of the socket, and the login.
unfoldable pub open_socket : {A : Type 0} → Library → List ℕ → ℤ → Session A → Session A
open_socket lib hostname port continue = ask lib.status (socket_open hostname port) >>= λ status.
    if eqb_ℤ status (pos 0) then log_in lib >> continue else die (text "opening TCP socket" ∷ [])

-- What `main` begins with in both programs; `continue` is the rest.
unfoldable pub connect : {A : Type 0} → Library → List ℕ → ℤ → Session A → Session A
connect lib hostname port continue =
    perform new_connection
    >> (ask lib.handle tcp_socket_new >>= λ socket.
        need_handle socket (text "creating TCP socket" ∷ [])
          (open_socket lib hostname port continue))

-- The last three calls, and the value of `main`.
unfoldable pub disconnect : Library → Session ℤ
disconnect lib =
    (ask lib.reply (channel_close 1) >>= λ r. die_on_amqp_error lib r (text "Closing channel"))
    >> (ask lib.reply connection_close >>= λ r. die_on_amqp_error lib r (text "Closing connection"))
    >> (ask lib.status destroy_connection >>= λ x. die_on_error lib x "Ending connection")
    >> pure (pos 0)
