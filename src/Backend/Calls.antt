-- ===== src/Backend/Calls.antt =====
-- The calls of the AMQP library that BackLibWaterRMQ.c makes to connect, to log in, and after the reply
-- to a request for a message.
use wate_rmq.Common.{ℕ, List, [], ◌∷◌, ℤ, pos, eqb_ℤ, if◌then◌else◌}
use wate_rmq.Memory.{text, int}
use wate_rmq.Config.{Handle, Login}
use wate_rmq.Session.{
  Call, new_connection, tcp_socket_new, socket_open, login, destroy_message, destroy_envelope,
  simple_wait_frame, read_message, Reply, normal, no_reply, library_exception, server_exception,
  Frame, basic_ack, basic_return, channel_close_frame, connection_close_frame, other_frame,
  unexpected_method, Library, Session, pure, ◌>>=◌, ◌>>◌, ask, perform, print, print_error, die,
}
use wate_rmq.Session.Connect.{need_handle}
use wate_rmq.Consumer.{amqp_status_unexpected_state}

-- `if (status) die(…)`
unfoldable pub opened : ℤ → Session (Unit {0})
opened status = if eqb_ℤ status (pos 0) then pure tt else die (text "opening TCP socket" ∷ [])

-- The connection and its socket, in `configurationConnection_WateRMQ_public`.
unfoldable pub make_socket : Library → Session (Handle × Handle)
make_socket lib = ask lib.handle new_connection >>= λ conn.
    ask lib.handle tcp_socket_new >>= λ socket.
    need_handle socket (text "creating TCP socket" ∷ []) (pure (conn, socket))

unfoldable pub open_tcp : Library → List ℕ → ℤ → Session (Unit {0})
open_tcp lib hostname port = ask lib.status (socket_open hostname port) >>= λ status. opened status

-- `amqp_login` with the strings of the struct.
abbrev pub login_call : Login → List ℕ → List ℕ → List ℕ → Call
login_call l host username password =
    login host l.channel_max l.frame_max l.heartbeat l.sasl_method username password

-- A message that has come back is destroyed if it could be read.
unfoldable pub on_returned_message : Reply → Session (Unit {0})
on_returned_message normal = perform destroy_message
on_returned_message no_reply = pure tt
on_returned_message (library_exception e) = pure tt
on_returned_message (server_exception m) = pure tt

-- The switch of `retRequestHandling_private`; the four callbacks of the source are empty.
unfoldable pub on_method : Library → Frame → Session (Unit {0})
on_method lib basic_ack = pure tt
on_method lib (basic_return channel) =
    print (text "matching ?" ∷ [])
    >> (ask lib.reply (read_message channel) >>= λ ret. on_returned_message ret)
on_method lib channel_close_frame = pure tt
on_method lib connection_close_frame = pure tt
on_method lib other_frame = pure tt
on_method lib (unexpected_method id) =
    print_error (text "An unexpected method was received " ∷ int (pos id) ∷ text "\n" ∷ [])

unfoldable pub on_waited : Library → ℤ → Frame → Session (Unit {0})
on_waited lib status frame = if eqb_ℤ status (pos 0) then on_method lib frame else pure tt

-- `retRequestHandling_private`; `envelope`, which the source does not declare there, is the envelope
-- of the message.
unfoldable pub ret_request_handling : Library → Reply → Session (Unit {0})
ret_request_handling lib normal = perform destroy_envelope
ret_request_handling lib (library_exception e) =
    if eqb_ℤ e amqp_status_unexpected_state
    then (ask (λ h. (lib.status h, lib.frame h)) simple_wait_frame >>= λ (status, frame).
        on_waited lib status frame)
    else pure tt
ret_request_handling lib no_reply = pure tt
ret_request_handling lib (server_exception m) = pure tt
