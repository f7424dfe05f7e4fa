-- ===== src/Session.antt =====
-- Sessions with an AMQP server: the calls of the library that the programs in
-- BackendC/librabbitmq/watermq/ make, as a log, and `die`, `die_on_error` and `die_on_amqp_error` of
-- utils.c. The library is a parameter: what it answers may depend on all calls made so far.
pub mod Connect
pub mod Script
pub mod Checks
pub mod Tests
use wate_rmq.Common.{
  ℕ, zero, suc, Bool, true, false, List, [], ◌∷◌, ◌++◌, Option, none, some, String, ℤ, pos, negsuc,
  eqb_ℤ, ltb_ℤ, not, if◌then◌else◌,
}
use wate_rmq.Memory.{Piece, text, str, int, hex, Fault}
use wate_rmq.Config.{Handle}

-- A call of the library, with the arguments that are not handles: there is one connection and one
-- socket.
pub data Call : Type 0 where
  new_connection tcp_socket_new ssl_socket_new get_rpc_reply bytes_malloc_dup maybe_release_buffers
        consume_message destroy_message destroy_envelope simple_wait_frame bytes_free
        connection_close destroy_connection uninitialize_ssl_library now_microseconds :
      Call
  socket_open : List ℕ → ℤ → Call
  socket_open_noblock : List ℕ → ℤ → Option ℤ → Call  -- the timeout in seconds
  login : List ℕ → ℤ → ℤ → ℤ → ℤ → List ℕ → List ℕ → Call
  channel_open channel_close : ℕ → Call
  queue_declare : ℕ → List ℕ → Bool → Bool → Bool → Bool → Call  -- passive, durable, exclusive, auto_delete
  queue_bind queue_unbind : ℕ → List ℕ → List ℕ → List ℕ → Call  -- queue, exchange, binding key
  basic_consume : ℕ → List ℕ → Bool → Bool → Bool → Call  -- no_local, no_ack, exclusive
  read_message : ℕ → Call
  set_verify_peer set_verify_hostname : Bool → Call
  set_cacert : List ℕ → Call
  set_ssl_engine : Option (List ℕ) → Call  -- `none` is NULL
  set_key : List ℕ → List ℕ → Call

-- What a server exception carries.
pub data Method : Type 0 where
  connection_closed channel_closed : ℕ → List ℕ → Method
  other_method : ℕ → Method

pub data Reply : Type 0 where
  normal no_reply : Reply
  library_exception : ℤ → Reply
  server_exception : Method → Reply

-- A frame that `amqp_simple_wait_frame` gives: a method, on a channel, or something else.
pub data Frame : Type 0 where
  basic_ack channel_close_frame connection_close_frame other_frame : Frame
  basic_return : ℕ → Frame
  unexpected_method : ℕ → Frame

-- The library, given the calls made so far, the last of them the one that it answers.
pub record Library : Type 0 where
  pub handle : List Call → Handle
  pub status : List Call → ℤ
  pub reply : List Call → Reply
  pub frame : List Call → Frame
  pub bytes : List Call → Option (List ℕ)
  pub clock : List Call → ℕ
  pub error_string : ℤ → List ℕ

-- What a program has done: its calls, and what it has printed.
pub record Log : Type 0 where
  pub calls : List Call
  pub stdout : List Piece
  pub stderr : List Piece

pub data Result (A : Type 0) : Type 0 where
  ok : A → Log → Result A
  exited : ℤ → Log → Result A
  fault : Fault → Result A
  running : Log → Result A  -- out of fuel

abbrev pub Session : Type 0 → Type 0
Session A = Log → Result A

abbrev pub pure : {A : Type 0} → A → Session A
pure a l = ok a l

abbrev pub and_then : {A B : Type 0} → Result A → (A → Session B) → Result B
and_then (ok a l) f = f a l
and_then (exited n l) f = exited n l
and_then (fault e) f = fault e
and_then (running l) f = running l

infixl 5 ◌>>=◌ ◌>>◌
abbrev pub ◌>>=◌ : {A B : Type 0} → Session A → (A → Session B) → Session B
◌>>=◌ m f l = and_then (m l) f

abbrev pub ◌>>◌ : {B : Type 0} → Session (Unit {0}) → Session B → Session B
m >> k = m >>= λ _. k

abbrev pub print : List Piece → Session (Unit {0})
print ps l = ok tt (record l { stdout = l.stdout ++ ps })

abbrev pub print_error : List Piece → Session (Unit {0})
print_error ps l = ok tt (record l { stderr = l.stderr ++ ps })

abbrev pub exit : {A : Type 0} → ℤ → Session A
exit n l = exited n l

-- The log after one more call.
abbrev pub called : Call → Log → Log
called c l = record l { calls = l.calls ++ c ∷ [] }

-- A call whose answer is not looked at, and calls that are answered.
abbrev pub perform : Call → Session (Unit {0})
perform c l = ok tt (called c l)

abbrev pub ask : {A : Type 0} → (List Call → A) → Call → Session A
ask answer c l = ok (answer (l.calls ++ c ∷ [])) (called c l)

unfoldable pub die : {A : Type 0} → List Piece → Session A
die message = print_error (message ++ text "\n" ∷ []) >> exit (pos 1)

unfoldable pub die_on_error : Library → ℤ → String → Session (Unit {0})
die_on_error lib x context =
    if ltb_ℤ x (pos 0)
    then print_error (text context ∷ text ": " ∷ str (lib.error_string x) ∷ text "\n" ∷ [])
      >> exit (pos 1)
    else pure tt

-- What `die_on_amqp_error` says of a reply that is not normal.
abbrev pub complaint : Library → Reply → List Piece
complaint lib normal = []
complaint lib no_reply = text ": missing RPC reply type!\n" ∷ []
complaint lib (library_exception e) = text ": " ∷ str (lib.error_string e) ∷ text "\n" ∷ []
complaint lib (server_exception (connection_closed code message)) =
    text ": server connection error "
    ∷ int (pos code)
    ∷ text "h, message: "
    ∷ str message
    ∷ text "\n"
    ∷ []
complaint lib (server_exception (channel_closed code message)) =
    text ": server channel error "
    ∷ int (pos code)
    ∷ text "h, message: "
    ∷ str message
    ∷ text "\n"
    ∷ []
complaint lib (server_exception (other_method id)) =
    text ": unknown server error, method id 0x" ∷ hex 8 id ∷ text "\n" ∷ []

unfoldable pub die_on_amqp_error : Library → Reply → Piece → Session (Unit {0})
die_on_amqp_error lib normal context = pure tt
die_on_amqp_error lib no_reply context =
    print_error (context ∷ complaint lib no_reply) >> exit (pos 1)
die_on_amqp_error lib (library_exception e) context =
    print_error (context ∷ complaint lib (library_exception e)) >> exit (pos 1)
die_on_amqp_error lib (server_exception m) context =
    print_error (context ∷ complaint lib (server_exception m)) >> exit (pos 1)
