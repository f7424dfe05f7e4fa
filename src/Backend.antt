-- ===== src/Backend.antt =====
-- The parts of BackLibWaterRMQ.c that work on memory and on the AMQP library at once: the connection
-- and the login of an instance, what becomes of a message that has arrived, and the loop over
-- messages. Where the library puts the body of a message, and how the bytes of a block read as a
-- struct, is a parameter.
pub mod Calls
pub mod Replies
pub mod Stays
pub mod Hinders
pub mod Message
pub mod Sends
pub mod Connects
pub mod LogsIn
pub mod Main
pub mod Never
mod Tests
mod LoginTests
use wate_rmq.Common.{
  ℕ, zero, suc, Bool, List, [], ◌∷◌, ◌++◌, Option, none, some, ℤ, pos, negsuc, false, ltb, length,
  if◌then◌else◌,
}
use wate_rmq.Memory.{
  Ptr, null, at, World, Run, Cmd, null_access, dangling, out_of_bounds, read_string, update,
}
use wate_rmq.Memory
use wate_rmq.Machine.{Ending, ok, exited, fault, blocked, running, pure, ◌>>=◌, ◌>>◌, crash}
use wate_rmq.Queue.{Queue, sizeof_queue, enqueue}
use wate_rmq.Config.{Handle, Login, WateRmq, QueueMmap}
use wate_rmq.Configure.{overwrite, member}
use wate_rmq.Session.{
  Call, maybe_release_buffers, consume_message, Reply, Library, Log, Result, Session, ask, perform,
}
use wate_rmq.Session
use wate_rmq.Start.{die_with}
use Calls.{make_socket, open_tcp, login_call, ret_request_handling}

-- `value` and `is_open` are by the handle of a semaphore.
pub record State : Type 0 where
  pub world : World
  pub calls : List Call
  pub value : ℕ → ℕ
  pub is_open : ℕ → Bool

abbrev pub Back : Type 0 → Type 0
Back A = State → Ending State A

abbrev pub lifted : {A : Type 0} → Run A → State → Ending State A
lifted (Memory.ok a w) s = ok a (record s { world = w })
lifted (Memory.exited n w) s = exited n (record s { world = w })
lifted (Memory.fault e) s = fault e s

abbrev pub lift : {A : Type 0} → Cmd A → Back A
lift m s = lifted (m s.world) s

-- The output of a session is that of the process.
abbrev pub log_of : State → Log
log_of s = record { calls = s.calls; stdout = s.world.stdout; stderr = s.world.stderr }

abbrev pub logged : Log → State → State
logged l s = record s {
  world = record s.world { stdout = l.stdout; stderr = l.stderr };
  calls = l.calls;
}

abbrev pub answered : {A : Type 0} → Result A → State → Ending State A
answered (Session.ok a l) s = ok a (logged l s)
answered (Session.exited n l) s = exited n (logged l s)
answered (Session.fault e) s = fault e s
answered (Session.running l) s = running (logged l s)

abbrev pub in_session : {A : Type 0} → Session A → Back A
in_session m s = answered (m (log_of s)) s

-- `configurationConnection_WateRMQ_public`
unfoldable pub configure_connection : Library → WateRmq → Ptr → ℤ → Back WateRmq
configure_connection lib i hostname port = lift (member i.conf_conn) >>= λ c.
    lift (overwrite c.hostname hostname)
    >> (lift (member i.conf_login) >>= λ login. in_session (make_socket lib) >>= λ (conn, socket).
        lift (read_string c.hostname) >>= λ host.
        in_session (open_tcp lib host port)
        >> pure (record i {
          conf_conn = some (record c { socket = socket; port = port });
          conf_login = some (record login { conn = conn });
        }))

-- `amqp_login` with what the struct holds, and the test of its reply.
unfoldable pub log_in_with : Library → WateRmq → Login → Back (Unit {0})
log_in_with lib i login = lift (read_string login.host) >>= λ host.
    lift (read_string login.username) >>= λ username.
    lift (read_string login.password) >>= λ password.
    in_session (ask lib.reply (login_call login host username password)) >>= λ ret_code.
    lift (member i.except) >>= λ x.
    λ s. in_session (die_with lib s.world ret_code x.login_message) s

-- `configurationLogin_WateRMQ_public`
unfoldable pub configure_login : Library → WateRmq → Ptr → ℤ → ℤ → ℤ → ℤ → Ptr → Ptr → Back WateRmq
configure_login lib i v_host channel_max frame_max heartbeat sasl_method username password =
    lift (member i.conf_login) >>= λ login.
    lift (overwrite login.host v_host)
    >> (lift (overwrite login.username username)
        >> (lift (overwrite login.password password)
            >> (let new = record login {
              channel_max = channel_max;
              frame_max = frame_max;
              heartbeat = heartbeat;
              sasl_method = sasl_method;
            } in
                log_in_with lib i new >> pure (record i { conf_login = some new }))))

-- A call on the semaphore behind a handle: a fault if it is not open.
abbrev pub on_open : Handle → (ℕ → Back (Unit {0})) → Back (Unit {0})
on_open none f s = fault null_access s
on_open (some h) f s = if s.is_open h then f h s else fault dangling s

abbrev pub lower : ℕ → ℕ → Back (Unit {0})
lower zero h s = blocked s
lower (suc n) h s = ok tt (record s { value = update s.value h n })

unfoldable pub sem_wait : Handle → Back (Unit {0})
sem_wait sem = on_open sem λ h s. lower (s.value h) h s

unfoldable pub sem_close : Handle → Back (Unit {0})
sem_close sem = on_open sem λ h s. ok tt (record s { is_open = update s.is_open h false })

-- The machine as far as the source leaves things to it: where the library puts the body of a message,
-- and how the bytes of a block read as a `Queue` and are written as one.
pub record Placing : Type 0 where
  pub put : Option (List ℕ) → Cmd Ptr
  pub view : List ℕ → Queue
  pub stored : Queue → List ℕ → List ℕ

-- The memory at `p`, read as a `Queue`, whose last member is `rear`: a shorter block ends before it.
abbrev pub block_as_queue : Placing → Option (List ℕ) → Cmd Queue
block_as_queue place none w = Memory.fault dangling
block_as_queue place (some bytes) w =
    if ltb (length bytes) sizeof_queue
    then Memory.fault out_of_bounds
    else Memory.ok (place.view bytes) w

unfoldable pub as_queue : Placing → Ptr → Cmd Queue
as_queue place null w = Memory.fault null_access
as_queue place (at b) w = block_as_queue place (w.block b) w

-- The queue written back to the memory at `p`.
abbrev pub rewritten : Placing → Queue → ℕ → Option (List ℕ) → Cmd (Unit {0})
rewritten place q b none w = Memory.fault dangling
rewritten place q b (some bytes) w =
    Memory.ok tt (record w { block = update w.block b (some (place.stored q bytes)) })

unfoldable pub set_queue : Placing → Ptr → Queue → Cmd (Unit {0})
set_queue place null q w = Memory.fault null_access
set_queue place (at b) q w = rewritten place q b (w.block b) w

-- `addMessageInQueue_private` on a pointer to a queue instead of an instance: the fifth pointer of
-- the queue stands where an instance has its `consumingQueue`.
unfoldable pub add_to_queue : Placing → Option Queue → Ptr → Cmd ℤ
add_to_queue place q null = Memory.pure (negsuc 0)
add_to_queue place q (at b) = Memory.◌>>=◌ (member q) λ queue.
    Memory.◌>>=◌ (as_queue place (queue.items 4)) λ other.
      Memory.◌>>=◌ (enqueue other (at b))
        λ other'. Memory.◌>>=◌ (set_queue place (queue.items 4) other') λ _. Memory.pure (pos 1)

-- `sendMessage` behind its wait; `msync` changes nothing that the process sees.
unfoldable pub send_through : Placing → WateRmq → Handle → Ptr → QueueMmap → Back WateRmq
send_through place i sem message q = lift (add_to_queue place q.ptr_queue message) >>= λ _.
    lift (member q.ptr_queue) >>= λ queue. lift (enqueue queue message) >>= λ queue'.
    sem_close sem >> pure (record i { qmmap = some (record q { ptr_queue = some queue' }) })

-- `sendMessage`
unfoldable pub send_message : Placing → WateRmq → Ptr → Back WateRmq
send_message place i message = lift (member i.semap) >>= λ m.
    sem_wait m.semaphore_self
    >> (lift (member i.qmmap) >>= λ q. send_through place i m.semaphore_self message q)

-- One round of `rabbitmqConsuming_private`.
unfoldable pub consume_and_send : Library → Placing → WateRmq → Back WateRmq
consume_and_send lib place i = lift (member i.conf_login) >>= λ login.
    in_session (perform maybe_release_buffers)
    >> (in_session (ask (λ h. (lib.reply h, lib.bytes h)) consume_message) >>= λ (ret, bytes).
        lift (place.put bytes) >>= λ message.
        send_message place i message >>= λ i'. in_session (ret_request_handling lib ret) >> pure i')

-- `rabbitmqConsuming_private`, for so many rounds.
unfoldable pub rabbitmq_consuming : ℕ → Library → Placing → WateRmq → Back (Unit {0})
rabbitmq_consuming zero lib place i s = running s
rabbitmq_consuming (suc rounds) lib place i s =
    (consume_and_send lib place i >>= λ i'. rabbitmq_consuming rounds lib place i') s
