-- ===== src/Backend/Main.antt =====
-- The start of the consumption and `main` of BackLibWaterRMQ.c. What the files, the memory of the
-- arguments and the undeclared names hold is a parameter. The source passes its first setter one
-- argument too few; it is taken to be the instance, as in the other calls.
use wate_rmq.Common.{ℕ, Bool, true, false, List, [], ◌∷◌, Option, some, ℤ, pos, ◌==◌, if◌then◌else◌}
use wate_rmq.Memory.{Ptr, null, at, World, out_of_bounds, text, malloc}
use wate_rmq.Memory
use wate_rmq.Machine.{running, pure, ◌>>=◌, ◌>>◌, crash, exit, ok}
use wate_rmq.Queue.{Queue, sizeof_queue}
use wate_rmq.Config.{Handle, WateRmq, Fresh, init_water_rmq, amqp_sasl_method_plain}
use wate_rmq.Configure.{member, configure_exchange, configure_exception_message}
use wate_rmq.Argv.{
  Argv, Informations, Parsed, Outcome, done, exited, fault, out_of_fuel, codes, process_argv,
}
use wate_rmq.Argv.Fields.{
  Field, hostname, port, exchange_name, binding_key, queuename, v_host, channel_max, frame_max,
  heartbeat, username, password, login_message, opening_channel_message, queue_message,
  binding_message, consuming_message, closing_channel_message, closing_connection_message,
  ending_connection_message,
}
use wate_rmq.Session.{Library}
use wate_rmq.Start.{configure_rabbit_mq}
use wate_rmq.Backend.{
  Back, lift, in_session, configure_connection, configure_login, Placing, rabbitmq_consuming,
}

-- `getLengthConsumeQueue_private`, which is not written yet.
abbrev pub get_length_consume_queue : ℕ
get_length_consume_queue = 0

-- The answers of the system for the file of the bridge: its descriptor, `none` for a failure that the
-- source does not look at; the size in `st`; and the mapping.
pub record Files : Type 0 where
  pub opened : List ℕ → Option ℕ
  pub st_size : Option ℕ → ℕ
  pub mapped : Option ℕ → ℕ → Option Queue

-- `configurationQueueMmap_private`: of a new file the mapping is made, and then replaced by
-- `ptr_queue`.
unfoldable pub configure_queue_mmap : Files → WateRmq → List ℕ → Option Queue → Back WateRmq
configure_queue_mmap files i filename ptr_queue = lift (member i.qmmap) >>= λ q.
    let fd = files.opened filename in
    let made = record q { ptr_queue = files.mapped fd sizeof_queue } in
    pure (
      if files.st_size fd == 0
      then record i {
        consuming_queue = ptr_queue;
        qmmap = some (record made { ptr_queue = ptr_queue });
      }
      else record i { qmmap = some (record q { ptr_queue = files.mapped fd (files.st_size fd) }) })

-- `configurationSemaphoreMmap_private` has no body.
abbrev pub configure_semaphore_mmap : Back (Unit {0})
configure_semaphore_mmap = pure tt

-- What is handed to the routine of the thread as a `void *`.
pub data Argument : Type 0 where
  instance_at : WateRmq → Argument
  variable_at : Argument  -- the address of a pointer to the instance

-- `main_rabbitMQ_pthread_private`: of a variable, the members of an instance lie beyond its end.
unfoldable pub main_rabbitmq_pthread : ℕ → Library → Placing → Argument → Back (Unit {0})
main_rabbitmq_pthread rounds lib place (instance_at i) = rabbitmq_consuming rounds lib place i
main_rabbitmq_pthread rounds lib place variable_at = crash out_of_bounds

-- `start_consuming_public`
unfoldable pub start_consuming_public :
    ℕ → Library → List ℕ → Files → Placing → WateRmq → Back (Unit {0})
start_consuming_public rounds lib qu files place i =
    (λ s. in_session (configure_rabbit_mq lib s.world qu i) s)
    >> (lift (member i.qmmap) >>= λ q.
        configure_queue_mmap files i (codes "queue.bridge") q.ptr_queue >>= λ i'.
        configure_semaphore_mmap >> main_rabbitmq_pthread rounds lib place variable_at)

abbrev pub is_block : Ptr → Bool
is_block null = false
is_block (at b) = true

-- `sizeof(Informations)`
abbrev pub sizeof_informations : ℕ
sizeof_informations = 9612

abbrev pub parsed : Outcome Parsed → Back Parsed
parsed (done p) = pure p
parsed (exited n) = exit (pos n)
parsed (fault e) = crash e
parsed out_of_fuel = λ s. running s

-- What `main` finds: the literal "." and the arrays of `Informations` in memory, and the `int` that
-- the address of an array makes where the source passes it for a number.
pub record Setting : Type 0 where
  pub dot : Ptr
  pub arrays : Informations → World → (Field → Ptr) × World
  pub as_int : Field → ℤ
  pub sem_open : List ℕ → Handle
  pub fresh : Fresh

abbrev pub arranged : Setting → Informations → Back (Field → Ptr)
arranged setting info s = let (p, w) = setting.arrays info s.world in ok p (record s { world = w })

-- The setters that `main` calls.
unfoldable pub set_up_instance : Library → Setting → (Field → Ptr) → WateRmq → Back WateRmq
set_up_instance lib setting p i =
    lift (
      configure_exception_message i (p login_message) (p opening_channel_message) (p queue_message)
        (p binding_message) (p consuming_message) (p closing_channel_message)
        (p closing_connection_message) (p ending_connection_message))
    >> (lift (configure_exchange i (p exchange_name) (p binding_key) (p queuename))
        >> (configure_connection lib i (p hostname) (setting.as_int port) >>= λ i'.
            configure_login lib i' (p v_host) (setting.as_int channel_max)
              (setting.as_int frame_max) (setting.as_int heartbeat) amqp_sasl_method_plain
              (p username) (p password)))

-- `main`: `fuel` is for the loop over the arguments, `rounds` for that over the messages.
unfoldable pub backend_main : ℕ → ℕ → Library → List ℕ → Files → Placing → Setting → Argv → Back ℤ
backend_main fuel rounds lib qu files place setting argv =
    lift (malloc sizeof_informations) >>= λ struct.
    parsed (process_argv fuel (is_block struct) argv) >>= λ info.
    arranged setting info.info >>= λ p.
    lift (init_water_rmq setting.sem_open setting.fresh setting.dot) >>= λ i.
    set_up_instance lib setting p i >>= λ i'.
    configure_semaphore_mmap
    >> ((λ s. in_session (configure_rabbit_mq lib s.world qu i') s)
        >> (start_consuming_public rounds lib qu files place i'
            >> (lift (Memory.print (text "Started with file\n" ∷ [])) >> pure (pos 0))))
