-- ===== src/Config.antt =====
-- The configuration structs of BackendC/librabbitmq/watermq/BackLibWaterRMQ.c and the functions
-- that create them. A struct is a record, for its one owner; `sizeof` is that of a 64-bit machine.
-- What a fresh struct holds is an argument where the source leaves members unset.
pub mod Strings
pub mod Makes
pub mod Create
mod Tests
use wate_rmq.Common.{ℕ, ◌+◌, List, [], ◌∷◌, Option, none, some, ℤ, pos, negsuc}
use wate_rmq.Memory.{
  Ptr, null, at, Cmd, pure, ◌>>=◌, ◌>>◌, exit, print_error, text, malloc, memset, memcpy, strlen,
  read_string,
}
use wate_rmq.Queue.{Queue, create_consuming_queue}

pub record Exchange : Type 0 where
  pub exchange : Ptr
  pub binding_key : Ptr
  pub queue : Ptr

-- A handle of the AMQP library is a number, or `none` for NULL.
abbrev pub Handle : Type 0
Handle = Option ℕ

pub record Connection : Type 0 where
  pub socket : Handle
  pub hostname : Ptr
  pub port : ℤ

-- `sasl_method` is the value of its enumeration.
pub record Login : Type 0 where
  pub conn : Handle
  pub host : Ptr
  pub channel_max : ℤ
  pub frame_max : ℤ
  pub heartbeat : ℤ
  pub sasl_method : ℤ
  pub username : Ptr
  pub password : Ptr

pub record ExceptionHandling : Type 0 where
  pub login_message : Ptr
  pub opening_channel_message : Ptr
  pub queue_message : Ptr
  pub binding_message : Ptr
  pub consuming_message : Ptr
  pub closing_channel_message : Ptr
  pub closing_connection_message : Ptr
  pub ending_connection_message : Ptr

pub record QueueMmap : Type 0 where
  pub filename : Ptr
  pub length : ℕ
  pub addr : Ptr
  pub prot : ℤ
  pub flags : ℤ
  pub fd : ℤ
  pub offset : ℤ
  pub st_size : ℕ  -- of `struct stat st`
  pub ptr_queue : Option Queue

pub record SemaphoreMmap : Type 0 where
  pub sem_name : Ptr
  pub oflag : ℤ
  pub mode : ℕ
  pub value : ℕ
  pub semaphore_self : Handle

-- The instance; `none` is a NULL member.
pub record WateRmq : Type 0 where
  pub conf_exchange : Option Exchange
  pub conf_conn : Option Connection
  pub conf_login : Option Login
  pub except : Option ExceptionHandling
  pub consuming_queue : Option Queue
  pub qmmap : Option QueueMmap
  pub semap : Option SemaphoreMmap

-- `malloc(strlen(src) + 1)`, and the string copied into it.
unfoldable pub new_string : Ptr → Cmd Ptr
new_string src = do
  n ← strlen src
  p ← malloc (n + 1)
  elim p [
    | null ↦ pure null
    | at b ↦ do
      m ← strlen src
      memset (at b) 0 (m + 1)
      k ← strlen src
      memcpy (at b) src k
      pure (at b)
  ]

-- One member of a struct: NULL is returned if its string cannot be allocated.
unfoldable pub with_string : {A : Type 0} → Ptr → (Ptr → Cmd (Option A)) → Cmd (Option A)
with_string src continue = do
  p ← new_string src
  elim p [ null ↦ pure none | at b ↦ continue (at b) ]

-- The allocation of the struct itself: NULL is returned if it is refused.
unfoldable pub with_struct : {A : Type 0} → ℕ → Cmd (Option A) → Cmd (Option A)
with_struct size continue = do p ← malloc size; elim p [ null ↦ pure none | at b ↦ continue ]

unfoldable pub create_exchange : Ptr → Ptr → Ptr → Cmd (Option Exchange)
create_exchange exchange_name key queuename = with_struct 24 (
    with_string exchange_name λ e. with_string key λ k.
      with_string queuename λ q. pure (some (record { exchange = e; binding_key = k; queue = q })))

-- `socket` is read although nothing has set it.
unfoldable pub create_connection : Connection → Ptr → ℤ → Cmd (Option Connection)
create_connection raw hostname port = with_struct 24 (
    with_string hostname λ h. elim raw.socket [
      | none ↦ pure none
      | some s ↦ pure (some (record { socket = some s; hostname = h; port = port }))
    ])

unfoldable pub create_login : Login → Ptr → ℤ → ℤ → ℤ → ℤ → Ptr → Ptr → Cmd (Option Login)
create_login raw v_host channel_max frame_max heartbeat sasl_method username password =
    with_struct 48 (
      with_string v_host λ h. with_string username λ u. with_string password λ p. pure (
        some (record {
          conn = raw.conn;
          host = h;
          channel_max = channel_max;
          frame_max = frame_max;
          heartbeat = heartbeat;
          sasl_method = sasl_method;
          username = u;
          password = p;
        })))

unfoldable pub create_exception_handling :
    Ptr → Ptr → Ptr → Ptr → Ptr → Ptr → Ptr → Ptr → Cmd (Option ExceptionHandling)
create_exception_handling login opening queue binding consuming channel connection ending =
    with_struct 64 (
      with_string login λ a. with_string opening λ b. with_string queue λ c.
        with_string binding λ d. with_string consuming λ e. with_string channel λ f.
          with_string connection λ g. with_string ending λ h. pure (
            some (record {
              login_message = a;
              opening_channel_message = b;
              queue_message = c;
              binding_message = d;
              consuming_message = e;
              closing_channel_message = f;
              closing_connection_message = g;
              ending_connection_message = h;
            })))

-- `create_WateRMQ_QueueMmap_private`: nothing but NULL, yet.
abbrev pub create_queue_mmap : Cmd (Option QueueMmap)
create_queue_mmap = pure none

-- `sem_open` gives the semaphore of a name, or none.
unfoldable pub create_semaphore_mmap :
    (List ℕ → Handle) → SemaphoreMmap → Ptr → Cmd (Option SemaphoreMmap)
create_semaphore_mmap sem_open raw sem_name = with_struct 32 (
    with_string sem_name λ n. do
      s ← read_string n
      pure (some (record raw { sem_name = n; semaphore_self = sem_open s })))

unfoldable pub create_instance : Cmd (Unit {0})
create_instance = do
  p ← malloc 56
  elim p [
    | null ↦ do
      print_error (text "Unable to allocate memory : WateRMQ cannot be created" ∷ text "\n" ∷ [])
      exit (negsuc 0)
    | at b ↦ pure tt
  ]

abbrev pub amqp_sasl_method_plain : ℤ
amqp_sasl_method_plain = pos 0

-- What fresh memory holds, where `_init_WateRMQ_public` leaves it.
pub record Fresh : Type 0 where
  pub connection : Connection
  pub login : Login
  pub queue : Queue
  pub semaphore : SemaphoreMmap

-- `_init_WateRMQ_public`; `dot` is the literal ".".
unfoldable pub init_water_rmq : (List ℕ → Handle) → Fresh → Ptr → Cmd WateRmq
init_water_rmq sem_open fresh dot = do
  create_instance
  exchange ← create_exchange null null null
  connection ← create_connection fresh.connection null (pos 0)
  login ← create_login fresh.login null (pos 0) (pos 0) (pos 0) amqp_sasl_method_plain null null
  except ← create_exception_handling null null null null null null null null
  queue ← create_consuming_queue fresh.queue dot
  qmmap ← create_queue_mmap
  semap ← create_semaphore_mmap sem_open fresh.semaphore null
  pure (record {
    conf_exchange = exchange;
    conf_conn = connection;
    conf_login = login;
    except = except;
    consuming_queue = queue;
    qmmap = qmmap;
    semap = semap;
  })
