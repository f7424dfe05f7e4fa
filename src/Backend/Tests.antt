-- ===== src/Backend/Tests.antt =====
-- An instance with a bridge and a library that answers well, and what the back end makes of them.
use wate_rmq.Common.{
  ℕ, refl, arith, true, List, [], ◌∷◌, none, some, pos, negsuc, ◌==◌, replicate, if◌then◌else◌,
}
use wate_rmq.Memory.{Ptr, null, at, World}
use wate_rmq.Memory
use wate_rmq.Argv.{Argv, codes}
use wate_rmq.Argv.Fields.{Field}
use wate_rmq.Argv.RoundTrip.{padding_of, command_line}
use wate_rmq.Queue.{Queue}
use wate_rmq.Config.{WateRmq, Connection, Login, Fresh, QueueMmap, SemaphoreMmap}
use wate_rmq.Session.{normal}
use wate_rmq.Session.Tests.{fine, empty_log}
use wate_rmq.Consumer.{on_reply}
use wate_rmq.Backend.{State, Placing, configure_connection}
use wate_rmq.Backend.Calls.{ret_request_handling}
use wate_rmq.Backend.Replies.{Alike, ret_request_handling-Alike}
use wate_rmq.Backend.Connects.{Connects, configure_connection-Connects}
use wate_rmq.Backend.Main.{Files, Setting, start_consuming_public, backend_main}
use wate_rmq.Backend.Never.{Leaves, Quits, start_consuming_public-Leaves, backend_main-Quits}

-- "host", and "h" for it.
abbrev world : World
world = record {
  next = 2;
  block = λ b.
      if b == 0
      then some (b'h' ∷ b'o' ∷ b's' ∷ b't' ∷ 0 ∷ [])
      else if b == 1
      then some (b'h' ∷ 0 ∷ [])
      else none;
  grants = λ n size. true;
  junk = λ n i. 255;
  stdout = [];
  stderr = [];
}

abbrev state : State
state = record { world = world; calls = []; value = λ h. 1; is_open = λ h. true }

abbrev connection : Connection
connection = record { socket = none; hostname = at 0; port = pos 0 }

abbrev login : Login
login = record {
  conn = some 1;
  host = at 0;
  channel_max = pos 0;
  frame_max = pos 131072;
  heartbeat = pos 0;
  sasl_method = pos 0;
  username = at 0;
  password = at 0;
}

abbrev queue : Queue
queue = record { items = λ i. at 0; front = negsuc 0; rear = pos 0 }

abbrev bridge : QueueMmap
bridge = record {
  filename = at 0;
  length = 0;
  addr = null;
  prot = pos 0;
  flags = pos 0;
  fd = pos 0;
  offset = pos 0;
  st_size = 0;
  ptr_queue = some queue;
}

abbrev semaphore : SemaphoreMmap
semaphore = record { sem_name = at 0; oflag = pos 0; mode = 0; value = 0; semaphore_self = some 3 }

abbrev instance_ : WateRmq
instance_ = record {
  conf_exchange = none;
  conf_conn = some connection;
  conf_login = some login;
  except = none;
  consuming_queue = none;
  qmmap = some bridge;
  semap = some semaphore;
}

-- The body of every message is put at block 1.
abbrev place : Placing
place = record {
  put = λ body w. Memory.ok (at 1) w;
  view = λ bytes. queue;
  stored = λ q bytes. bytes;
}

ret_request_handling-Alike_example :
    Alike (on_reply fine normal empty_log) (ret_request_handling fine normal empty_log)
ret_request_handling-Alike_example = ret_request_handling-Alike fine normal empty_log

configure_connection-Connects_example :
    Connects fine instance_ connection login
      (b'h' ∷ b'o' ∷ b's' ∷ b't' ∷ [])
      (pos 5672)
      (record world {
        block = λ b. if 0 == b then some (b'h' ∷ b'o' ∷ b's' ∷ b't' ∷ 0 ∷ []) else world.block b;
      })
      state
      (configure_connection fine instance_ (at 1) (pos 5672) state)
configure_connection-Connects_example =
    configure_connection-Connects fine instance_ connection login (at 1) (pos 5672) 0 (b'h' ∷ [])
      (b'h' ∷ b'o' ∷ b's' ∷ b't' ∷ []) state refl refl refl refl (omega arith) refl (omega arith)
      (omega arith)

abbrev files : Files
files = record { opened = λ name. some 5; st_size = λ fd. 0; mapped = λ fd size. some queue }

start_consuming_public-Leaves_run :
    Leaves (start_consuming_public 3 fine (codes "q") files place instance_ state)
start_consuming_public-Leaves_run =
    start_consuming_public-Leaves 3 fine (codes "q") files place instance_ state

abbrev fresh : Fresh
fresh = record { connection = connection; login = login; queue = queue; semaphore = semaphore }

abbrev setting : Setting
setting = record {
  dot = at 1;
  arrays = λ info w. (λ f. at 0, w);
  as_int = λ f. pos 0;
  sem_open = λ name. some 3;
  fresh = fresh;
}

abbrev texts : Field → List ℕ
texts f = codes "guest"

abbrev line : Argv
line = command_line (codes "BackLibWaterRMQ") (λ f. replicate (padding_of f) b':') texts

backend_main-Quits_example :
    Quits [] (backend_main 30 3 fine (codes "q") files place setting line state)
backend_main-Quits_example = backend_main-Quits 30 3 fine (codes "q") files place setting line state
