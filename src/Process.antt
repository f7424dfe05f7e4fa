-- ===== src/Process.antt =====
-- The process of the C++ front end: its memory and output, the queue that it maps
-- (FrontendCPP/WateRMQ.hpp, `Queue`), the semaphores, and the calls it has made of the system. What
-- the system answers is a parameter.
use wate_rmq.Common.{ℕ, ◌*◌, Bool, List, [], ◌∷◌, ◌++◌, Option, none, some, ℤ}
use wate_rmq.Memory.{Ptr, null, at, Piece, World, Run, Cmd, Fault, dangling, update}
use wate_rmq.Memory
use wate_rmq.Machine.{Ending, ok, exited, fault}

-- `MAX_SIZE`: the source writes the product without parentheses.
abbrev pub max_size : ℕ
max_size = 4096 * 10

-- The struct in the shared memory.
pub record Queue : Type 0 where
  pub items : ℕ → Ptr
  pub front : ℤ
  pub rear : ℤ
  pub count : ℤ

-- What the process has asked of the system, as far as the source does not look at the answer.
pub data Event : Type 0 where
  closed : ℕ → Event  -- of a file descriptor
  unmapped : ℕ → Event  -- with the size
  unlinked : List ℕ → Event  -- the shared memory of a name
  semaphore_closed : ℕ → Event
  semaphore_unlinked : List ℕ → Event
  thread_started thread_detached : Event
  slept : ℕ → Event

-- `value` and `is_open` are by the handle of a semaphore.
pub record State : Type 0 where
  pub world : World
  pub queue : Queue
  pub value : ℕ → ℕ
  pub is_open : ℕ → Bool
  pub events : List Event

-- The answers of the system, `none` for a failure: the semaphore of a name that is in use, or a new
-- one; the descriptor of a shared memory of a name; what such memory holds when it is mapped as a
-- `Queue`; its size.
pub record System : Type 0 where
  pub semaphore_at : List ℕ → Option ℕ
  pub new_semaphore : List ℕ → Option ℕ
  pub shm_open : List ℕ → Option ℕ
  pub ftruncate : ℕ → ℕ → Bool
  pub mmap : ℕ → ℕ → Option Queue
  pub st_size : ℕ → Option ℕ

abbrev pub Outcome : Type 0 → Type 0
Outcome A = Ending State A

abbrev pub Proc : Type 0 → Type 0
Proc A = State → Outcome A

-- A call on memory.
abbrev pub lifted : {A : Type 0} → Run A → State → Outcome A
lifted (Memory.ok a w) s = ok a (record s { world = w })
lifted (Memory.exited n w) s = exited n (record s { world = w })
lifted (Memory.fault e) s = fault e s

abbrev pub lift : {A : Type 0} → Cmd A → Proc A
lift m s = lifted (m s.world) s

abbrev pub print : List Piece → Proc (Unit {0})
print ps = lift (Memory.print ps)

abbrev pub print_error : List Piece → Proc (Unit {0})
print_error ps = lift (Memory.print_error ps)

abbrev pub record_event : Event → Proc (Unit {0})
record_event e s = ok tt (record s { events = s.events ++ e ∷ [] })

abbrev pub get_queue : Proc Queue
get_queue s = ok s.queue s

abbrev pub set_queue : Queue → Proc (Unit {0})
set_queue q s = ok tt (record s { queue = q })

-- `free`, of NULL or of a block that is live.
abbrev pub release : Option (List ℕ) → ℕ → Cmd (Unit {0})
release none b w = Memory.fault dangling
release (some bytes) b w = Memory.ok tt (record w { block = update w.block b none })

unfoldable pub free : Ptr → Cmd (Unit {0})
free null w = Memory.ok tt w
free (at b) w = release (w.block b) b w
