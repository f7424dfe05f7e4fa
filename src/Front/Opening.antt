-- ===== src/Front/Opening.antt =====
-- `_init` and the constructor of FrontendCPP/WateRMQ.cpp: the shared memory and the semaphore are opened,
-- a new queue is reset.
use wate_rmq.Common.{
  ℕ, Bool, true, false, ◌&&◌, List, [], ◌∷◌, ◌++◌, Option, none, some, String, pos, eqb_ℤ, ◌==◌,
  if◌then◌else◌,
}
use wate_rmq.Memory.{null, text}
use wate_rmq.Process.{Queue, System, closed, Proc, print_error, record_event, set_queue}
use wate_rmq.Machine.{pure, ◌>>=◌, ◌>>◌, exit}
use wate_rmq.Semaphores.{new_named}
use wate_rmq.Argv.{codes}
use wate_rmq.Front.{sizeof_queue, WateRmq}

-- `perror`, the descriptor closed if there is one, and `exit`.
abbrev pub give_up : {A : Type 0} → String → Proc (Unit {0}) → Proc A
give_up call clean = print_error (text call ∷ []) >> (clean >> exit (pos 1))

abbrev pub close_fd : ℕ → Proc (Unit {0})
close_fd fd = record_event (closed fd)

-- A queue whose three numbers are 0.
abbrev pub is_zero : Queue → Bool
is_zero q = eqb_ℤ q.front (pos 0) && (eqb_ℤ q.rear (pos 0) && eqb_ℤ q.count (pos 0))

abbrev pub zeroed : Queue → Queue
zeroed q = record { items = λ i. null; front = pos 0; rear = pos 0; count = pos 0 }

-- The reset of a queue that is new, given what `fstat` tells.
unfoldable pub reset : Option ℕ → Queue → Queue
reset none q = q
reset (some size) q = if size == sizeof_queue && is_zero q then zeroed q else q

unfoldable pub map_queue : System → ℕ → Option Queue → Proc (Unit {0})
map_queue sys fd none = give_up "mmap" (close_fd fd)
map_queue sys fd (some q) = set_queue (reset (sys.st_size fd) q) >> close_fd fd

unfoldable pub size_and_map : System → ℕ → Bool → Proc (Unit {0})
size_and_map sys fd false = give_up "ftruncate" (close_fd fd)
size_and_map sys fd true = map_queue sys fd (sys.mmap fd sizeof_queue)

unfoldable pub open_queue : System → Option ℕ → Proc (Unit {0})
open_queue sys none = give_up "shm_open" (pure tt)
open_queue sys (some fd) = size_and_map sys fd (sys.ftruncate fd sizeof_queue)

-- `_init`
unfoldable pub init : System → WateRmq → Proc WateRmq
init sys o =
    open_queue sys (sys.shm_open o.filename)
    >> (new_named sys (o.filename ++ codes "_sem") true >>= λ c.
        pure (record o { ptr_queue = true; sem = some c }))

-- The constructor.
unfoldable pub new_water_rmq : System → List ℕ → Proc WateRmq
new_water_rmq sys filename = init sys (record {
  sem = none;
  ptr_queue = false;
  filename = filename;
  command = λ key. none;
  running = false;
})
