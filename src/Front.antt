-- ===== src/Front.antt =====
-- The class of FrontendCPP/WateRMQ.cpp and WateRMQ.hpp, over the process and the semaphores: how the
-- front end opens the shared queue, reads messages from it, keeps its settings and cleans up.
pub mod Decimal
pub mod Opening
pub mod Command
pub mod Locked
pub mod Reads
pub mod Slots
pub mod Burst
pub mod Frees
pub mod Cleanup
pub mod Opens
pub mod Settings
mod Tests
use wate_rmq.Common.{
  ℕ, zero, suc, ◌+◌, ◌*◌, ◌%◌, ◌^◌, ◌-◌, Bool, true, false, ◌&&◌, List, [], ◌∷◌, ◌++◌, Option, none,
  some, String, ℤ, pos, negsuc, ◌-ℤ◌, eqb_ℤ, ltb, ◌==◌, if◌then◌else◌,
}
use wate_rmq.Memory.{
  Ptr, null, at, text, null_access, out_of_bounds, int_range, update, read_string,
}
use wate_rmq.Process.{
  max_size, Queue, State, System, closed, unmapped, unlinked, thread_started, thread_detached, Proc,
  lift, print, print_error, record_event, get_queue, set_queue, free,
}
use wate_rmq.Machine.{pure, ◌>>=◌, ◌>>◌, crash, exit}
use wate_rmq.Semaphores.{Semaphore, new_named, wait, post, destruct}
use wate_rmq.Argv.{codes, same_string}
use Decimal.{to_string}

-- `sizeof(Queue)`, with the padding behind its three `int`s.
abbrev pub sizeof_queue : ℕ
sizeof_queue = max_size * 8 + 16

-- `std::map<std::string, std::string>`
abbrev pub Command : Type 0
Command = List ℕ → Option (List ℕ)

-- `_ptr_queue` is the mapping, or NULL.
pub record WateRmq : Type 0 where
  pub sem : Option Semaphore
  pub ptr_queue : Bool
  pub filename : List ℕ
  pub command : Command
  pub running : Bool

unfoldable pub is_empty : Queue → Bool
is_empty q = eqb_ℤ q.count (pos 0)

unfoldable pub is_full : Queue → Bool
is_full q = eqb_ℤ q.count (pos max_size)

-- `items[i]`
abbrev pub item : Queue → ℤ → Proc Ptr
item q (pos i) = if ltb i max_size then pure (q.items i) else crash out_of_bounds
item q (negsuc i) = crash out_of_bounds

unfoldable pub peek : Queue → Proc Ptr
unfolding is_empty
peek q = if is_empty q then pure null else item q q.front

abbrev pub opposite : ℕ → ℤ
opposite zero = pos 0
opposite (suc n) = negsuc n

-- `(front + 1) % MAX_SIZE`, as the macro expands; the remainder of a number below 0 is not above 0.
unfoldable pub next_front : ℤ → ℤ
next_front (pos f) = pos ((f + 1) % 4096 * 10)
next_front (negsuc f) = opposite (f % 4096 * 10)

-- `items[front] = nullptr`
abbrev pub clear_front : (ℕ → Ptr) → ℤ → ℕ → Ptr
clear_front items (pos f) = update items f null
clear_front items (negsuc f) = items

abbrev pub int_min : ℤ
int_min = negsuc (2 ^ 31 - 1)

-- The queue after its front has been taken off.
unfoldable pub remove : Queue → Proc (Unit {0})
unfolding ◌-ℤ◌
remove q =
    if eqb_ℤ q.count int_min
    then crash int_range
    else set_queue (record q {
      items = clear_front q.items q.front;
      front = next_front q.front;
      count = q.count -ℤ pos 1;
    })

-- What `_readMessage` does with the pointer that it has peeked at.
unfoldable pub take_message : Queue → Ptr → Proc (List ℕ)
take_message q null = pure []
take_message q (at b) =
    lift (read_string (at b)) >>= λ s. lift (free (at b)) >> (remove q >> pure s)

-- `*_ptr_queue`
abbrev pub pointed : Bool → Proc Queue
pointed true = get_queue
pointed false = crash null_access

-- `_readMessage` between the wait and the post.
unfoldable pub read_locked : Bool → Proc (List ℕ)
read_locked mapped = pointed mapped >>= λ q. peek q >>= λ p. take_message q p

abbrev pub read_with : Option Semaphore → Bool → Proc (List ℕ)
read_with none mapped = pure []
read_with (some c) mapped = wait c >> (read_locked mapped >>= λ s. post c >> pure s)

unfoldable pub read_message : WateRmq → Proc (List ℕ)
read_message o = read_with o.sem o.ptr_queue

unfoldable pub consuming_message : WateRmq → Proc (List ℕ)
unfolding read_message
consuming_message o = read_message o

-- The loop of `_cleanup` over so many slots from slot `i` on.
abbrev pub free_pointer : Queue → ℕ → Ptr → Proc (Unit {0})
free_pointer q i null = pure tt
free_pointer q i (at b) =
    lift (free (at b)) >> set_queue (record q { items = update q.items i null })

abbrev pub free_slot : ℕ → Proc (Unit {0})
free_slot i = get_queue >>= λ q. free_pointer q i (q.items i)

unfoldable pub free_items : ℕ → ℕ → Proc (Unit {0})
free_items zero i = pure tt
free_items (suc n) i = free_slot i >> free_items n (suc i)

unfoldable pub unmap : Bool → Proc (Unit {0})
unmap false = pure tt
unmap true = free_items max_size 0 >> record_event (unmapped sizeof_queue)

unfoldable pub delete : Option Semaphore → Proc (Unit {0})
delete none = pure tt
delete (some c) = destruct c

-- The destructor and `destroy` do the same.
unfoldable pub cleanup : WateRmq → Proc WateRmq
cleanup o =
    unmap o.ptr_queue
    >> (delete o.sem
        >> (record_event (unlinked o.filename)
            >> pure (record o { running = false; ptr_queue = false; sem = none })))

unfoldable pub destroy : WateRmq → Proc WateRmq
unfolding cleanup
destroy o = cleanup o

-- The thread that `start` starts; it returns NULL.
unfoldable pub task_consumer : Proc Ptr
task_consumer = print (text "Consumer thread started" ∷ text "\n" ∷ []) >> pure null

-- `start`; the thread runs beside it.
unfoldable pub start : WateRmq → Proc WateRmq
start o =
    record_event thread_started
    >> (record_event thread_detached >> pure (record o { running = true }))
