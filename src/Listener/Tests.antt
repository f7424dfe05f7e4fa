-- ===== src/Listener/Tests.antt =====
-- Runs of the program of FrontendCPP/WateRMQCPP.cpp.
use wate_rmq.Common.{
  ℕ, zero, suc, ◌≡◌, inl, inr, refl, subst, arith, List, [], ◌∷◌, Option, none, some, pos, true,
  ◌==◌,
}
use wate_rmq.Memory.{Ptr, null, at, World}
use wate_rmq.Process.{Queue, State, System}
use wate_rmq.Argv.{codes}
use wate_rmq.Front.{WateRmq}
use wate_rmq.Front.Locked.{Slot, IsWell}
use wate_rmq.Front.Reads.{IsOpen}
use wate_rmq.Listener.{Json, console, parsed, given, listen, listener_main}
use wate_rmq.Listener.Hears.{Hears, listen-Hears}
use wate_rmq.Listener.Serves.{Serves, listener_main-Serves}
use wate_rmq.Front.Opening.{reset}
use wate_rmq.Listener.Silent.{Waits, listener_main-Waits}

abbrev one_block : ℕ → Option (List ℕ)
one_block zero = some (123 ∷ 125 ∷ 0 ∷ [])
one_block _ = none

abbrev one_slot : ℕ → Ptr
one_slot zero = at 0
one_slot _ = null

abbrev world : World
world = record {
  next = 1;
  block = one_block;
  grants = λ n size. true;
  junk = λ b i. 0;
  stdout = [];
  stderr = [];
}

abbrev queue : Queue
queue = record { items = one_slot; front = pos 0; rear = pos 1; count = pos 1 }

abbrev state : State
state = record { world = world; queue = queue; value = λ h. 1; is_open = λ h. h == 3; events = [] }

abbrev rabbit : WateRmq
rabbit = record {
  sem = some (record { sem = some 3; sem_name = codes "w_sem"; is_named = true });
  ptr_queue = true;
  filename = codes "w";
  command = λ key. none;
  running = true;
}

one_slot-Slot : (i : ℕ) → Slot world (one_slot i)
one_slot-Slot zero = inr (0, 123 ∷ 125 ∷ [], refl, refl)
one_slot-Slot (suc i) = inl refl

one_slot-apart : (i j b : ℕ) → one_slot i ≡ at b → one_slot j ≡ at b → i ≡ j
one_slot-apart zero zero b e f = refl
one_slot-apart zero (suc j) b e f = cc
one_slot-apart (suc i) j b e f = cc

queue-IsWell : IsWell world queue
queue-IsWell = record {
  front = 0;
  count = 1;
  front_at = refl;
  front_lt = omega arith;
  count_at = refl;
  slots = record { slot = one_slot-Slot; apart = one_slot-apart };
}

abbrev rabbit-IsOpen : IsOpen rabbit state
rabbit-IsOpen = record {
  c = record { sem = some 3; sem_name = codes "w_sem"; is_named = true };
  handle = 3;
  has_semaphore = refl;
  has_handle = refl;
  has_queue = refl;
  usable = refl;
}

-- Every text is an object without keys.
abbrev json : Json
json = record { parse = λ s. parsed 0; value = λ v key default. given (codes default) }

listen-Hears_example :
    Hears json (console ∷ []) 0 2 state (listen json (console ∷ []) rabbit 2 0 state)
listen-Hears_example =
    listen-Hears json (console ∷ []) rabbit 2 0 state 0 rabbit-IsOpen refl queue-IsWell
      (omega arith)

abbrev system : System
system = record {
  semaphore_at = λ name. none;
  new_semaphore = λ name. some 3;
  shm_open = λ name. some 5;
  ftruncate = λ fd size. true;
  mmap = λ fd size. some queue;
  st_size = λ fd. some 327696;
}

listener_main-Waits_example : Waits system state (listener_main system json 1 state)
listener_main-Waits_example = listener_main-Waits system json 0 state refl

-- The semaphore is another process's, and 1.
abbrev system_in_use : System
system_in_use = record system { semaphore_at = λ name. some 3 }

found-queue : {q : Queue} → some queue ≡ some q → queue ≡ q
found-queue e = cc

found-IsWell : (q : Queue) → some queue ≡ some q → IsWell world (reset (some 327696) q)
unfolding reset
found-IsWell q e = subst (λ r. IsWell world (reset (some 327696) r)) (found-queue e) queue-IsWell

listener_main-Serves_example :
    Serves system_in_use json 2 state (listener_main system_in_use json 2 state)
listener_main-Serves_example =
    listener_main-Serves system_in_use json 1 state 3 0 refl refl (λ fd q e f. found-IsWell q f)
      (omega arith)
