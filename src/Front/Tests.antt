-- ===== src/Front/Tests.antt =====
-- Runs of the front end of FrontendCPP/ on a small queue, and the theorems at them.
use wate_rmq.Common.{
  ℕ, zero, suc, ◌≡◌, ◌<◌, inl, inr, refl, arith, List, [], ◌∷◌, Option, none, some, pos, negsuc,
  true, false, ◌==◌,
}
use wate_rmq.Memory.{Ptr, null, at, World, dangling}
use wate_rmq.Process.{Queue, State, System}
use wate_rmq.Machine.{ok, fault, blocked, ◌>>◌}
use wate_rmq.Semaphores.{Semaphore, close, destruct, wait, post}
use wate_rmq.Semaphores.Life.{shut, wait-post, destruct-close}
use wate_rmq.Argv.{codes, same_string}
use wate_rmq.Argv.Fields.{Field}
use wate_rmq.Front.{WateRmq, read_message, cleanup}
use wate_rmq.Front.Decimal.{to_string}
use wate_rmq.Front.Opening.{new_water_rmq}
use wate_rmq.Front.Locked.{Slot, IsApart, IsWell}
use wate_rmq.Front.Reads.{IsOpen, Receives, read_message-Receives}
use wate_rmq.Front.Slots.{read_times, Skips, read_times-Skips}
use wate_rmq.Front.Burst.{Loses, read_times-Loses}
use wate_rmq.Front.Cleanup.{Cleans, cleanup-Cleans}
use wate_rmq.Front.Opens.{Opens, new_water_rmq-Opens}
use wate_rmq.Front.Settings.{key, set_all, setting, set_all-setting}

-- Two strings, "a" and "b".
abbrev two_blocks : ℕ → Option (List ℕ)
two_blocks zero = some (97 ∷ 0 ∷ [])
two_blocks (suc zero) = some (98 ∷ 0 ∷ [])
two_blocks _ = none

abbrev two_slots : ℕ → Ptr
two_slots zero = at 0
two_slots (suc zero) = at 1
two_slots _ = null

abbrev world : World
world = record {
  next = 2;
  block = two_blocks;
  grants = λ n size. true;
  junk = λ b i. 0;
  stdout = [];
  stderr = [];
}

abbrev queue : Queue
queue = record { items = two_slots; front = pos 0; rear = pos 2; count = pos 2 }

-- Semaphore 3 is open, and 1.
abbrev state : State
state = record { world = world; queue = queue; value = λ h. 1; is_open = λ h. h == 3; events = [] }

abbrev semaphore : Semaphore
semaphore = record { sem = some 3; sem_name = codes "w_sem"; is_named = true }

abbrev rabbit : WateRmq
rabbit = record {
  sem = some semaphore;
  ptr_queue = true;
  filename = codes "w";
  command = λ key. none;
  running = false;
}

two_slots-Slot : (i : ℕ) → Slot world (two_slots i)
two_slots-Slot zero = inr (0, 97 ∷ [], refl, refl)
two_slots-Slot (suc zero) = inr (1, 98 ∷ [], refl, refl)
two_slots-Slot (suc (suc i)) = inl refl

two_slots-apart : (i j b : ℕ) → two_slots i ≡ at b → two_slots j ≡ at b → i ≡ j
two_slots-apart zero zero b e f = refl
two_slots-apart zero (suc zero) b e f = cc
two_slots-apart zero (suc (suc j)) b e f = cc
two_slots-apart (suc zero) zero b e f = cc
two_slots-apart (suc zero) (suc zero) b e f = refl
two_slots-apart (suc zero) (suc (suc j)) b e f = cc
two_slots-apart (suc (suc i)) j b e f = cc

slots-IsApart : IsApart world two_slots
slots-IsApart = record { slot = two_slots-Slot; apart = two_slots-apart }

queue-IsWell : IsWell world queue
queue-IsWell = record {
  front = 0;
  count = 2;
  front_at = refl;
  front_lt = omega arith;
  count_at = refl;
  slots = slots-IsApart;
}

abbrev rabbit-IsOpen : IsOpen rabbit state
rabbit-IsOpen = record {
  c = semaphore;
  handle = 3;
  has_semaphore = refl;
  has_handle = refl;
  has_queue = refl;
  usable = refl;
}

read_message-Receives_example : Receives state (read_message rabbit state)
read_message-Receives_example = read_message-Receives rabbit state 0 rabbit-IsOpen refl queue-IsWell

read_times-Skips_example : Skips state (read_times 5 rabbit state)
read_times-Skips_example =
    read_times-Skips 5 rabbit state 0 rabbit-IsOpen refl queue-IsWell (0, refl, refl)

beyond_two : (i : ℕ) → 1 < i → two_slots i ≡ null
beyond_two zero h = absurd (omega arith)
beyond_two (suc zero) h = absurd (omega arith)
beyond_two (suc (suc i)) h = refl

-- Of "a" and "b", "b" is never read.
read_times-Loses_example : Loses state (97 ∷ []) 1 3 (read_times 4 rabbit state)
read_times-Loses_example =
    read_times-Loses 3 1 rabbit state 0 rabbit-IsOpen (97 ∷ []) refl queue-IsWell refl refl
      (omega arith) refl beyond_two

cleanup-Cleans_example : Cleans rabbit state 3 (cleanup rabbit state)
cleanup-Cleans_example = cleanup-Cleans rabbit state rabbit-IsOpen refl slots-IsApart

abbrev system : System
system = record {
  semaphore_at = λ name. none;
  new_semaphore = λ name. some 3;
  shm_open = λ name. some 5;
  ftruncate = λ fd size. true;
  mmap = λ fd size. some queue;
  st_size = λ fd. some 327696;
}

new_water_rmq-Opens_example :
    Opens system (codes "w") state (new_water_rmq system (codes "w") state)
new_water_rmq-Opens_example = new_water_rmq-Opens system (codes "w") state

set_all-setting_example :
    ((g : Field)
      → (set_all (λ f. codes "x") (pos 5672) (pos 0) (pos 0) (pos 0) rabbit).command (codes (key g))
        ≡ some (setting (λ f. codes "x") (pos 5672) (pos 0) (pos 0) (pos 0) g))
    × ((k : List ℕ)
        → ((g : Field) → same_string (codes (key g)) k ≡ false)
        → (set_all (λ f. codes "x") (pos 5672) (pos 0) (pos 0) (pos 0) rabbit).command k ≡ none)
set_all-setting_example = set_all-setting (λ f. codes "x") (pos 5672) (pos 0) (pos 0) (pos 0) rabbit

wait-post_run :
    ((post semaphore >> wait semaphore) state ≡ ok tt state)
    × (state.value 3 ≡ 0 → wait semaphore state ≡ blocked state)
wait-post_run = wait-post semaphore 3 state refl refl

destruct-close_run :
    (true ≡ true → (close semaphore >> destruct semaphore) state ≡ fault dangling (shut 3 state))
    × (true ≡ false → (close semaphore >> destruct semaphore) state ≡ ok tt state)
destruct-close_run = destruct-close semaphore 3 state refl refl

minus_forty_two : to_string (negsuc 41) ≡ codes "-42"
unfolding to_string
minus_forty_two = refl
