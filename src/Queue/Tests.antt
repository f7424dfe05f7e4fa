-- ===== src/Queue/Tests.antt =====
-- Runs of the queue on concrete messages, and its theorems at inputs that meet their hypotheses.
use wate_rmq.Common.{
  ℕ, ◌≡◌, refl, true, false, List, [], ◌∷◌, Option, none, some, pos, arith, ◌==◌, if◌then◌else◌,
  ◌+ℤ◌,
}
use wate_rmq.Memory.{null, at, text, str, World, ok, tabulate}
use wate_rmq.Memory.Frame.{IsSound, printed}
use wate_rmq.Queue.{Queue, max_size, enqueue, dequeue, peek, print_queue, create_consuming_queue}
use wate_rmq.Queue.Rep.{Rep}
use wate_rmq.Queue.Enqueue.{Ends, enqueue-Ends}
use wate_rmq.Queue.Take.{Peeks, dequeue-Ends, peek-Peeks, print_queue-listing}
use wate_rmq.Queue.Fifo.{
  put, take_off, send, receive, run, behave, Drains, run_refines, full_for_life,
}
use wate_rmq.Queue.Create.{Creates, create_consuming_queue-Creates}

abbrev hi : List ℕ
hi = b'h' ∷ b'i' ∷ []

abbrev yo : List ℕ
yo = b'y' ∷ b'o' ∷ []

-- Three strings in memory: "hi" twice, with other bytes behind one of them, and ".".
abbrev sample : World
sample = record {
  next = 3;
  block = λ b.
      if b == 0
      then some (b'h' ∷ b'i' ∷ 0 ∷ [])
      else if b == 1
      then some (b'y' ∷ b'o' ∷ 0 ∷ 7 ∷ 7 ∷ [])
      else if b == 2
      then some (b'.' ∷ 0 ∷ [])
      else none;
  grants = λ n size. true;
  junk = λ n i. 255;
  stdout = [];
  stderr = [];
}

sample-IsSound : IsSound sample
sample-IsSound = record { unused = λ b h. ground arith }

-- One message, "hi", in slot 1: slot 0 has been used.
abbrev waiting : Queue
waiting = record { items = λ i. if i == 1 then at 0 else null; front = pos 0; rear = pos 2 }

waiting-Rep : Rep sample waiting 1 (hi ∷ [])
waiting-Rep = record { front_at = refl; rear_at = refl; fits = omega arith; held = (refl, tt) }

abbrev used_up : Queue
used_up = record { items = λ i. null; front = pos 40559; rear = pos 40560 }

used_up-Rep : Rep sample used_up max_size []
used_up-Rep = record { front_at = refl; rear_at = refl; fits = omega arith; held = tt }

enqueue-Ends_example : Ends sample (enqueue waiting (at 1) sample) 1 (hi ∷ yo ∷ [])
enqueue-Ends_example = enqueue-Ends (at 1) yo sample-IsSound waiting-Rep refl (omega arith)

dequeue-Ends_run : Ends sample (dequeue waiting sample) 2 []
dequeue-Ends_run = dequeue-Ends (hi ∷ []) sample-IsSound waiting-Rep

peek-Peeks_run : Peeks sample (peek waiting sample) (hi ∷ [])
peek-Peeks_run = peek-Peeks (hi ∷ []) waiting-Rep

print_queue-listing_example :
    print_queue waiting sample
    ≡ ok tt (printed sample (text "Current Queue: " ∷ str hi ∷ text " " ∷ text "\n" ∷ []))
print_queue-listing_example = print_queue-listing hi [] sample-IsSound waiting-Rep

run_refines_example :
    Ends sample
      (run (put (at 1) ∷ take_off ∷ []) waiting sample)
      (behave (send yo ∷ receive ∷ []) (record { gone = 1; held = hi ∷ [] })).gone
      (behave (send yo ∷ receive ∷ []) (record { gone = 1; held = hi ∷ [] })).held
run_refines_example =
    run_refines (put (at 1) ∷ take_off ∷ []) (send yo ∷ receive ∷ [])
      {f = record { gone = 1; held = hi ∷ [] }} sample-IsSound (λ n size. refl) waiting-Rep
      (refl, omega arith, tt)

full_for_life_example : Drains sample (run (put (at 1) ∷ take_off ∷ []) used_up sample) max_size []
full_for_life_example =
    full_for_life (put (at 1) ∷ take_off ∷ []) sample-IsSound used_up-Rep
      ((yo, refl, omega arith), tt) refl

create_consuming_queue-Creates_example :
    (true ≡ false
      → create_consuming_queue waiting (at 2) sample ≡ ok none (record sample { next = 4 }))
    × (true ≡ true → Creates sample (create_consuming_queue waiting (at 2) sample) 1)
create_consuming_queue-Creates_example =
    create_consuming_queue-Creates waiting (at 2) sample-IsSound refl

-- The second message is copied byte by byte into the new block, and its neighbours stay behind.
enqueue_copies :
    elim (enqueue waiting (at 1) sample) as (λ _. Option (List ℕ)) [ ok q w ↦ w.block 3 | _ ↦ none ]
    ≡ some (b'y' ∷ b'o' ∷ 0 ∷ [])
unfolding enqueue ◌+ℤ◌ tabulate
enqueue_copies = refl
