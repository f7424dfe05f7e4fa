-- ===== src/SharedBuffer/Tests.antt =====
-- A run of the two processes over a ring of two slots.
use wate_rmq.Common.{ℕ, ◌≡◌, ◌≢◌, ◌≤◌, ◌<◌, ◌%◌, ◌+◌, ◌⊎◌, refl, none, some, [], ◌∷◌, arith}
use wate_rmq.SharedBuffer.{
  State, init, Reach, rounds, set_in, wait_empty, put_item, move_in, post_full, set_out, wait_full,
  get_item, start, next, left,
}
use wate_rmq.SharedBuffer.Inv.{up_to}
use wate_rmq.SharedBuffer.Safety.{in_order, unread_kept, no_race}
use wate_rmq.SharedBuffer.Progress.{
  steps_left, Step-steps_left, no_deadlock, Moves, Finished, Completes, completes,
}
use wate_rmq.SharedBuffer.Opening.{
  producer_opens, consumer_opens, every_call, no_names, left_by, opens_again, Leads-Reach,
}

-- Two slots, with 7 in every word of the memory.
abbrev opened : State
opened = init 2 7 7 (λ i. 7)

-- A reachable state, with the way to it.
record Seen : Type 0 where
  state : State
  reach : Reach 2 state

-- The producer has published 1, and is about to write 2; the consumer is about to read.
abbrev busy : Seen
busy = record {
  state = _;
  reach =
      next
        (next
          (next
            (next
              (next
                (next
                  (next (next (start 7 7 (λ i. 7)) (set_in refl))
                    (wait_empty refl (omega arith) refl))
                  (put_item refl))
                (move_in refl))
              (post_full refl))
            (set_out refl))
          (wait_full refl (omega arith) refl))
        (wait_empty refl (omega arith) refl);
}

-- One step later the consumer has read 1.
abbrev seen_one : Seen
seen_one = record { state = _; reach = next busy.reach (get_item refl) }

in_order_example :
    (seen_one.state.got ≡ 1 ∷ [])
    × (1 ≤ 10)
    × (seen_one.state.consumer ≡ left → seen_one.state.got ≡ up_to rounds)
in_order_example = in_order (omega arith) seen_one.reach

unread_kept_example :
    (0 ≤ 1) × (1 ≤ 2 + 0) × ((j : ℕ) → 0 ≤ j → j < 1 → busy.state.buffer (j % 2) ≡ j + 1)
unread_kept_example = unread_kept (omega arith) busy.reach

no_race_example : busy.state.in_at ≢ busy.state.out_at
no_race_example = no_race {k = 1} {j = 0} (omega arith) busy.reach refl refl

Step-steps_left_example : steps_left seen_one.state < steps_left busy.state
Step-steps_left_example = Step-steps_left (omega arith) busy.reach (get_item refl)

no_deadlock_example : Moves 2 busy.state ⊎ Finished busy.state
no_deadlock_example = no_deadlock (omega arith) busy.reach

completes_example : Completes 2 busy.state
completes_example = completes (omega arith) busy.reach

-- The end of a run of both programs.
abbrev ended : Completes 2 busy.state
ended = completes (omega arith) busy.reach

opens_again_example :
    (consumer_opens every_call no_names ≡ none)
    × (producer_opens every_call 2 no_names ≡ some (init 2 0 0 (λ i. 0)))
    × (producer_opens every_call 2 (left_by ended.end)
        ≡ some (init 2 ended.end.in_at ended.end.out_at ended.end.buffer))
    × (consumer_opens every_call (left_by ended.end)
        ≡ some (init 2 ended.end.in_at ended.end.out_at ended.end.buffer))
opens_again_example =
    opens_again {s = ended.end} (omega arith) (Leads-Reach busy.reach ended.leads) ended.finished
