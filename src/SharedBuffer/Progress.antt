-- ===== src/SharedBuffer/Progress.antt =====
-- The producer and the consumer of semaphore_test.c never block one another for good.
use wate_rmq.Common.{ℕ, zero, suc, ◌+◌, ◌*◌, ◌-◌, ◌≡◌, ◌<◌, ◌⊎◌, inl, inr, refl, arith, dec_lt}
use wate_rmq.SharedBuffer.{
  Producer, opening, reserve, write, advance, publish, closed, Consumer, entering, await, read,
  go_on, release, left, State, Step, Reach, rounds, set_in, wait_empty, put_item, move_in,
  post_full, stop_producing, set_out, wait_full, get_item, move_out, post_empty, stop_consuming,
  next,
}
use wate_rmq.SharedBuffer.Inv.{Inv, up_to}
use wate_rmq.SharedBuffer.Safety.{Reach-Inv, in_order}

-- The steps that a process has before it, when it stands at `k` of ten rounds.
abbrev producer_left : Producer → ℕ
producer_left opening = 42
producer_left (reserve k) = 4 * (rounds - k) + 1
producer_left (write k) = 4 * (rounds - k)
producer_left (advance k) = 4 * (rounds - k) - 1
producer_left (publish k) = 4 * (rounds - k) - 2
producer_left closed = 0

abbrev consumer_left : Consumer → ℕ
consumer_left entering = 42
consumer_left (await k) = 4 * (rounds - k) + 1
consumer_left (read k) = 4 * (rounds - k)
consumer_left (go_on k) = 4 * (rounds - k) - 1
consumer_left (release k) = 4 * (rounds - k) - 2
consumer_left left = 0

pub steps_left : State → ℕ
steps_left s = producer_left s.producer + consumer_left s.consumer

-- Every step brings the end nearer, so that no run has more than 84 steps.
pub Step-steps_left :
    {size : ℕ} {s t : State} → 0 < size → Reach size s → Step size s t → steps_left t < steps_left s
unfolding steps_left
Step-steps_left {size} {s} h r st = go st
  where
    inv : Inv size s
    inv = Reach-Inv h r

    go : {t : State} → Step size s t → steps_left t < steps_left s
    go (set_in e) = ground arith
    go (wait_empty e l z) = ground arith
    go (put_item e) = ground (arith, inv.p_range)
    go (move_in e) = ground (arith, inv.p_range)
    go (post_full e) = ground (arith, inv.p_range)
    go (stop_producing e l) = ground arith
    go (set_out e) = ground arith
    go (wait_full e l z) = ground arith
    go (get_item e) = ground (arith, inv.c_range)
    go (move_out e) = ground (arith, inv.c_range)
    go (post_empty e) = ground (arith, inv.c_range)
    go (stop_consuming e l) = ground arith

-- Both loops have ended.
abbrev pub Finished : State → Type 0
Finished s = (s.producer ≡ closed) × (s.consumer ≡ left)

-- A state with a step.
abbrev pub Moves : ℕ → State → Type 0
Moves size s = (t : State) × Step size s t

suc_of_pos : (n : ℕ) → 0 < n → (m : ℕ) × (n ≡ suc m)
suc_of_pos zero h = absurd (omega arith)
suc_of_pos (suc n) h = (n, refl)

module _ {size : ℕ} {s : State} where
  -- The producer moves unless it has ended or waits on `empty` at 0.
  producer-Moves :
      (p : Producer)
      → s.producer ≡ p
      → Moves size s ⊎ (p ≡ closed) ⊎ ((k : ℕ) × (p ≡ reserve k) × (k < rounds) × (s.empty ≡ 0))
  producer-Moves opening e = inl (_, set_in e)
  producer-Moves (reserve k) e = elim (dec_lt k rounds) [
    | no done ↦ inl (_, stop_producing e (omega arith))
    | yes more ↦ elim (dec_lt 0 s.empty) [
      | yes some_left ↦ inl (_, wait_empty e more (suc_of_pos s.empty some_left).1)
      | no blocked ↦ inr (inr (k, refl, more, omega arith))
    ]
  ]
  producer-Moves (write k) e = inl (_, put_item e)
  producer-Moves (advance k) e = inl (_, move_in e)
  producer-Moves (publish k) e = inl (_, post_full e)
  producer-Moves closed e = inr (inl refl)

  consumer-Moves :
      (c : Consumer)
      → s.consumer ≡ c
      → Moves size s ⊎ (c ≡ left) ⊎ ((k : ℕ) × (c ≡ await k) × (k < rounds) × (s.full ≡ 0))
  consumer-Moves entering e = inl (_, set_out e)
  consumer-Moves (await k) e = elim (dec_lt k rounds) [
    | no done ↦ inl (_, stop_consuming e (omega arith))
    | yes more ↦ elim (dec_lt 0 s.full) [
      | yes some_left ↦ inl (_, wait_full e more (suc_of_pos s.full some_left).1)
      | no blocked ↦ inr (inr (k, refl, more, omega arith))
    ]
  ]
  consumer-Moves (read k) e = inl (_, get_item e)
  consumer-Moves (go_on k) e = inl (_, move_out e)
  consumer-Moves (release k) e = inl (_, post_empty e)
  consumer-Moves left e = inr (inl refl)

blocked_both :
    {size : ℕ} {s : State}
    → 0 < size
    → Inv size s
    → (s.producer ≡ closed) ⊎ ((k : ℕ) × (s.producer ≡ reserve k) × (k < rounds) × (s.empty ≡ 0))
    → (s.consumer ≡ left) ⊎ ((k : ℕ) × (s.consumer ≡ await k) × (k < rounds) × (s.full ≡ 0))
    → Finished s
blocked_both h i (inl p) (inl c) = (p, c)
blocked_both h i (inl p) (inr (j, c, lt, z)) = absurd (ground (arith, i.fulls))
blocked_both h i (inr (k, p, lt, z)) (inl c) = absurd (ground (arith, i.empties))
blocked_both h i (inr (k, p, lt, z)) (inr (j, c, lt', z')) =
    absurd (ground (arith, i.fulls, i.empties))

-- In every reachable state some process can move, unless both have ended.
pub no_deadlock : {size : ℕ} {s : State} → 0 < size → Reach size s → Moves size s ⊎ Finished s
no_deadlock {size} {s} h r = elim (producer-Moves {size = size} {s = s} s.producer refl) [
  | inl moves ↦ inl moves
  | inr p ↦ elim (consumer-Moves {size = size} {s = s} s.consumer refl) [
    | inl moves ↦ inl moves
    | inr c ↦ inr (blocked_both h (Reach-Inv h r) p c)
  ]
]

-- `t` is reached from `s`.
pub data Leads (size : ℕ) (s : State) : State → Type 0 where
  here : Leads size s s
  onward : {t u : State} → Leads size s t → Step size t u → Leads size s u

Leads-first : {size : ℕ} {s t u : State} → Step size s t → Leads size t u → Leads size s u
Leads-first st here = onward here st
Leads-first st (onward l last) = onward (Leads-first st l) last

-- From `s` the two loops come to their ends, and the consumer has then read 1, 2, …, 10.
pub record Completes (size : ℕ) (s : State) : Type 0 where
  pub end : State
  pub leads : Leads size s end
  pub finished : Finished end
  pub got_all : end.got ≡ up_to rounds

complete :
    {size : ℕ} (fuel : ℕ) {s : State}
    → 0 < size
    → Reach size s
    → steps_left s < fuel
    → Completes size s
complete zero h r lt = absurd (omega arith)
complete {size} (suc fuel) {s} h r lt = elim (no_deadlock h r) [
  | inl (t, st) ↦
      let c = complete fuel h (next r st) (omega (arith, Step-steps_left h r st)) in
      record {
        end = c.end;
        leads = Leads-first st c.leads;
        finished = c.finished;
        got_all = c.got_all;
      }
  | inr done ↦ record { end = s; leads = here; finished = done; got_all = (in_order h r).2 done.1 }
]

-- From every reachable state the run can be completed, with all ten items read in order.
pub completes : {size : ℕ} {s : State} → 0 < size → Reach size s → Completes size s
completes {s} h r = complete (suc (steps_left s)) h r (omega arith)
