-- ===== src/SharedBuffer/Safety.antt =====
-- What holds in every state that the producer and the consumer of semaphore_test.c can reach.
use wate_rmq.Common.{ℕ, ◌+◌, ◌%◌, ◌≡◌, ◌≢◌, ◌≤◌, ◌<◌, ap, ◌∙◌, arith}
use wate_rmq.SharedBuffer.{
  write, Consumer, left, read, entering, await, State, Reach, rounds, start, next,
}
use wate_rmq.SharedBuffer.Inv.{
  Inv, BoundedC, init-Inv, Step-Inv, up_to, taken, written, released-le-taken, published-le-written,
  slot-ne, taken-le-awaited, written-le-reserved,
}

pub Reach-Inv : {size : ℕ} {s : State} → 0 < size → Reach size s → Inv size s
Reach-Inv {size} h (start i o b) = init-Inv size i o b
Reach-Inv h (next r st) = Step-Inv h (Reach-Inv h r) st

taken_bounded : (c : Consumer) → BoundedC c → taken c ≤ rounds
taken_bounded entering h = omega arith
taken_bounded (await k) h = omega arith
taken_bounded c h = omega arith

-- Under every interleaving the consumer has read 1, 2, … in order, each once, none of them lost or
-- made up, and all ten of them when its loop has ended.
pub in_order :
    {size : ℕ} {s : State}
    → 0 < size
    → Reach size s
    → (s.got ≡ up_to (taken s.consumer))
      × (taken s.consumer ≤ rounds)
      × (s.consumer ≡ left → s.got ≡ up_to rounds)
in_order {size} {s} h r =
    (inv.order, taken_bounded s.consumer inv.c_range, λ e. inv.order ∙ ap (λ c. up_to (taken c)) e)
  where
    inv : Inv size s
    inv = Reach-Inv h r

-- The items written and not yet read are at most `size`, and each still stands in its slot.
pub unread_kept :
    {size : ℕ} {s : State}
    → 0 < size
    → Reach size s
    → (taken s.consumer ≤ written s.producer)
      × (written s.producer ≤ size + taken s.consumer)
      × ((j : ℕ) → taken s.consumer ≤ j → j < written s.producer → s.buffer (j % size) ≡ j + 1)
unread_kept {size} {s} h r = (
  omega (arith, inv.fulls, taken-le-awaited s.consumer, published-le-written s.producer),
  omega (arith, inv.empties, written-le-reserved s.producer, released-le-taken s.consumer),
  inv.kept,
)
  where
    inv : Inv size s
    inv = Reach-Inv h r

-- The two processes are never at the same slot at once: no write races with a read.
pub no_race :
    {size k j : ℕ} {s : State}
    → 0 < size
    → Reach size s
    → s.producer ≡ write k
    → s.consumer ≡ read j
    → s.in_at ≢ s.out_at
no_race {size} {k} {j} {s} h r p c =
    ground (arith, inv.in_ok, inv.out_ok, inv.empties, inv.fulls, slot-ne size j k)
  where
    inv : Inv size s
    inv = Reach-Inv h r
