-- ===== src/SharedBuffer/Inv.antt =====
-- The invariant of the producer and the consumer of semaphore_test.c, kept by every step.
use wate_rmq.Common.{
  ℕ, zero, suc, ◌+◌, ◌-◌, ◌%◌, ◌≡◌, ◌≢◌, ◌≤◌, ◌<◌, refl, sym, ap, subst, ◌∙◌, List, [], ◌∷◌, ◌++◌,
  arith, dec_lt,
}
use native.Mathlib.Nat.{mod-lt, mod-eq_of_lt, mod-add-mod, mod-eq-sub-mod, zero-mod}
use native.Mathlib.Numerals.{add-one}
use wate_rmq.SharedBuffer.{
  Producer, opening, reserve, write, advance, publish, closed, Consumer, entering, await, read,
  go_on, release, left, State, init, Step, rounds, set_in, wait_empty, put_item, move_in, post_full,
  stop_producing, set_out, wait_full, get_item, move_out, post_empty, stop_consuming,
}

-- What the producer has done: waits on `empty`, items written, moves of `in`, posts of `full`.
abbrev pub reserved : Producer → ℕ
reserved opening = 0
reserved (reserve k) = k
reserved (write k) = k + 1
reserved (advance k) = k + 1
reserved (publish k) = k + 1
reserved closed = rounds

abbrev pub written : Producer → ℕ
written opening = 0
written (reserve k) = k
written (write k) = k
written (advance k) = k + 1
written (publish k) = k + 1
written closed = rounds

abbrev pub published : Producer → ℕ
published opening = 0
published (reserve k) = k
published (write k) = k
published (advance k) = k
published (publish k) = k
published closed = rounds

-- What the consumer has done: waits on `full`, items read, posts of `empty`.
abbrev pub awaited : Consumer → ℕ
awaited entering = 0
awaited (await k) = k
awaited (read k) = k + 1
awaited (go_on k) = k + 1
awaited (release k) = k + 1
awaited left = rounds

abbrev pub taken : Consumer → ℕ
taken entering = 0
taken (await k) = k
taken (read k) = k
taken (go_on k) = k + 1
taken (release k) = k + 1
taken left = rounds

abbrev pub released : Consumer → ℕ
released entering = 0
released (await k) = k
released (read k) = k
released (go_on k) = k
released (release k) = k
released left = rounds

-- The index that `in` holds, where the producer uses it; so for `out`.
abbrev pub InAt : ℕ → ℕ → Producer → Type 0
InAt size i opening = Unit {0}
InAt size i (reserve k) = i ≡ k % size
InAt size i (write k) = i ≡ k % size
InAt size i (advance k) = i ≡ k % size
InAt size i (publish k) = i ≡ (k + 1) % size
InAt size i closed = Unit {0}

abbrev pub OutAt : ℕ → ℕ → Consumer → Type 0
OutAt size o entering = Unit {0}
OutAt size o (await k) = o ≡ k % size
OutAt size o (read k) = o ≡ k % size
OutAt size o (go_on k) = o ≡ k % size
OutAt size o (release k) = o ≡ (k + 1) % size
OutAt size o left = Unit {0}

-- A loop variable stays in its range.
abbrev pub BoundedP : Producer → Type 0
BoundedP (reserve k) = k ≤ rounds
BoundedP (write k) = k < rounds
BoundedP (advance k) = k < rounds
BoundedP (publish k) = k < rounds
BoundedP _ = Unit {0}

abbrev pub BoundedC : Consumer → Type 0
BoundedC (await k) = k ≤ rounds
BoundedC (read k) = k < rounds
BoundedC (go_on k) = k < rounds
BoundedC (release k) = k < rounds
BoundedC _ = Unit {0}

-- 1, 2, …, n
abbrev pub up_to : ℕ → List ℕ
up_to zero = []
up_to (suc n) = up_to n ++ suc n ∷ []

pub record Inv (size : ℕ) (s : State) : Type 0 where
  pub empties : s.empty + reserved s.producer ≡ size + released s.consumer
  pub fulls : s.full + awaited s.consumer ≡ published s.producer
  pub in_ok : InAt size s.in_at s.producer
  pub out_ok : OutAt size s.out_at s.consumer
  pub p_range : BoundedP s.producer
  pub c_range : BoundedC s.consumer
  pub kept : (j : ℕ) → taken s.consumer ≤ j → j < written s.producer → s.buffer (j % size) ≡ j + 1
  pub order : s.got ≡ up_to (taken s.consumer)

pub released-le-taken : (c : Consumer) → released c ≤ taken c
released-le-taken entering = omega arith
released-le-taken (await k) = omega arith
released-le-taken c = omega arith

pub taken-le-awaited : (c : Consumer) → taken c ≤ awaited c
taken-le-awaited entering = omega arith
taken-le-awaited (await k) = omega arith
taken-le-awaited c = omega arith

pub published-le-written : (p : Producer) → published p ≤ written p
published-le-written opening = omega arith
published-le-written (reserve k) = omega arith
published-le-written p = omega arith

pub written-le-reserved : (p : Producer) → written p ≤ reserved p
written-le-reserved opening = omega arith
written-le-reserved (reserve k) = omega arith
written-le-reserved p = omega arith

-- Two numbers less than `size` apart do not share a slot.
mod-ne : {size : ℕ} (j d : ℕ) → d + 1 < size → (j + (d + 1)) % size ≢ j % size
mod-ne {size} j d h e = elim (dec_lt (j % size + (d + 1)) size) [
  | yes p ↦ omega (arith, wrapped, mod-lt j {m = size} (omega arith), mod-eq_of_lt p)
  | no p ↦ omega (
    arith,
    wrapped,
    mod-lt j {m = size} (omega arith),
    mod-eq-sub-mod {n = j % size + (d + 1)} {m = size} (omega arith),
    mod-eq_of_lt {n = j % size + (d + 1) - size} {m = size}
        (omega (arith, mod-lt j {m = size} (omega arith))),
  )
]
  where
    wrapped : (j % size + (d + 1)) % size ≡ j % size
    wrapped = mod-add-mod j size (d + 1) ∙ e

-- So too for two items of the same ring.
pub slot-ne : (size j k : ℕ) → j < k → k < j + size → j % size ≢ k % size
slot-ne size j k h l e =
    mod-ne {size = size} j (k - j - 1) (omega arith)
      (subst (λ m. m % size ≡ j % size) {x = k} (omega arith) (sym e))

pub init-Inv : (size i o : ℕ) (b : ℕ → ℕ) → Inv size (init size i o b)
init-Inv size i o b = record {
  empties = omega arith;
  fulls = omega arith;
  in_ok = tt;
  out_ok = tt;
  p_range = tt;
  c_range = tt;
  kept = λ j h k. absurd (omega arith);
  order = refl;
}

module _ {size : ℕ} {s : State} (pos_size : 0 < size) (inv : Inv size s) where
  open inv use {empties, fulls, in_ok, out_ok, p_range, c_range, kept, order}

  -- While the producer is about to write item `k`, no waiting item is a whole ring behind it.
  in_ring : (k j : ℕ) → s.producer ≡ write k → taken s.consumer ≤ j → k < j + size
  in_ring k j e h = ground (arith, released-le-taken s.consumer)

  pub Step-Inv : {t : State} → Step size s t → Inv size t
  Step-Inv (set_in e) = ground (arith, zero-mod size)
  Step-Inv (wait_empty e h z) = ground arith
  Step-Inv (put_item {k} e) = record {
    empties = ground arith;
    fulls = ground arith;
    in_ok = ground arith;
    out_ok = out_ok;
    p_range = ground arith;
    c_range = c_range;
    kept = λ j h l. elim (dec_lt j k) [
      | yes older ↦
          ground (
            arith,
            kept j h,
            slot-ne size j k older (in_ring k j e h),
            released-le-taken s.consumer,
          )
      | no newest ↦ ground (arith, ap (λ m. m % size) {x = j} {y = k} (omega arith))
    ];
    order = order;
  }
  Step-Inv (move_in {k} e) = ground (arith, mod-add-mod k size 1)
  Step-Inv (post_full e) = ground arith
  Step-Inv (stop_producing e h) = ground arith
  Step-Inv (set_out e) = ground (arith, zero-mod size)
  Step-Inv (wait_full e h z) = ground arith
  Step-Inv (get_item {k} e) = record {
    empties = ground arith;
    fulls = ground arith;
    in_ok = in_ok;
    out_ok = ground arith;
    p_range = p_range;
    c_range = ground arith;
    kept = λ j h l. kept j (ground arith) l;
    order = ground (arith, kept k, published-le-written s.producer, add-one k);
  }
  Step-Inv (move_out {k} e) = ground (arith, mod-add-mod k size 1)
  Step-Inv (post_empty e) = ground arith
  Step-Inv (stop_consuming e h) = ground arith
