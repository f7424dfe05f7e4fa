-- ===== src/Queue/Rep.antt =====
-- What a queue of BackLibWaterRMQ.c stands for: the messages between its two indices.
use wate_rmq.Common.{
  ℕ, zero, suc, ◌+◌, ◌≡◌, ◌≤◌, ◌<◌, refl, List, [], ◌∷◌, ◌++◌, some, ℤ, pos, negsuc, arith, length,
  eqb_ℤ, ◌+ℤ◌, ◌-ℤ◌, ◌==◌, subst, ap₂, ◌∙◌,
}
use wate_rmq.Memory.{Ptr, World, string_at, update, ok}
use native.Mathlib.Nat.{add-zero}
use wate_rmq.Memory.Frame.{IsSound, Extends, string_at-Extends}
use wate_rmq.Queue.{Queue, max_size, is_empty, is_full, item, set_item}

-- From slot `i` on the array points to the strings `xs`.
abbrev pub Holds : World → (ℕ → Ptr) → ℕ → List (List ℕ) → Type 0
Holds w items i [] = Unit {0}
Holds w items i (x ∷ xs) = (string_at w (items i) ≡ some x) × Holds w items (suc i) xs

-- `n - 1`, as an `int`.
abbrev pub before : ℕ → ℤ
before zero = negsuc 0
before (suc n) = pos n

-- `q` has given away `gone` messages and holds `xs`, oldest first.
pub record Rep (w : World) (q : Queue) (gone : ℕ) (xs : List (List ℕ)) : Type 0 where
  pub front_at : q.front ≡ before gone
  pub rear_at : q.rear ≡ pos (gone + length xs)
  pub fits : gone + length xs ≤ max_size
  pub held : Holds w q.items gone xs

pub Holds-Extends :
    {w v : World} (items : ℕ → Ptr) (i : ℕ) (xs : List (List ℕ))
    → IsSound w
    → Extends w v
    → Holds w items i xs
    → Holds v items i xs
Holds-Extends items i [] s e h = tt
Holds-Extends items i (x ∷ xs) s e (h, hs) =
    (string_at-Extends (items i) s e h, Holds-Extends items (suc i) xs s e hs)

-- A write past the strings keeps them, and puts a string behind them if it is one.
pub Holds-update :
    (w : World) (items : ℕ → Ptr) (i j : ℕ) (xs : List (List ℕ)) (p : Ptr)
    → i + length xs ≤ j
    → Holds w items i xs
    → Holds w (update items j p) i xs
Holds-update w items i j [] p le h = tt
Holds-update w items i j (x ∷ xs) p le (h, hs) =
    (ground arith, Holds-update w items (suc i) j xs p (omega arith) hs)

pub Holds-append :
    (w : World) (items : ℕ → Ptr) (i : ℕ) (xs : List (List ℕ)) (y : List ℕ)
    → Holds w items i xs
    → string_at w (items (i + length xs)) ≡ some y
    → Holds w items i (xs ++ y ∷ [])
Holds-append w items i [] y h e = (subst (λ k. string_at w (items k) ≡ some y) (add-zero i) e, tt)
Holds-append w items i (x ∷ xs) y (h, hs) e = (
  h,
  Holds-append w items (suc i) xs y hs
      (subst (λ k. string_at w (items k) ≡ some y) (omega arith) e),
)

pub before_next : (n : ℕ) → before n +ℤ pos 1 ≡ pos n
unfolding ◌+ℤ◌
before_next zero = refl
before_next (suc n) = ground arith

empty_test : (n k : ℕ) → eqb_ℤ (before n) (pos (n + k) -ℤ pos 1) ≡ (k == 0)
unfolding ◌-ℤ◌
empty_test zero k = ground arith
empty_test (suc n) k = ground arith

module _ {w : World} {q : Queue} {gone : ℕ} {xs : List (List ℕ)} (r : Rep w q gone xs) where
  pub front_next : q.front +ℤ pos 1 ≡ pos gone
  front_next = rw r.front_at (before_next gone)

  -- The test of `isEmpty` is right.
  pub is_empty-Rep : is_empty q ≡ (length xs == 0)
  unfolding is_empty
  is_empty-Rep =
      ap₂ (λ f e. eqb_ℤ f (e -ℤ pos 1)) r.front_at r.rear_at ∙ empty_test gone (length xs)

  -- The test of `isFull` holds when every slot has been used, whatever was taken since.
  pub is_full-Rep : is_full q ≡ (gone + length xs == max_size)
  unfolding is_full
  is_full-Rep = rw r.rear_at (ground arith)

  pub rear_next : q.rear +ℤ pos 1 ≡ pos (suc (gone + length xs))
  unfolding ◌+ℤ◌
  rear_next = rw r.rear_at (ground arith)

  pub item_at : (v : World) (i : ℕ) → i < gone + length xs → item q (pos i) v ≡ ok (q.items i) v
  unfolding item
  item_at v i h = ground (arith, r.fits)

  pub set_item_at :
      (v : World) (p : Ptr)
      → gone + length xs < max_size
      → set_item q q.rear p v ≡ ok (record q { items = update q.items (gone + length xs) p }) v
  unfolding set_item
  set_item_at v p h = ground (arith, r.rear_at)

pub Rep-Extends :
    {w v : World} {q : Queue} {gone : ℕ} {xs : List (List ℕ)}
    → IsSound w
    → Extends w v
    → Rep w q gone xs
    → Rep v q gone xs
Rep-Extends {q} {gone} {xs} s e r = record {
  front_at = r.front_at;
  rear_at = r.rear_at;
  fits = r.fits;
  held = Holds-Extends q.items gone xs s e r.held;
}
