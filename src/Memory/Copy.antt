-- ===== src/Memory/Copy.antt =====
-- A string copied into a block that `malloc` has just given.
use wate_rmq.Common.{
  ℕ, suc, ◌+◌, ◌≡◌, ◌≤◌, refl, ◌∙◌, ap, subst, List, [], ◌∷◌, ◌++◌, some, arith, length, take, drop,
  length-append, append_assoc, append-nil, take-length_append, drop-eq-nil,
}
use wate_rmq.Memory.{Ptr, at, World, ok, granted, update, tabulate, memcpy, string_at}
use wate_rmq.Memory.Text.{NoNul, string_at-PointsTo, until_nul-append, length-tabulate}
use wate_rmq.Memory.Frame.{IsSound, Extends, live-lt-next, memcpy-ok}

-- The world in which the block that `malloc(n)` gives has been filled with `bytes`.
abbrev pub filled : ℕ → List ℕ → World → World
filled n bytes w = record (granted n w) { block = update (granted n w).block w.next (some bytes) }

-- `v` is `w` with one block more, which holds the string `s`.
pub record Copied (w v : World) (s : List ℕ) : Type 0 where
  pub sound : IsSound v
  pub extends : Extends w v
  pub copy : string_at v (at w.next) ≡ some s
  pub next : v.next ≡ suc w.next

pub filled-Copied :
    (n : ℕ) (s : List ℕ) {w : World} → IsSound w → NoNul s → Copied w (filled n (s ++ 0 ∷ []) w) s
filled-Copied n s {w} q clean = record {
  sound = record { unused = λ b h. ground (arith, q.unused b) };
  extends = record { later = omega arith; same = λ b h. ground arith; granting = refl };
  copy = ground (arith, until_nul-append s [] clean);
  next = refl;
}

pub take-string : (s rest : List ℕ) → take (length s + 1) (s ++ 0 ∷ rest) ≡ s ++ 0 ∷ []
take-string s rest =
    subst (λ k. take k (s ++ 0 ∷ rest) ≡ s ++ 0 ∷ []) (length-append s (0 ∷ []))
      (subst (λ l. take (length (s ++ 0 ∷ [])) l ≡ s ++ 0 ∷ []) (append_assoc s (0 ∷ []) rest)
        (take-length_append (s ++ 0 ∷ []) rest))

-- A copy of the first `n` bytes at `p` into the block that `malloc(n)` has just given.
pub memcpy_fresh :
    {w : World} (a n : ℕ) {bytes : List ℕ}
    → IsSound w
    → w.block a ≡ some bytes
    → n ≤ length bytes
    → memcpy (at w.next) (at a) n (granted n w) ≡ ok tt (filled n (take n bytes) w)
memcpy_fresh {w} a n {bytes} q live le =
    memcpy-ok (granted n w) w.next a n {bytes = bytes} {old = raw}
      (ground (arith, live-lt-next a q live)) (ground arith) le
      (omega (arith, length-tabulate (w.junk w.next) n))
    ∙ ap (λ l. ok tt (filled n l w)) nothing_left
  where
    raw : List ℕ
    raw = tabulate (w.junk w.next) n

    nothing_left : take n bytes ++ drop n raw ≡ take n bytes
    nothing_left =
        rw (drop-eq-nil n raw (omega (arith, length-tabulate (w.junk w.next) n)), append-nil)

-- `memcpy(q, p, strlen(p) + 1)` into that block copies the string and its NUL.
pub memcpy_string :
    {w : World} (p : Ptr) (s : List ℕ)
    → IsSound w
    → string_at w p ≡ some s
    → memcpy (at w.next) p (length s + 1) (granted (length s + 1) w)
      ≡ ok tt (filled (length s + 1) (s ++ 0 ∷ []) w)
memcpy_string {w} p s q e =
    rw address
      (memcpy_fresh block n q live fits ∙ ap (λ l. ok tt (filled n l w)) (take-string s rest))
  where
    open (string_at-PointsTo {w = w} p e) use {block, rest, address, live}

    n : ℕ
    n = length s + 1

    fits : n ≤ length (s ++ 0 ∷ rest)
    fits = omega (arith, length-append s (0 ∷ rest))
