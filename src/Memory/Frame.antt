-- ===== src/Memory/Frame.antt =====
-- What an operation on memory leaves alone, and what the calls of <string.h> do on live blocks.
use wate_rmq.Common.{
  ℕ, ◌≡◌, ◌≤◌, ◌<◌, refl, ◌∙◌, ap, inl, inr, Option-cases, dec_lt, true, false, List, ◌++◌, none,
  some, arith, length, take, drop, replicate, length-take, length-replicate, append_assoc,
}
use wate_rmq.Memory.{
  Ptr, null, at, Piece, World, ok, fault, out_of_bounds, granted, denied, update, malloc, store,
  memset, memcpy, string_at, read_string, strlen,
}

-- No block beyond the last call of `malloc` is live.
pub record IsSound (w : World) : Type 0 where
  pub unused : (b : ℕ) → w.next ≤ b → w.block b ≡ none

-- `v` keeps the blocks of `w`, and may have more.
pub record Extends (w v : World) : Type 0 where
  pub later : w.next ≤ v.next
  pub same : (b : ℕ) → b < w.next → v.block b ≡ w.block b
  pub granting : v.grants ≡ w.grants

pub Extends-refl : (w : World) → Extends w w
Extends-refl w = record { later = omega arith; same = λ b h. refl; granting = refl }

pub Extends-trans : {u v w : World} → Extends u v → Extends v w → Extends u w
Extends-trans e f = record {
  later = omega (arith, e.later, f.later);
  same = λ b h. f.same b (omega (arith, e.later)) ∙ e.same b h;
  granting = f.granting ∙ e.granting;
}

pub live-lt-next :
    {w : World} {bytes : List ℕ} (b : ℕ) → IsSound w → w.block b ≡ some bytes → b < w.next
live-lt-next {w} b s e = elim (dec_lt b w.next) [ yes h ↦ h | no h ↦ cc (s.unused b (omega arith)) ]

pub string_at-Extends :
    {w v : World} (p : Ptr) {s : List ℕ}
    → IsSound w
    → Extends w v
    → string_at w p ≡ some s
    → string_at v p ≡ some s
string_at-Extends null q e h = cc
string_at-Extends {w} (at b) q e h = elim (Option-cases (w.block b)) [
  | inl dead ↦ ground arith
  | inr (bytes, live) ↦ ground (arith, e.same b (live-lt-next b q live))
]

pub granted-IsSound : {w : World} (n : ℕ) → IsSound w → IsSound (granted n w)
granted-IsSound n s = record { unused = λ b h. ground (arith, s.unused b) }

pub denied-IsSound : {w : World} → IsSound w → IsSound (denied w)
denied-IsSound s = record { unused = λ b h. s.unused b (omega arith) }

pub granted-Extends : (w : World) (n : ℕ) → Extends w (granted n w)
granted-Extends w n = record { later = omega arith; same = λ b h. ground arith; granting = refl }

pub denied-Extends : (w : World) → Extends w (denied w)
denied-Extends w = record { later = omega arith; same = λ b h. refl; granting = refl }

pub malloc-granted :
    (n : ℕ) (w : World) → w.grants w.next n ≡ true → malloc n w ≡ ok (at w.next) (granted n w)
unfolding malloc
malloc-granted n w h = rw h

pub malloc-denied :
    (n : ℕ) (w : World) → w.grants w.next n ≡ false → malloc n w ≡ ok null (denied w)
unfolding malloc
malloc-denied n w h = rw h

pub store-ok :
    (w : World) (b : ℕ) (new : List ℕ) {old : List ℕ}
    → w.block b ≡ some old
    → length new ≤ length old
    → store (at b) new w
      ≡ ok tt (record w { block = update w.block b (some (new ++ drop (length new) old)) })
unfolding store
store-ok w b new e h = ground arith

pub memset-ok :
    (w : World) (b c n : ℕ) {old : List ℕ}
    → w.block b ≡ some old
    → n ≤ length old
    → memset (at b) c n w
      ≡ ok tt (record w { block = update w.block b (some (replicate n c ++ drop n old)) })
unfolding memset
memset-ok w b c n e h = ground (arith, length-replicate n c)

pub memcpy-ok :
    (w : World) (b a n : ℕ) {bytes old : List ℕ}
    → w.block a ≡ some bytes
    → w.block b ≡ some old
    → n ≤ length bytes
    → n ≤ length old
    → memcpy (at b) (at a) n w
      ≡ ok tt (record w { block = update w.block b (some (take n bytes ++ drop n old)) })
unfolding memcpy
memcpy-ok w b a n {bytes} e f h k = ground (arith, length-take n bytes)

pub memcpy_long :
    (w : World) (b a n : ℕ) {bytes old : List ℕ}
    → w.block a ≡ some bytes
    → w.block b ≡ some old
    → n ≤ length bytes
    → length old < n
    → memcpy (at b) (at a) n w ≡ fault out_of_bounds
unfolding memcpy
memcpy_long w b a n {bytes} e f h k = ground (arith, length-take n bytes)

pub read_string-ok :
    (w : World) (p : Ptr) {s : List ℕ} → string_at w p ≡ some s → read_string p w ≡ ok s w
unfolding read_string
read_string-ok w null h = cc
read_string-ok w (at b) h = ground arith

pub strlen-ok :
    (w : World) (p : Ptr) {s : List ℕ} → string_at w p ≡ some s → strlen p w ≡ ok (length s) w
unfolding strlen
strlen-ok w null h = cc
strlen-ok w (at b) h = ground arith

-- A world after more has been printed.
abbrev pub printed : World → List Piece → World
printed w ps = record w { stdout = w.stdout ++ ps }

pub printed-IsSound : {w : World} (ps : List Piece) → IsSound w → IsSound (printed w ps)
printed-IsSound ps s = record { unused = s.unused }

pub printed-Extends : (w : World) (ps : List Piece) → Extends w (printed w ps)
printed-Extends w ps = record { later = omega arith; same = λ b h. refl; granting = refl }

pub printed-printed :
    (w : World) (ps qs : List Piece) → printed (printed w ps) qs ≡ printed w (ps ++ qs)
printed-printed w ps qs = ap (λ out. record w { stdout = out }) (append_assoc w.stdout ps qs)
