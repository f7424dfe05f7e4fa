-- ===== src/Config/Strings.antt =====
-- The strings of the configuration structs: copies in fresh blocks of their own.
use wate_rmq.Common.{
  ℕ, ◌+◌, ◌≡◌, ◌≤◌, ◌<◌, refl, sym, subst, ◌∙◌, ap, true, false, List, [], ◌∷◌, ◌++◌, some, arith,
  length, take, drop, replicate, length-append, length-replicate, append-nil, drop-eq-nil,
}
use wate_rmq.Memory.{
  Ptr, null, at, World, ok, granted, denied, update, tabulate, string_at, memset, memcpy,
}
use wate_rmq.Memory.Text.{NoNul, until_nul-append, string_at-PointsTo, length-tabulate}
use wate_rmq.Memory.Frame.{
  IsSound, Extends, granted-Extends, malloc-granted, malloc-denied, string_at-Extends, strlen-ok,
  memset-ok, memcpy-ok, live-lt-next,
}
use wate_rmq.Memory.Copy.{filled}
use wate_rmq.Config.{new_string}

-- `p` is a block, numbered from `lo` to below `hi`, that holds `s` and its NUL and nothing else.
pub record OwnBlock (v : World) (lo hi : ℕ) (p : Ptr) (s : List ℕ) : Type 0 where
  pub number : ℕ
  pub address : p ≡ at number
  pub low : lo ≤ number
  pub high : number < hi
  pub live : v.block number ≡ some (s ++ 0 ∷ [])
  pub clean : NoNul s

-- Each pointer has a block of its own for its string, the newest first.
abbrev pub Owned : World → ℕ → ℕ → List (Ptr × List ℕ) → Type 0
Owned v lo hi [] = Unit {0}
Owned v lo hi ((p, s) ∷ older) = (o : OwnBlock v lo hi p s) × Owned v lo o.number older

-- The blocks are new since `w`.
pub record Owns (w v : World) (l : List (Ptr × List ℕ)) : Type 0 where
  pub owned : Owned v w.next v.next l

pub Owned-Extends :
    {u v : World} (lo hi : ℕ) (l : List (Ptr × List ℕ))
    → Extends u v
    → hi ≤ u.next
    → Owned u lo hi l
    → Owned v lo hi l
Owned-Extends lo hi [] e h o = tt
Owned-Extends lo hi ((p, s) ∷ older) e h (o, more) = (
  record {
    number = o.number;
    address = o.address;
    low = o.low;
    high = o.high;
    live = e.same o.number (omega (arith, o.high)) ∙ o.live;
    clean = o.clean;
  },
  Owned-Extends lo o.number older e (omega (arith, o.high)) more,
)

pub OwnBlock-string_at :
    {v : World} {lo hi : ℕ} {p : Ptr} {s : List ℕ} → OwnBlock v lo hi p s → string_at v p ≡ some s
OwnBlock-string_at {v} {s = s} o =
    subst (λ q. string_at v q ≡ some s) (sym o.address)
      (ground (arith, o.live, until_nul-append s [] o.clean))

-- `memset(q, 0, n)` on the block that `malloc(n)` has just given.
memset_fresh :
    (n : ℕ) (w : World) → memset (at w.next) 0 n (granted n w) ≡ ok tt (filled n (replicate n 0) w)
memset_fresh n w =
    memset-ok (granted n w) w.next 0 n {old = tabulate (w.junk w.next) n} (ground arith)
      (omega (arith, length-tabulate (w.junk w.next) n))
    ∙ ap (λ l. ok tt (filled n l w))
        (rw
          (drop-eq-nil n (tabulate (w.junk w.next) n)
            (omega (arith, length-tabulate (w.junk w.next) n)))
          (append-nil (replicate n 0)))

-- The string without its NUL, over as many zeros and one more, is the string with its NUL.
over_zeros :
    (s rest : List ℕ)
    → take (length s) (s ++ 0 ∷ rest) ++ drop (length s) (replicate (length s + 1) 0) ≡ s ++ 0 ∷ []
over_zeros [] rest = refl
over_zeros (c ∷ s) rest = ground (arith, over_zeros s rest)

-- `v` is `w` with one block more, which holds `s` and its NUL.
pub record CopyMade (w : World) (src : Ptr) (s : List ℕ) : Type 0 where
  pub world : World
  pub result : new_string src w ≡ ok (at w.next) world
  pub sound : IsSound world
  pub extends : Extends w world
  pub live : world.block w.next ≡ some (s ++ 0 ∷ [])
  pub clean : NoNul s
  pub grown : w.next < world.next

module _ {w : World} (src : Ptr) (s : List ℕ) (sound : IsSound w)
    (points : string_at w src ≡ some s) where
  abbrev n : ℕ
  n = length s + 1

  open (string_at-PointsTo {w = w} src points) use {block, rest, address, live, clean}

  abbrev zeroed : World
  zeroed = filled n (replicate n 0) w

  abbrev written : World
  written = record zeroed { block = update zeroed.block w.next (some (s ++ 0 ∷ [])) }

  pub new_string-denied : w.grants w.next n ≡ false → new_string src w ≡ ok null (denied w)
  unfolding new_string
  new_string-denied h = rw (strlen-ok w src points, malloc-denied n w h)

  zeroed-Extends : Extends w zeroed
  zeroed-Extends = record { later = omega arith; same = λ b h. ground arith; granting = refl }

  memcpy-written : memcpy (at w.next) src (length s) zeroed ≡ ok tt written
  memcpy-written = rw address (
      memcpy-ok zeroed w.next block (length s) {bytes = s ++ 0 ∷ rest} {old = replicate n 0}
        (zeroed-Extends.same block (live-lt-next block sound live) ∙ live) (ground arith)
        (omega (arith, length-append s (0 ∷ rest))) (omega (arith, length-replicate {A = ℕ} n 0))
      ∙ ap (λ l. ok tt (record zeroed { block = update zeroed.block w.next (some l) }))
          (over_zeros s rest))

  pub new_string-granted : w.grants w.next n ≡ true → CopyMade w src s
  unfolding new_string
  new_string-granted h = record {
    world = written;
    result = rw (
      strlen-ok w src points,
      malloc-granted n w h,
      strlen-ok (granted n w) src (string_at-Extends src sound (granted-Extends w n) points),
      memset_fresh n w,
      strlen-ok zeroed src (string_at-Extends src sound zeroed-Extends points),
      memcpy-written,
    );
    sound = record { unused = λ b k. ground (arith, sound.unused b) };
    extends = record { later = omega arith; same = λ b k. ground arith; granting = refl };
    live = ground arith;
    clean = clean;
    grown = omega arith;
  }
