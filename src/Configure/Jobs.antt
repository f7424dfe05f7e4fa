-- ===== src/Configure/Jobs.antt =====
-- One string after another put over the strings of a struct.
use wate_rmq.Common.{ℕ, ◌≡◌, ◌≤◌, ◌<◌, refl, ◌∙◌, some, List, [], ◌∷◌, ◌++◌, arith, length}
use wate_rmq.Memory.{Ptr, at, World, Run, ok, Cmd, pure, ◌>>◌, string_at}
use wate_rmq.Memory.Text.{string_at-PointsTo}
use wate_rmq.Memory.Frame.{IsSound, Extends, string_at-Extends}
use wate_rmq.Config.Strings.{OwnBlock, Owned}
use wate_rmq.Configure.{overwrite}
use wate_rmq.Configure.Overwrite.{laid, rewritten, NoNul-laid, overwrite-Ends}

-- One copy to make: the string `new` at `from` over the string `old` at `to`.
pub record Job : Type 0 where
  pub to : Ptr
  pub from : Ptr
  pub old : List ℕ
  pub new : List ℕ

-- The new string is at its source since `w`, and is not longer than the old one.
pub record Ready (w : World) (j : Job) : Type 0 where
  pub points : string_at w j.from ≡ some j.new
  pub fits : length j.new ≤ length j.old

abbrev pub AllReady : World → List Job → Type 0
AllReady w [] = Unit {0}
AllReady w (j ∷ js) = Ready w j × AllReady w js

abbrev pub before : List Job → List (Ptr × List ℕ)
before [] = []
before (j ∷ js) = (j.to, j.old) ∷ before js

abbrev pub after : List Job → List (Ptr × List ℕ)
after [] = []
after (j ∷ js) = (j.to, laid j.new j.old) ∷ after js

-- The jobs done, the last of the list first.
abbrev pub overwrite_back : List Job → Cmd (Unit {0})
overwrite_back [] = pure tt
overwrite_back (j ∷ js) = overwrite_back js >> overwrite j.to j.from

-- The run has put the new strings over the old ones, and left alone what is not between `lo` and
-- `hi`.
pub record Writes (w : World) (lo hi : ℕ) (l : List (Ptr × List ℕ)) (r : Run (Unit {0}))
    : Type 0 where
  pub world : World
  pub result : r ≡ ok tt world
  pub owned : Owned world lo hi l
  pub outside_low : (b : ℕ) → b < lo → world.block b ≡ w.block b
  pub outside_high : (b : ℕ) → hi ≤ b → world.block b ≡ w.block b
  pub next : world.next ≡ w.next
  pub grants : world.grants ≡ w.grants

OwnBlock-moved :
    {u v : World} (lo hi : ℕ) {p : Ptr} {s : List ℕ} (o : OwnBlock u lo hi p s)
    → v.block o.number ≡ u.block o.number
    → OwnBlock v lo hi p s
OwnBlock-moved lo hi o e = record {
  number = o.number;
  address = o.address;
  low = o.low;
  high = o.high;
  live = e ∙ o.live;
  clean = o.clean;
}

Owned-rewritten :
    (v : World) (lo hi b : ℕ) (bytes : List ℕ) (l : List (Ptr × List ℕ))
    → hi ≤ b
    → Owned v lo hi l
    → Owned (rewritten v b bytes) lo hi l
unfolding OwnBlock-moved
Owned-rewritten v lo hi b bytes [] h o = tt
Owned-rewritten v lo hi b bytes ((p, s) ∷ l) h (o, more) = (
  OwnBlock-moved lo hi o (ground (arith, o.high)),
  Owned-rewritten v lo o.number b bytes l (omega (arith, o.high)) more,
)

-- One copy more.
Writes-more :
    {w0 w : World} (lo hi : ℕ) (j : Job) (l : List (Ptr × List ℕ)) (m : Cmd (Unit {0}))
    → IsSound w0
    → Extends w0 w
    → lo ≡ w0.next
    → Ready w0 j
    → (o : OwnBlock w lo hi j.to j.old) → Writes w lo o.number l (m w)
    → Writes w lo hi ((j.to, laid j.new j.old) ∷ l) ((m >> overwrite j.to j.from) w)
Writes-more {w0} {w} lo hi j l m s x e r o rest = record {
  world = rewritten rest.world o.number bytes;
  result = rw (rest.result, o.address) (copied r.fits);
  owned = (
    record {
      number = o.number;
      address = o.address;
      low = o.low;
      high = o.high;
      live = ground arith;
      clean =
          NoNul-laid j.new j.old (string_at-PointsTo {w = w0} j.from {s = j.new} r.points).clean
            o.clean;
    },
    Owned-rewritten rest.world lo o.number o.number bytes l (omega arith) rest.owned,
  );
  outside_low = λ b h. ground (arith, o.low, rest.outside_low b h);
  outside_high = λ b h. ground (arith, o.high, rest.outside_high b (omega (arith, o.high)));
  next = rest.next;
  grants = rest.grants;
}
  where
    bytes : List ℕ
    bytes = laid j.new j.old ++ 0 ∷ []

    later : Extends w0 rest.world
    later = record {
      later = omega (arith, x.later, rest.next);
      same = λ b h. rest.outside_low b (omega (arith, e)) ∙ x.same b h;
      granting = rest.grants ∙ x.granting;
    }

    copied :
        length j.new ≤ length j.old
        → overwrite (at o.number) j.from rest.world ≡ ok tt (rewritten rest.world o.number bytes)
    copied =
        (overwrite-Ends rest.world o.number j.from j.old j.new
          (rest.outside_high o.number (omega arith) ∙ o.live)
          (string_at-Extends j.from s later r.points)).0

pub overwrite_back-Writes :
    {w0 w : World} (hi : ℕ) (js : List Job)
    → IsSound w0
    → Extends w0 w
    → AllReady w0 js
    → Owned w w0.next hi (before js)
    → Writes w w0.next hi (after js) (overwrite_back js w)
overwrite_back-Writes {w = w} hi [] s x r o = record {
  world = w;
  result = refl;
  owned = tt;
  outside_low = λ b h. refl;
  outside_high = λ b h. refl;
  next = refl;
  grants = refl;
}
overwrite_back-Writes {w0} {w} hi (j ∷ js) s x (r, rs) (o, os) =
    Writes-more w0.next hi j (after js) (overwrite_back js) s x refl r o
      (overwrite_back-Writes o.number js s x rs os)
