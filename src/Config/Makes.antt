-- ===== src/Config/Makes.antt =====
-- How the functions that create a struct of strings end, member by member.
use wate_rmq.Common.{
  ℕ, ◌+◌, ◌≡◌, ◌≤◌, refl, ◌∙◌, subst, false, List, ◌∷◌, Option, none, some, arith, length, inl, inr,
  Bool-cases,
}
use wate_rmq.Memory.{Ptr, World, Run, ok, Cmd, granted, string_at}
use wate_rmq.Memory.Frame.{
  IsSound, Extends, Extends-trans, granted-IsSound, granted-Extends, denied-IsSound, denied-Extends,
  malloc-granted, malloc-denied, string_at-Extends,
}
use wate_rmq.Config.{with_string, with_struct}
use wate_rmq.Config.Strings.{Owned-Extends, Owns, CopyMade, new_string-denied, new_string-granted}

-- A call of `malloc` that is still to come is refused.
abbrev pub Denied : World → Type 0
Denied w = (n : ℕ) × (size : ℕ) × (w.next ≤ n) × (w.grants n size ≡ false)

-- How a function that creates a struct ends: with NULL, for the reason `C`, or with a struct as `P`
-- says. It never faults, and keeps every live block.
pub data Makes {A : Type 0} (w : World) (C : Type 0) (P : A → World → Type 0) (r : Run (Option A))
    : Type 0 where
  refused : {v : World} → C → IsSound v → Extends w v → r ≡ ok none v → Makes w C P r
  made : {a : A} {v : World} → IsSound v → Extends w v → r ≡ ok (some a) v → P a v → Makes w C P r

Makes-subst :
    {A C : Type 0} {w : World} {P : A → World → Type 0} {r r' : Run (Option A)}
    → r' ≡ r
    → Makes w C P r
    → Makes w C P r'
Makes-subst e (refused c s x q) = refused c s x (e ∙ q)
Makes-subst e (made s x q p) = made s x (e ∙ q) p

pub with_struct-Makes :
    {A C : Type 0} {P : A → World → Type 0} {w : World} (size : ℕ) (m : Cmd (Option A))
    → (Denied w → C)
    → IsSound w
    → ((v : World) → IsSound v → Extends w v → Makes w C P (m v))
    → Makes w C P (with_struct size m w)
unfolding with_struct
with_struct-Makes {w} size m why s f = elim (Bool-cases (w.grants w.next size)) [
  | inl yes' ↦
      Makes-subst (rw (malloc-granted size w yes') refl)
        (f (granted size w) (granted-IsSound size s) (granted-Extends w size))
  | inr no' ↦
      refused (why (w.next, size, omega arith, no')) (denied-IsSound s) (denied-Extends w)
        (rw (malloc-denied size w no') refl)
]

pub with_string-Makes :
    {A C : Type 0} {P : A → World → Type 0} {w0 w : World} (src : Ptr) (s : List ℕ)
    (k : Ptr → Cmd (Option A)) (acc : List (Ptr × List ℕ))
    → (Denied w0 → C)
    → IsSound w0
    → IsSound w
    → Extends w0 w
    → string_at w0 src ≡ some s
    → Owns w0 w acc
    → ((p : Ptr) (v : World)
        → IsSound v
        → Extends w0 v
        → Owns w0 v ((p, s) ∷ acc)
        → Makes w0 C P (k p v))
    → Makes w0 C P (with_string src k w)
unfolding with_string
with_string-Makes {w0} {w} src s k acc why s0 sw ext points owned f =
    elim (Bool-cases (w.grants w.next (length s + 1))) [
      | inl yes' ↦
          let new : CopyMade w src s = new_string-granted src s sw here yes' in
          Makes-subst (rw new.result refl) (
            f _ new.world new.sound (Extends-trans ext new.extends) (record {
              owned = (
                record {
                  number = w.next;
                  address = refl;
                  low = ext.later;
                  high = new.grown;
                  live = new.live;
                  clean = new.clean;
                },
                Owned-Extends w0.next w.next acc new.extends (omega arith) owned.owned,
              );
            }))
      | inr no' ↦
          refused
            (why (
              w.next,
              length s + 1,
              ext.later,
              subst (λ g. g w.next (length s + 1) ≡ false) ext.granting no',
            ))
            (denied-IsSound sw) (Extends-trans ext (denied-Extends w))
            (rw (new_string-denied src s sw here no') refl)
    ]
  where
    here : string_at w src ≡ some s
    here = string_at-Extends src s0 ext points
