-- ===== src/Memory/Text.antt =====
-- Strings as bytes before a NUL.
use wate_rmq.Common.{
  ℕ, zero, suc, ◌≡◌, ◌≢◌, refl, sym, ◌∙◌, ap, subst, inl, inr, Option-cases, ℕ_discrete, List, [],
  ◌∷◌, ◌++◌, some, arith, length,
}
use wate_rmq.Memory.{Ptr, null, at, World, until_nul, tabulate, string_at}

-- No byte is NUL.
abbrev pub NoNul : List ℕ → Type 0
NoNul [] = Unit {0}
NoNul (c ∷ cs) = (c ≢ 0) × NoNul cs

pub until_nul-append : (s t : List ℕ) → NoNul s → until_nul (s ++ 0 ∷ t) ≡ some s
until_nul-append [] t h = refl
until_nul-append (c ∷ s) t (h, hs) = ground (arith, until_nul-append s t hs)

-- A string that is read holds no NUL, and its block goes on with one.
pub until_nul-split :
    (bytes : List ℕ) {s : List ℕ}
    → until_nul bytes ≡ some s
    → NoNul s × (rest : List ℕ) × (bytes ≡ s ++ 0 ∷ rest)
until_nul-split [] e = cc
until_nul-split (c ∷ bytes) {s} e = elim (Option-cases (until_nul bytes)) [
  | inl miss ↦ ended (ground arith)
  | inr (s', found) ↦ elim (ℕ_discrete c 0) [
    | yes nul ↦ ended (ground arith)
    | no more ↦
        let (clean, rest, split) = until_nul-split bytes found in
        let eq : c ∷ s' ≡ s = ground arith in
        subst (λ t. NoNul t × (r : List ℕ) × (c ∷ bytes ≡ t ++ 0 ∷ r)) eq
          ((more, clean), rest, ap (λ l. c ∷ l) split)
  ]
]
  where
    ended : (c ≡ 0) × (s ≡ []) → NoNul s × (rest : List ℕ) × (c ∷ bytes ≡ s ++ 0 ∷ rest)
    ended (z, n) =
        subst (λ t. NoNul t × (r : List ℕ) × (c ∷ bytes ≡ t ++ 0 ∷ r)) (sym n)
          (tt, bytes, ap (λ h. h ∷ bytes) z)

pub length-tabulate : (f : ℕ → ℕ) (n : ℕ) → length (tabulate f n) ≡ n
unfolding tabulate
length-tabulate f zero = refl
length-tabulate f (suc n) = ap suc (length-tabulate (λ i. f (suc i)) n)

-- A pointer to a string: its block holds the string, a NUL, and what follows.
pub record PointsTo (w : World) (p : Ptr) (s : List ℕ) : Type 0 where
  pub block : ℕ
  pub rest : List ℕ
  pub address : p ≡ at block
  pub live : w.block block ≡ some (s ++ 0 ∷ rest)
  pub clean : NoNul s

pub string_at-PointsTo :
    {w : World} (p : Ptr) {s : List ℕ} → string_at w p ≡ some s → PointsTo w p s
string_at-PointsTo null e = cc
string_at-PointsTo {w} (at a) {s} e = elim (Option-cases (w.block a)) [
  | inl dead ↦ absurd (ground arith)
  | inr (bytes, live) ↦
      let (clean, rest, split) = until_nul-split bytes {s = s} (ground arith) in
      record { block = a; rest = rest; address = refl; live = live ∙ ap some split; clean = clean }
]
