-- ===== src/Configure/Overwrite.antt =====
-- One string over another: what `memcpy(to, from, strlen(from))` leaves.
use wate_rmq.Common.{
  ℕ, zero, suc, ◌+◌, ◌≡◌, ◌≤◌, ◌<◌, refl, sym, ◌∙◌, ap, List, [], ◌∷◌, ◌++◌, some, none, arith,
  length, take, drop, length-append, take-length_append, append-nil, drop-eq-nil, append_assoc,
}
use wate_rmq.Memory.{Ptr, at, World, ok, fault, out_of_bounds, until_nul, update, string_at}
use wate_rmq.Memory.Text.{NoNul, string_at-PointsTo}
use wate_rmq.Memory.Frame.{strlen-ok, memcpy-ok, memcpy_long}
use wate_rmq.Configure.{overwrite}

-- The new string, and what is left of an old one that is longer.
abbrev pub laid : List ℕ → List ℕ → List ℕ
laid new old = new ++ drop (length new) old

-- The world after `bytes` have been put into the block `b`.
abbrev pub rewritten : World → ℕ → List ℕ → World
rewritten w b bytes = record w { block = update w.block b (some bytes) }

pub take-before : (s t : List ℕ) → take (length s) (s ++ t) ≡ s
take-before s t = take-length_append s t

pub drop-terminated :
    (n : ℕ) (s : List ℕ) → n ≤ length s → drop n (s ++ 0 ∷ []) ≡ drop n s ++ 0 ∷ []
drop-terminated zero s h = refl
drop-terminated (suc n) [] h = absurd (omega arith)
drop-terminated (suc n) (c ∷ s) h = drop-terminated n s (omega arith)

NoNul-append : (s t : List ℕ) → NoNul s → NoNul t → NoNul (s ++ t)
NoNul-append [] t h k = k
NoNul-append (c ∷ s) t (hc, h) k = (hc, NoNul-append s t h k)

NoNul-drop : (n : ℕ) (s : List ℕ) → NoNul s → NoNul (drop n s)
NoNul-drop zero s h = h
NoNul-drop (suc n) [] h = tt
NoNul-drop (suc n) (c ∷ s) (hc, h) = NoNul-drop n s h

pub NoNul-laid : (new old : List ℕ) → NoNul new → NoNul old → NoNul (laid new old)
NoNul-laid new old h k = NoNul-append new _ h (NoNul-drop (length new) old k)

NoNul-until_nul : (s : List ℕ) → NoNul s → until_nul s ≡ none
NoNul-until_nul [] h = refl
NoNul-until_nul (c ∷ s) (h, hs) = ground (arith, NoNul-until_nul s hs)

module _ (w : World) (b : ℕ) (from : Ptr) (old new : List ℕ)
    (live : w.block b ≡ some (old ++ 0 ∷ [])) (points : string_at w from ≡ some new) where
  open (string_at-PointsTo {w = w} from points) use {block, rest, address, clean}

  source : w.block block ≡ some (new ++ 0 ∷ rest)
  source = (string_at-PointsTo {w = w} from points).live

  -- The string and its NUL hold the new bytes.
  pub overwrite-ok :
      length new ≤ length old + 1
      → overwrite (at b) from w ≡ ok tt (rewritten w b (new ++ drop (length new) (old ++ 0 ∷ [])))
  unfolding overwrite
  overwrite-ok h =
      rw (strlen-ok w from points, address)
        (memcpy-ok w b block (length new) source live (omega (arith, length-append new (0 ∷ rest)))
            (omega (arith, length-append old (0 ∷ []), h))
          ∙ ap (λ l. ok tt (rewritten w b (l ++ drop (length new) (old ++ 0 ∷ []))))
              (take-before new (0 ∷ rest)))

  overwrite_long : length old + 1 < length new → overwrite (at b) from w ≡ fault out_of_bounds
  unfolding overwrite
  overwrite_long h =
      rw (strlen-ok w from points, address)
        (memcpy_long w b block (length new) source live
          (omega (arith, length-append new (0 ∷ rest))) (omega (arith, length-append old (0 ∷ []))))

  -- Over a string that is as long or longer, the copy is the new string and then the end of the old
  -- one; one byte more and there is no NUL left; more than that and the bytes do not fit the block.
  pub overwrite-Ends :
      (length new ≤ length old
        → overwrite (at b) from w ≡ ok tt (rewritten w b (laid new old ++ 0 ∷ [])))
      × (length new ≡ length old + 1
          → (overwrite (at b) from w ≡ ok tt (rewritten w b new))
            × (string_at (rewritten w b new) (at b) ≡ none))
      × (length old + 1 < length new → overwrite (at b) from w ≡ fault out_of_bounds)
  overwrite-Ends = (
    (λ h.
        overwrite-ok (omega (arith, h))
        ∙ ap (λ l. ok tt (rewritten w b l))
            (ap (λ l. new ++ l) (drop-terminated (length new) old h)
              ∙ sym (append_assoc new (drop (length new) old) (0 ∷ [])))),
    (λ h. (
      overwrite-ok (omega (arith, h))
          ∙ ap (λ l. ok tt (rewritten w b l))
              (rw
                (drop-eq-nil (length new) (old ++ 0 ∷ [])
                  (omega (arith, h, length-append old (0 ∷ []))))
                (append-nil new)),
      ground (arith, NoNul-until_nul new clean),
    )),
    overwrite_long,
  )
