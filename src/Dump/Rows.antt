-- ===== src/Dump/Rows.antt =====
-- A buffer cut every sixteen bytes.
use wate_rmq.Common.{
  ℕ, ◌≡◌, ◌≢◌, sym, ap, ◌∙◌, List, [], ◌∷◌, ◌++◌, arith, ◌==◌, if◌then◌else◌, length, append_assoc,
  append-nil, ℕ_discrete,
}

-- The rows of sixteen bytes that more bytes follow, and the last row, behind the bytes `cur`.
unfoldable pub full_rows : List ℕ → List ℕ → List (List ℕ)
full_rows cur [] = []
full_rows cur (b ∷ bs) =
    let fresh = cur ∷ full_rows (b ∷ []) bs in
    let longer = full_rows (cur ++ b ∷ []) bs in if length cur == 16 then fresh else longer

unfoldable pub last_row : List ℕ → List ℕ → List ℕ
last_row cur [] = cur
last_row cur (b ∷ bs) =
    let fresh = last_row (b ∷ []) bs in
    let longer = last_row (cur ++ b ∷ []) bs in if length cur == 16 then fresh else longer

pub full_rows-full :
    (cur : List ℕ) (b : ℕ) (bs : List ℕ)
    → length cur ≡ 16
    → full_rows cur (b ∷ bs) ≡ cur ∷ full_rows (b ∷ []) bs
unfolding full_rows
full_rows-full cur b bs h = ground arith

pub last_row-full :
    (cur : List ℕ) (b : ℕ) (bs : List ℕ)
    → length cur ≡ 16
    → last_row cur (b ∷ bs) ≡ last_row (b ∷ []) bs
unfolding last_row
last_row-full cur b bs h = ground arith

pub full_rows-room :
    (cur : List ℕ) (b : ℕ) (bs : List ℕ)
    → length cur ≢ 16
    → full_rows cur (b ∷ bs) ≡ full_rows (cur ++ b ∷ []) bs
unfolding full_rows
full_rows-room cur b bs h = ground arith

pub last_row-room :
    (cur : List ℕ) (b : ℕ) (bs : List ℕ)
    → length cur ≢ 16
    → last_row cur (b ∷ bs) ≡ last_row (cur ++ b ∷ []) bs
unfolding last_row
last_row-room cur b bs h = ground arith

abbrev pub concat : List (List ℕ) → List ℕ
concat [] = []
concat (r ∷ rs) = r ++ concat rs

abbrev pub AllFull : List (List ℕ) → Type 0
AllFull [] = Unit {0}
AllFull (r ∷ rs) = (length r ≡ 16) × AllFull rs

pub rows_lem :
    (cur bs : List ℕ)
    → (concat (full_rows cur bs) ++ last_row cur bs ≡ cur ++ bs) × AllFull (full_rows cur bs)
unfolding full_rows last_row
rows_lem cur [] = (sym (append-nil cur), tt)
rows_lem cur (b ∷ bs) = elim (ℕ_discrete (length cur) 16) [
  | yes full ↦
      rw (full_rows-full cur b bs full, last_row-full cur b bs full)
        (
          append_assoc cur (concat (full_rows (b ∷ []) bs)) (last_row (b ∷ []) bs)
              ∙ ap (λ l. cur ++ l) (rows_lem (b ∷ []) bs).0,
          (full, (rows_lem (b ∷ []) bs).1),
        )
  | no room ↦
      rw (full_rows-room cur b bs room, last_row-room cur b bs room)
        (
          (rows_lem (cur ++ b ∷ []) bs).0 ∙ append_assoc cur (b ∷ []) bs,
          (rows_lem (cur ++ b ∷ []) bs).1,
        )
]
