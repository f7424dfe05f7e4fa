-- ===== src/Dump/Row.antt =====
-- One row of the dump, as a function of its bytes.
use wate_rmq.Common.{
  ℕ, zero, suc, ◌+◌, ◌-◌, ◌≡◌, refl, ap, ap₂, Bool, true, false, ◌&&◌, List, [], ◌∷◌, ◌++◌, arith,
  ◌==◌, if◌then◌else◌, length,
}
use wate_rmq.Memory.{Piece, text, hex, char, update}
use wate_rmq.Dump.{
  middle, hex_cells, blank_cells, isprint, char_cells, dump_row, rows_eq_from, rows_eq,
}

-- The entries of the array from `i` on.
unfoldable pub cells : (ℕ → ℕ) → ℕ → ℕ → List ℕ
cells a i zero = []
cells a i (suc n) = a i ∷ cells a (i + 1) n

-- The hexadecimal half of a row, the bytes of which begin at column `i`.
abbrev pub hex_half : ℕ → List ℕ → List Piece
hex_half i [] = []
hex_half i (b ∷ bs) = middle i ++ text " " ∷ hex 2 b ∷ hex_half (i + 1) bs

abbrev pub char_half : List ℕ → List Piece
char_half [] = []
char_half (b ∷ bs) = (if isprint b then char b else text ".") ∷ char_half bs

-- A row at an address: a short row is filled up to 16 columns, and an empty one has no columns.
abbrev pub body : List ℕ → List Piece
body [] = []
body (b ∷ bs) =
    hex_half 0 (b ∷ bs)
    ++ (blank_cells (16 - length (b ∷ bs)) (length (b ∷ bs)) ++ (text "  " ∷ char_half (b ∷ bs)))

abbrev pub row_text : ℕ → List ℕ → List Piece
row_text address bs = hex 8 address ∷ text ":" ∷ body bs ++ text "\n" ∷ []

-- Equality of rows.
abbrev pub same_row : List ℕ → List ℕ → Bool
same_row [] [] = true
same_row (a ∷ r) (b ∷ s) = a == b && same_row r s
same_row _ _ = false

pub length-cells : (a : ℕ → ℕ) (i n : ℕ) → length (cells a i n) ≡ n
unfolding cells
length-cells a i zero = refl
length-cells a i (suc n) = ap suc (length-cells a (i + 1) n)

hex_cells-hex_half : (n i : ℕ) (chs : ℕ → ℕ) → hex_cells n i chs ≡ hex_half i (cells chs i n)
unfolding hex_cells cells
hex_cells-hex_half zero i chs = refl
hex_cells-hex_half (suc n) i chs =
    ap (λ l. middle i ++ text " " ∷ hex 2 (chs i) ∷ l) (hex_cells-hex_half n (i + 1) chs)

char_cells-char_half : (n i : ℕ) (chs : ℕ → ℕ) → char_cells n i chs ≡ char_half (cells chs i n)
unfolding char_cells cells
char_cells-char_half zero i chs = refl
char_cells-char_half (suc n) i chs =
    ap (λ l. (if isprint (chs i) then char (chs i) else text ".") ∷ l)
      (char_cells-char_half n (i + 1) chs)

pub dump_row-row_text :
    (count n : ℕ) (chs : ℕ → ℕ) → dump_row count n chs ≡ row_text (count - n) (cells chs 0 n)
unfolding dump_row cells
dump_row-row_text count zero chs = refl
dump_row-row_text count (suc n) chs = ground (
  arith,
  hex_cells-hex_half (suc n) 0 chs,
  char_cells-char_half (suc n) 0 chs,
  length-cells chs 0 (suc n),
)

rows_eq_from-same_row :
    (n i : ℕ) (a b : ℕ → ℕ) → rows_eq_from n i a b ≡ same_row (cells a i n) (cells b i n)
unfolding rows_eq_from cells
rows_eq_from-same_row zero i a b = refl
rows_eq_from-same_row (suc n) i a b =
    ap (λ t. a i == b i && t) (rows_eq_from-same_row n (i + 1) a b)

-- `rows_eq` compares two arrays at all their sixteen places.
pub rows_eq-same_row : (a b : ℕ → ℕ) → rows_eq a b ≡ same_row (cells a 0 16) (cells b 0 16)
unfolding rows_eq
rows_eq-same_row a b = rows_eq_from-same_row 16 0 a b

-- A byte put behind the first `n`.
pub cells-update :
    (a : ℕ → ℕ) (i n j c : ℕ) → j ≡ i + n → cells (update a j c) i (suc n) ≡ cells a i n ++ c ∷ []
unfolding cells
cells-update a i zero j c e = ap (λ v. v ∷ []) (ground arith)
cells-update a i (suc n) j c e = ap₂ ◌∷◌ (ground arith) (cells-update a (i + 1) n j c (omega arith))
