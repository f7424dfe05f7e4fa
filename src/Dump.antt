-- ===== src/Dump.antt =====
-- The hex dump of BackendC/librabbitmq/watermq/utils.c: `dump_row`, `rows_eq` and `amqp_dump`. The
-- arrays of 16 `int`s are functions; what is printed is a list of pieces.
pub mod Row
pub mod Rows
pub mod Listing
mod Tests
use wate_rmq.Common.{
  ℕ, zero, suc, ◌+◌, ◌-◌, Bool, true, false, ◌&&◌, List, [], ◌∷◌, ◌++◌, leb, ◌==◌, if◌then◌else◌,
  not,
}
use wate_rmq.Memory.{Piece, text, hex, char, update}

-- The " :" in front of the ninth cell.
abbrev pub middle : ℕ → List Piece
middle i = if i == 8 then text " :" ∷ [] else []

-- The three loops of `dump_row`, with the rounds that are left.
unfoldable pub hex_cells : ℕ → ℕ → (ℕ → ℕ) → List Piece
hex_cells zero i chs = []
hex_cells (suc rounds) i chs = middle i ++ text " " ∷ hex 2 (chs i) ∷ hex_cells rounds (i + 1) chs

unfoldable pub blank_cells : ℕ → ℕ → List Piece
blank_cells zero i = []
blank_cells (suc rounds) i = middle i ++ text "   " ∷ blank_cells rounds (i + 1)

-- `isprint` in the locale "C".
abbrev pub isprint : ℕ → Bool
isprint c = leb 0x20 c && leb c 0x7e

unfoldable pub char_cells : ℕ → ℕ → (ℕ → ℕ) → List Piece
char_cells zero i chs = []
char_cells (suc rounds) i chs =
    (if isprint (chs i) then char (chs i) else text ".") ∷ char_cells rounds (i + 1) chs

unfoldable pub dump_row : ℕ → ℕ → (ℕ → ℕ) → List Piece
dump_row count numinrow chs =
    hex 8 (count - numinrow)
      ∷ text ":"
      ∷ (if numinrow == 0
          then []
          else hex_cells numinrow 0 chs
            ++ (blank_cells (16 - numinrow) numinrow ++ (text "  " ∷ char_cells numinrow 0 chs)))
    ++ text "\n" ∷ []

-- The loop of `rows_eq`.
unfoldable pub rows_eq_from : ℕ → ℕ → (ℕ → ℕ) → (ℕ → ℕ) → Bool
rows_eq_from zero i a b = true
rows_eq_from (suc rounds) i a b = a i == b i && rows_eq_from rounds (i + 1) a b

unfoldable pub rows_eq : (ℕ → ℕ) → (ℕ → ℕ) → Bool
unfolding rows_eq_from
rows_eq a b = rows_eq_from 16 0 a b

abbrev pub dots : Piece
dots = text "          .. .. .. .. .. .. .. .. : .. .. .. .. .. .. .. ..\n"

-- The variables of `amqp_dump`, and what it has printed.
pub record Dump : Type 0 where
  pub count : ℕ
  pub numinrow : ℕ
  pub chs : ℕ → ℕ
  pub oldchs : ℕ → ℕ
  pub showed_dots : Bool
  pub out : List Piece

-- The body of `if (numinrow == 16)`: the full row is printed, or elided if it repeats the last one.
unfoldable pub flush : Dump → Dump
flush d = record d {
  numinrow = 0;
  oldchs = d.chs;
  showed_dots = rows_eq d.oldchs d.chs;
  out =
      d.out
      ++ (if rows_eq d.oldchs d.chs
          then if d.showed_dots then [] else dots ∷ []
          else dump_row d.count d.numinrow d.chs);
}

-- `count++; chs[numinrow++] = ch`.
abbrev pub append_byte : ℕ → Dump → Dump
append_byte ch d = record d {
  count = d.count + 1;
  numinrow = d.numinrow + 1;
  chs = update d.chs d.numinrow ch;
}

unfoldable pub dump_byte : ℕ → Dump → Dump
dump_byte ch d = append_byte ch (if d.numinrow == 16 then flush d else d)

unfoldable pub dump_bytes : List ℕ → Dump → Dump
dump_bytes [] d = d
dump_bytes (ch ∷ buf) d = dump_bytes buf (dump_byte ch d)

-- What stands behind the loop.
unfoldable pub finish : Dump → List Piece
finish d =
    d.out
    ++ (dump_row d.count d.numinrow d.chs
        ++ (if d.numinrow == 0 then [] else hex 8 d.count ∷ text ":\n" ∷ []))

-- `junk` is what the array `chs` holds at first.
unfoldable pub amqp_dump : (ℕ → ℕ) → List ℕ → List Piece
amqp_dump junk buf = finish (
    dump_bytes buf (record {
      count = 0;
      numinrow = 0;
      chs = junk;
      oldchs = λ i. 0;
      showed_dots = false;
      out = [];
    }))
