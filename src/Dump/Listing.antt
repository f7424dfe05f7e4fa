-- ===== src/Dump/Listing.antt =====
-- What `amqp_dump` prints, row by row.
use wate_rmq.Common.{
  ℕ, suc, ◌+◌, ◌-◌, ◌≡◌, ◌≢◌, ◌≤◌, refl, sym, ap, subst, ◌∙◌, Bool, false, List, [], ◌∷◌, ◌++◌,
  arith, ◌==◌, if◌then◌else◌, length, append_assoc, Bool-cases, inl, inr,
}
use native.Mathlib.Numerals.{add-one}
use wate_rmq.Memory.{Piece, text, hex, update}
use wate_rmq.Dump.{dots, Dump, flush, append_byte, dump_byte, dump_bytes, finish, amqp_dump}
use wate_rmq.Dump.Row.{
  cells, row_text, same_row, length-cells, dump_row-row_text, rows_eq-same_row, cells-update,
}
use wate_rmq.Dump.Rows.{
  full_rows, last_row, full_rows-full, last_row-full, full_rows-room, last_row-room, rows_lem,
  concat, AllFull,
}

-- A full row that repeats the one before it is elided, a run of such by one line of dots.
abbrev pub shown : List ℕ → Bool → ℕ → List ℕ → List Piece
shown prev showed address r =
    if same_row prev r then if showed then [] else dots ∷ [] else row_text address r

-- The full rows from an address on, and then the last row, which is never elided.
pub listing : List ℕ → Bool → ℕ → List (List ℕ) → List ℕ → List Piece
listing prev showed address [] last = row_text address last
listing prev showed address (r ∷ rs) last =
    shown prev showed address r ++ listing r (same_row prev r) (address + 16) rs last

-- The length of the buffer, unless it is empty.
abbrev pub total : ℕ → List Piece
total n = if n == 0 then [] else hex 8 n ∷ text ":\n" ∷ []

-- What the dump prints from the state `d` on.
abbrev remaining : Dump → List ℕ → List Piece
remaining d bs =
    listing (cells d.oldchs 0 16) d.showed_dots (d.count - d.numinrow)
      (full_rows (cells d.chs 0 d.numinrow) bs) (last_row (cells d.chs 0 d.numinrow) bs)
    ++ total (d.count + length bs)

-- The variables fit together: the row is not too long, and counted.
pub record IsValid (d : Dump) : Type 0 where
  pub short : d.numinrow ≤ 16
  pub counted : d.numinrow ≤ d.count
  pub started : d.count ≢ 0 → d.numinrow ≢ 0

dump_byte-IsValid : (ch : ℕ) (d : Dump) → IsValid d → IsValid (dump_byte ch d)
unfolding dump_byte flush
dump_byte-IsValid ch d v = ground arith

-- What `flush` prints is the row, shown.
flush-shown :
    (d : Dump)
    → d.numinrow ≡ 16
    → (flush d).out
      ≡ d.out
        ++ shown
            (cells d.oldchs 0 16)
            d.showed_dots
            (d.count - d.numinrow)
            (cells d.chs 0 d.numinrow)
unfolding flush
flush-shown d e =
    ground (arith, rows_eq-same_row d.oldchs d.chs, dump_row-row_text d.count d.numinrow d.chs)

no_cells : (a : ℕ → ℕ) → cells a 0 0 ≡ []
unfolding cells
no_cells a = refl

one_cell : (a : ℕ → ℕ) (c : ℕ) → cells (update a 0 c) 0 1 ≡ c ∷ []
unfolding cells
one_cell a c = refl

dump_byte-room :
    (ch : ℕ) (bs : List ℕ) (d : Dump)
    → IsValid d
    → d.numinrow ≢ 16
    → (dump_byte ch d).out ++ remaining (dump_byte ch d) bs ≡ d.out ++ remaining d (ch ∷ bs)
unfolding dump_byte
dump_byte-room ch bs d v room = ground (
  arith,
  length-cells d.chs 0 d.numinrow,
  full_rows-room (cells d.chs 0 d.numinrow) ch bs,
  last_row-room (cells d.chs 0 d.numinrow) ch bs,
  cells-update d.chs 0 d.numinrow d.numinrow ch,
  add-one d.numinrow,
)

flushes : (ch : ℕ) (d : Dump) → d.numinrow ≡ 16 → dump_byte ch d ≡ append_byte ch (flush d)
unfolding dump_byte
flushes ch d e = ap (append_byte ch) (ground arith)

-- What remains after a full row begins with a row of the one byte.
fresh_row :
    (ch : ℕ) (bs : List ℕ) (d : Dump)
    → IsValid d
    → d.numinrow ≡ 16
    → remaining (append_byte ch (flush d)) bs
      ≡ listing
          (cells d.chs 0 d.numinrow)
          (same_row (cells d.oldchs 0 16) (cells d.chs 0 d.numinrow))
          (d.count - d.numinrow + 16)
          (full_rows (ch ∷ []) bs)
          (last_row (ch ∷ []) bs)
        ++ total (d.count + suc (length bs))
unfolding flush
fresh_row ch bs d v e = ground (arith, rows_eq-same_row d.oldchs d.chs, one_cell d.chs ch)

-- The rows that begin with a full one.
remaining-full :
    (ch : ℕ) (bs : List ℕ) (d : Dump)
    → d.numinrow ≡ 16
    → remaining d (ch ∷ bs)
      ≡ (shown (cells d.oldchs 0 16) d.showed_dots (d.count - d.numinrow) (cells d.chs 0 d.numinrow)
          ++ listing
              (cells d.chs 0 d.numinrow)
              (same_row (cells d.oldchs 0 16) (cells d.chs 0 d.numinrow))
              (d.count - d.numinrow + 16)
              (full_rows (ch ∷ []) bs)
              (last_row (ch ∷ []) bs))
        ++ total (d.count + suc (length bs))
unfolding listing
remaining-full ch bs d e = rw (
  full_rows-full (cells d.chs 0 d.numinrow) ch bs (length-cells d.chs 0 d.numinrow ∙ e),
  last_row-full (cells d.chs 0 d.numinrow) ch bs (length-cells d.chs 0 d.numinrow ∙ e),
)

dump_byte-full :
    (ch : ℕ) (bs : List ℕ) (d : Dump)
    → IsValid d
    → d.numinrow ≡ 16
    → (dump_byte ch d).out ++ remaining (dump_byte ch d) bs ≡ d.out ++ remaining d (ch ∷ bs)
dump_byte-full ch bs d v full =
    subst (λ e. e.out ++ remaining e bs ≡ d.out ++ remaining d (ch ∷ bs)) (sym (flushes ch d full))
      (ap (λ o. o ++ remaining (append_byte ch (flush d)) bs) (flush-shown d full)
        ∙ append_assoc d.out row (remaining (append_byte ch (flush d)) bs)
        ∙ ap (λ l. d.out ++ l)
            (ap (λ l. row ++ l) (fresh_row ch bs d v full)
              ∙ sym (append_assoc row later tail)
              ∙ sym (remaining-full ch bs d full)))
  where
    cur : List ℕ
    cur = cells d.chs 0 d.numinrow

    row : List Piece
    row = shown (cells d.oldchs 0 16) d.showed_dots (d.count - d.numinrow) cur

    later : List Piece
    later =
        listing cur (same_row (cells d.oldchs 0 16) cur) (d.count - d.numinrow + 16)
          (full_rows (ch ∷ []) bs) (last_row (ch ∷ []) bs)

    tail : List Piece
    tail = total (d.count + suc (length bs))

-- One byte moves its row from what remains to what is out.
dump_byte-remaining :
    (ch : ℕ) (bs : List ℕ) (d : Dump)
    → IsValid d
    → (dump_byte ch d).out ++ remaining (dump_byte ch d) bs ≡ d.out ++ remaining d (ch ∷ bs)
dump_byte-remaining ch bs d v = elim (Bool-cases (d.numinrow == 16)) [
  | inl full ↦ dump_byte-full ch bs d v (ground arith)
  | inr room ↦ dump_byte-room ch bs d v (ground arith)
]

dump_bytes-remaining :
    (bs : List ℕ) (d : Dump) → IsValid d → finish (dump_bytes bs d) ≡ d.out ++ remaining d bs
unfolding dump_bytes
dump_bytes-remaining [] d v =
    unfold finish full_rows last_row listing in
    ground (arith, dump_row-row_text d.count d.numinrow d.chs, v.started)
dump_bytes-remaining (ch ∷ bs) d v =
    dump_bytes-remaining bs (dump_byte ch d) (dump_byte-IsValid ch d v)
    ∙ dump_byte-remaining ch bs d v

-- `amqp_dump` prints the rows of sixteen bytes with their addresses, eliding repeated ones, then
-- the last row and the length of the buffer; sixteen zeros at the very start are elided too, and
-- nothing depends on what the array `chs` held before. The rows are the buffer, cut every sixteen
-- bytes.
pub amqp_dump-listing :
    (junk : ℕ → ℕ) (buf : List ℕ)
    → (amqp_dump junk buf
        ≡ listing (cells (λ i. 0) 0 16) false 0 (full_rows [] buf) (last_row [] buf)
          ++ total (length buf))
      × (concat (full_rows [] buf) ++ last_row [] buf ≡ buf)
      × AllFull (full_rows [] buf)
unfolding amqp_dump
amqp_dump-listing junk buf = (
  dump_bytes-remaining buf _
        (record { short = omega arith; counted = omega arith; started = λ h e. absurd (h e) })
      ∙ ground (arith, no_cells junk),
  (rows_lem [] buf).0,
  (rows_lem [] buf).1,
)
