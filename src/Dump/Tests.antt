-- ===== src/Dump/Tests.antt =====
-- A dump of forty bytes: two equal rows and a short one.
use wate_rmq.Common.{ℕ, ◌≡◌, refl, false, List, [], ◌∷◌, ◌++◌, replicate}
use wate_rmq.Memory.{text, hex}
use wate_rmq.Dump.{
  hex_cells, blank_cells, char_cells, dump_row, rows_eq_from, rows_eq, dots, flush, dump_byte,
  dump_bytes, finish, amqp_dump,
}
use wate_rmq.Dump.Row.{cells, row_text}
use wate_rmq.Dump.Rows.{full_rows, last_row, concat, AllFull}
use wate_rmq.Dump.Listing.{listing, total, amqp_dump-listing}

-- Sixteen letters three times, then one more.
abbrev letters : List ℕ
letters = replicate 49 b'A'

amqp_dump-listing_example :
    (amqp_dump (λ i. 7) letters
      ≡ listing (cells (λ i. 0) 0 16) false 0 (full_rows [] letters) (last_row [] letters)
        ++ total 49)
    × (concat (full_rows [] letters) ++ last_row [] letters ≡ letters)
    × AllFull (full_rows [] letters)
amqp_dump-listing_example = amqp_dump-listing (λ i. 7) letters

-- The first row is printed, the two that repeat it make one line of dots, the last is printed.
letters_dump :
    amqp_dump (λ i. 7) letters
    ≡ row_text 0 (replicate 16 b'A')
      ++ (dots ∷ row_text 48 (b'A' ∷ []))
      ++ hex 8 49 ∷ text ":\n" ∷ []
unfolding amqp_dump dump_bytes dump_byte flush finish dump_row rows_eq rows_eq_from hex_cells
    blank_cells char_cells
letters_dump = refl
