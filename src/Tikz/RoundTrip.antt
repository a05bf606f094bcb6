-- ===== src/Tikz/RoundTrip.antt =====
-- The rows of a picture, read back from its text.
use mqss_passes_suite.Base.{◌≡◌, refl, ap, List, [], ◌∷◌, ◌++◌, append_assoc, Option, none, some}
use mqss_passes_suite.Tikz.Draw.{Cell, Lines}
use mqss_passes_suite.Tikz.Print.{
  Piece, begin, tab, separator, line_break, newline, end, cell, print_cells, print_rows,
  print_picture,
}

-- Where the reader is in a picture.
data Place : Type 0 where
  row_start first_cell behind_cell next_cell picture_end : Place

module _ {F : Type 0} where
  -- The row that a text starts in, and the rows after it.
  abbrev add_cell : Cell F → Option (List (Cell F) × Lines F) → Option (List (Cell F) × Lines F)
  add_cell c none = none
  add_cell c (some (l, ls)) = some (c ∷ l, ls)

  abbrev end_row : Option (List (Cell F) × Lines F) → Option (List (Cell F) × Lines F)
  end_row none = none
  end_row (some (l, ls)) = some ([], l ∷ ls)

  -- Nothing else stands where a row starts than a tab, behind a cell than a separator or the end of
  -- the row, behind a separator than a cell, and behind the last row than the end.
  read_rows : Place → List (Piece F) → Option (List (Cell F) × Lines F)
  read_rows row_start (tab ∷ ps) = read_rows first_cell ps
  read_rows first_cell (cell c ∷ ps) = add_cell c (read_rows behind_cell ps)
  read_rows first_cell (line_break ∷ ps) = end_row (read_rows row_start ps)
  read_rows first_cell (newline ∷ ps) = read_rows picture_end ps
  read_rows behind_cell (separator ∷ ps) = read_rows next_cell ps
  read_rows behind_cell (line_break ∷ ps) = end_row (read_rows row_start ps)
  read_rows behind_cell (newline ∷ ps) = read_rows picture_end ps
  read_rows next_cell (cell c ∷ ps) = add_cell c (read_rows behind_cell ps)
  read_rows picture_end (end ∷ []) = some ([], [])
  read_rows _ _ = none

  abbrev whole : Option (List (Cell F) × Lines F) → Option (Lines F)
  whole none = none
  whole (some (l, ls)) = some (l ∷ ls)

  pub read_picture : List (Piece F) → Option (Lines F)
  read_picture (begin ∷ ps) = whole (read_rows row_start ps)
  read_picture _ = none

  -- Cells are put before the row that follows them.
  abbrev add_cells :
      List (Cell F) → Option (List (Cell F) × Lines F) → Option (List (Cell F) × Lines F)
  add_cells [] r = r
  add_cells (c ∷ cs) r = add_cell c (add_cells cs r)

  -- The cells of a row from the first, or from a later one.
  read-print_cells :
      (c : Cell F) (cs : List (Cell F)) (ps : List (Piece F))
      → (read_rows first_cell (print_cells (c ∷ cs) ++ ps)
          ≡ add_cells (c ∷ cs) (read_rows behind_cell ps))
        × (read_rows next_cell (print_cells (c ∷ cs) ++ ps)
            ≡ add_cells (c ∷ cs) (read_rows behind_cell ps))
  unfolding read_rows print_cells
  read-print_cells c [] ps = (refl, refl)
  read-print_cells c (d ∷ cs) ps =
      let rest = (read-print_cells d cs ps).1 in (ap (add_cell c) rest, ap (add_cell c) rest)

  add_cells_lem : (cs : List (Cell F)) (ls : Lines F) → add_cells cs (some ([], ls)) ≡ some (cs, ls)
  add_cells_lem [] ls = refl
  add_cells_lem (c ∷ cs) ls = rw (add_cells_lem cs ls)

  read-print_rows :
      (l : List (Cell F)) (ls : Lines F)
      → read_rows row_start (print_rows (l ∷ ls) ++ end ∷ []) ≡ some (l, ls)
  unfolding read_rows print_rows
  read-print_rows [] [] = refl
  read-print_rows (c ∷ cs) [] =
      simp (append_assoc, (read-print_cells c cs (newline ∷ end ∷ [])).0, add_cells_lem cs [])
  read-print_rows [] (k ∷ ls) = rw (read-print_rows k ls)
  read-print_rows (c ∷ cs) (k ∷ ls) = simp (
    append_assoc,
    (read-print_cells c cs (line_break ∷ (print_rows (k ∷ ls) ++ end ∷ []))).0,
    read-print_rows k ls,
    add_cells_lem cs (k ∷ ls),
  )

  -- The text of a picture that has a row determines the rows: a reader
  -- that takes no text with a tab, a separator or a line break missing reads them back.
  pub read-print_picture :
      (l : List (Cell F)) (ls : Lines F) → read_picture (print_picture (l ∷ ls)) ≡ some (l ∷ ls)
  unfolding read_picture print_picture
  read-print_picture l ls = rw (read-print_rows l ls)
