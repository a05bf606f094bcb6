-- ===== src/Tikz/Print.antt =====
-- lib/Passes/CodeGen/QuakeToTikz.cpp: what runOnOperation writes to its stream. The text is the
-- list of the pieces that are written, one constructor for each literal and one for a cell.
use mqss_passes_suite.Base.{Bool, if◌then◌else◌, List, [], ◌∷◌, ◌++◌, Result, ok, ◌>>=◌}
use mqss_passes_suite.Quake.Ops.{Op}
use mqss_passes_suite.Quake.Floats.{Floats}
use mqss_passes_suite.Tikz.Draw.{Cell, Lines, qubit_tikz}

-- `begin` and `end` are those of the environment, `tab` starts a row, `separator` stands between
-- two cells, `line_break` ends a row that is not the last one, and `newline` the last one.
pub data Piece (F : Type 0) : Type 0 where
  begin tab separator line_break newline end : Piece F
  cell : Cell F → Piece F

module _ {F : Type 0} where
  unfoldable pub print_cells : List (Cell F) → List (Piece F)
  print_cells [] = []
  print_cells (c ∷ []) = cell c ∷ []
  print_cells (c ∷ d ∷ cs) = cell c ∷ separator ∷ print_cells (d ∷ cs)

  unfoldable pub print_rows : Lines F → List (Piece F)
  unfolding print_cells
  print_rows [] = []
  print_rows (l ∷ []) = tab ∷ (print_cells l ++ newline ∷ [])
  print_rows (l ∷ k ∷ ls) = tab ∷ (print_cells l ++ line_break ∷ print_rows (k ∷ ls))

  unfoldable pub print_picture : Lines F → List (Piece F)
  unfolding print_rows
  print_picture lines = begin ∷ (print_rows lines ++ end ∷ [])

-- QuakeToTikzPass::runOnOperation; `named` says that the name of the function is that of a kernel.
unfoldable pub quake_to_tikz :
    {F : Type 0} → Floats F → Bool → List (Op F) → Result (List (Piece F))
unfolding qubit_tikz print_picture
quake_to_tikz fl named circuit =
    if named then (qubit_tikz fl circuit >>= λ lines. ok (print_picture lines)) else ok []
