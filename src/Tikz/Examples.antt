-- ===== src/Tikz/Examples.antt =====
-- Pictures of kernels of two and three qubits.
use mqss_passes_suite.Base.{
  ℕ, ◌≡◌, refl, pos, false, List, [], ◌∷◌, All, zero, suc, ◌<◌, some, ok, Post, arith,
}
use mqss_passes_suite.Quake.Ops.{x_op, h_op, isa}
use mqss_passes_suite.Quake.Query.{get_indices_of_value_range, get_number_of_qubits}
use mqss_passes_suite.Quake.Examples.{numbers, bell}
use mqss_passes_suite.Tikz.Draw.{Cell, Lines, lstick, meter, qw, gate, ctrl, draw_gate, qubit_tikz}
use mqss_passes_suite.Tikz.Print.{print_picture}
use mqss_passes_suite.Tikz.RoundTrip.{read_picture, read-print_picture}
use mqss_passes_suite.Tikz.Grid.{width, IsGrid}
use mqss_passes_suite.Tikz.Rectangle.{IsDrawnOp, columns, qubit_tikz-IsGrid}
use mqss_passes_suite.Tikz.Swap.{controlled_swap, IsUneven, controlled_swap-IsUneven}

abbrev top_row : List (Cell ℕ)
top_row = lstick ∷ gate h_op false [] ∷ ctrl (pos 1) ∷ qw ∷ meter ∷ []

abbrev low_row : List (Cell ℕ)
low_row = lstick ∷ qw ∷ gate x_op false [] ∷ meter ∷ qw ∷ []

bell_picture : qubit_tikz numbers bell ≡ ok (top_row ∷ low_row ∷ [])
unfolding qubit_tikz
bell_picture = refl

bell_qubits : get_number_of_qubits bell ≡ 2
unfolding get_number_of_qubits
bell_qubits = refl

read_example : read_picture (print_picture (top_row ∷ low_row ∷ [])) ≡ some (top_row ∷ low_row ∷ [])
read_example = read-print_picture top_row (low_row ∷ [])

bell-IsDrawnOp : All (IsDrawnOp 2) bell
unfolding isa get_indices_of_value_range
bell-IsDrawnOp = (tt, ((l, refl, tt), ((r, refl, (l, refl, tt)), (r, (l, tt)))))
  where
    l : 0 < 2
    l = omega arith

    r : 1 < 2
    r = omega arith

bell_rows : All (IsDrawnOp (get_number_of_qubits bell)) bell
bell_rows = rw bell_qubits bell-IsDrawnOp

IsGrid-example :
    Post ⊥ (IsGrid (get_number_of_qubits bell) (columns bell 1)) (qubit_tikz numbers bell)
IsGrid-example = qubit_tikz-IsGrid numbers bell bell_rows

abbrev three_rows : Lines ℕ
three_rows = (lstick ∷ []) ∷ (lstick ∷ []) ∷ (lstick ∷ []) ∷ []

row_widths : (k : ℕ) → k < 3 → width three_rows k ≡ 1
row_widths zero h = refl
row_widths (suc zero) h = refl
row_widths (suc (suc zero)) h = refl
row_widths (suc (suc (suc k))) h = absurd (omega arith)

three_rows-IsGrid : IsGrid 3 1 three_rows
three_rows-IsGrid = (refl, row_widths)

IsUneven-example : Post ⊥ (IsUneven 1 0 2) (draw_gate numbers (controlled_swap 0 0 1 2) three_rows)
IsUneven-example =
    controlled_swap-IsUneven numbers 0 0 1 2 3 1 three_rows three_rows-IsGrid (omega arith)
      (omega arith) (omega arith) (omega arith) (omega arith) (omega arith)
