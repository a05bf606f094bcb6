-- ===== src/Tikz/Draw.antt =====
-- lib/Passes/CodeGen/QuakeToTikz.cpp: dumpQuakeOperationToTikz and the rows of the picture. The
-- operations without a constructor of their own are of other dialects than Quake.
use mqss_passes_suite.Base.{
  ℕ, zero, suc, ℤ, pos, negsuc, ◌-ℤ◌, mem_ℤ, Bool, if◌then◌else◌, List, [], ◌∷◌, ◌++◌, map, Result,
  ok, fault, null_gate, out_of_range, failed_assertion, ◌>>=◌,
}
use mqss_passes_suite.Quake.Ops.{
  GateKind, swap_op, Gate, Operand, ref, veq, Op, operator, plain, measure, apply_op, isa,
}
use mqss_passes_suite.Quake.Floats.{Floats, get_parameters_values}
use mqss_passes_suite.Quake.Query.{extract_index, get_indices_of_value_range, get_number_of_qubits}
use mqss_passes_suite.Quake.Classical.{get_number_of_classical_bits}

-- What stands in one place of a row. A gate's label is its class, its dagger and its parameters.
pub data Cell (F : Type 0) : Type 0 where
  lstick meter qw swap_end : Cell F
  swap_to : ℤ → Cell F
  gate : GateKind → Bool → List F → Cell F
  ctrl : ℤ → Cell F

-- `qubitLines`
abbrev pub Lines : Type 0 → Type 0
Lines F = List (List (Cell F))

-- `targets[0]`
unfoldable pub first_target : List ℤ → Result ℤ
first_target [] = fault out_of_range
first_target (t ∷ ts) = ok t

module _ {F : Type 0} where
  unfoldable pub push_nth : ℕ → Cell F → Lines F → Result (Lines F)
  push_nth i c [] = fault out_of_range
  push_nth zero c (l ∷ ls) = ok ((l ++ c ∷ []) ∷ ls)
  push_nth (suc i) c (l ∷ ls) = push_nth i c ls >>= λ ls'. ok (l ∷ ls')

  -- `qubitLines[index].push_back(cell)`
  unfoldable pub push_at : ℤ → Cell F → Lines F → Result (Lines F)
  unfolding push_nth
  push_at (pos i) c lines = push_nth i c lines
  push_at (negsuc n) c lines = fault out_of_range

  -- The loops over the targets and over the controls.
  unfoldable pub push_each : (ℤ → Cell F) → List ℤ → Lines F → Result (Lines F)
  unfolding push_at
  push_each cell [] lines = ok lines
  push_each cell (i ∷ is) lines = push_at i (cell i) lines >>= λ lines'. push_each cell is lines'

  -- The cells of the qubits that an operation does not use; `i` is the first row's number.
  unfoldable pub fill : List ℤ → ℕ → Lines F → Lines F
  fill used i [] = []
  fill used i (l ∷ ls) = (if mem_ℤ (pos i) used then l else l ++ qw ∷ []) ∷ fill used (suc i) ls

  unfoldable pub meter_all : Lines F → Lines F
  meter_all lines = map (λ l. l ++ meter ∷ []) lines

  unfoldable pub row_numbers : ℕ → Lines F → List ℤ
  row_numbers i [] = []
  row_numbers i (l ∷ ls) = pos i ∷ row_numbers (suc i) ls

  -- The operands of a measurement; the list is `measurements`.
  unfoldable pub draw_operands : List ℤ → List Operand → Lines F → Result (List ℤ × Lines F)
  unfolding push_nth meter_all row_numbers extract_index
  draw_operands measured [] lines = ok (measured, lines)
  draw_operands measured (ref v ∷ os) lines = elim (extract_index v) [
    | pos i ↦ (push_nth i meter lines >>= λ lines'. draw_operands (pos i ∷ measured) os lines')
    | negsuc n ↦ fault failed_assertion
  ]
  draw_operands measured (veq n ∷ os) lines =
      draw_operands (row_numbers 0 lines ++ measured) os (meter_all lines)

  unfoldable pub draw_measurement : List Operand → Lines F → Result (Lines F)
  unfolding draw_operands fill
  draw_measurement os lines = draw_operands [] os lines >>= λ drawn. ok (fill drawn.0 0 drawn.1)

  -- A swap: what it controls is left out.
  unfoldable pub draw_swap : List ℤ → Lines F → Result (Lines F)
  unfolding push_at
  draw_swap (a ∷ b ∷ []) lines =
      push_at a (swap_to (b -ℤ a)) lines >>= λ lines'. push_at b swap_end lines'
  draw_swap _ lines = fault failed_assertion

  unfoldable pub draw_boxes : Cell F → List ℤ → List ℤ → Lines F → Result (Lines F)
  unfolding push_each first_target
  draw_boxes label targets controls lines = push_each (λ _. label) targets lines >>= λ boxes.
      first_target targets >>= λ t. push_each (λ c. ctrl (t -ℤ c)) controls boxes

  unfoldable pub first_column : ℕ → Lines F
  first_column zero = []
  first_column (suc n) = (lstick ∷ []) ∷ first_column n

module _ {F : Type 0} (fl : Floats F) where
  unfoldable pub draw_gate : Gate F → Lines F → Result (Lines F)
  unfolding get_indices_of_value_range fill isa draw_swap draw_boxes get_parameters_values
  draw_gate g lines =
      let targets = get_indices_of_value_range g.targets in
      let controls = get_indices_of_value_range g.controls in
      let filled = fill (targets ++ controls) 0 lines in
      if isa swap_op g
      then draw_swap targets filled
      else draw_boxes (gate g.kind g.is_adj (get_parameters_values fl g.parameters)) targets
          controls filled

  -- dumpQuakeOperationToTikz
  unfoldable pub dump_quake_operation_to_tikz : Op F → Lines F → Result (Lines F)
  unfolding draw_gate draw_measurement
  dump_quake_operation_to_tikz (operator g) lines = draw_gate g lines
  dump_quake_operation_to_tikz (plain (measure os)) lines = draw_measurement os lines
  dump_quake_operation_to_tikz (plain (apply_op vs)) lines = fault null_gate
  dump_quake_operation_to_tikz (plain n) lines = ok lines

  -- The walk over the kernel.
  unfoldable pub draw_all : List (Op F) → Lines F → Result (Lines F)
  unfolding dump_quake_operation_to_tikz
  draw_all [] lines = ok lines
  draw_all (op ∷ ops) lines =
      dump_quake_operation_to_tikz op lines >>= λ lines'. draw_all ops lines'

  -- The rows in runOnOperation of QuakeToTikzPass.
  unfoldable pub qubit_tikz : List (Op F) → Result (Lines F)
  unfolding first_column draw_all get_number_of_qubits get_number_of_classical_bits
  qubit_tikz circuit = get_number_of_classical_bits circuit >>= λ _.
      draw_all circuit (first_column (get_number_of_qubits circuit))
