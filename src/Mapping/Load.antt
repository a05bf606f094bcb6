-- ===== src/Mapping/Load.antt =====
-- lib/Passes/Transforms/QuakeQMap.cpp: the four functions that load operations into a circuit, and
-- the walk that calls them. `qc::QuantumComputation` is the list of the calls made on it.
use mqss_passes_suite.Base.{
  ℕ, ℤ, pos, negsuc, ◌||◌, if◌then◌else◌, List, [], ◌∷◌, ◌++◌, map, Option, none, some, Result, ok,
  fault, failed_assertion, missing_key, ◌>>=◌,
}
use mqss_passes_suite.Quake.Ops.{
  GateKind, x_op, y_op, z_op, h_op, s_op, t_op, rx_op, ry_op, rz_op, Value, Parameter, Gate,
  Operand, ref, veq, Op, operator, plain, measure, isa,
}
use mqss_passes_suite.Quake.Floats.{Floats, extract_double_argument_value}
use mqss_passes_suite.Quake.Query.{extract_index}
use mqss_passes_suite.Quake.Classical.{Bits, find, get_number_of_classical_bits}

-- `rotation` is `rx`, `ry` or `rz`, `single` is `x`, `y`, `z`, `s`, `t` or `h`, and `controlled` is
-- `cx`, `cy` or `cz` with its control and its target.
pub data Call (F : Type 0) : Type 0 where
  rotation : GateKind → F → ℕ → Call F
  single : GateKind → ℕ → Call F
  controlled : GateKind → ℕ → ℕ → Call F
  measure_bit : ℕ → ℕ → Call F
  measure_all : Call F

-- `op->getOperands()` of a gate: its parameters, its controls, its targets.
pub data Argument (F : Type 0) : Type 0 where
  parameter : Parameter F → Argument F
  qubit : Value → Argument F

-- An index that an assertion says is not -1.
unfoldable pub asserted : ℤ → Result ℕ
asserted (pos q) = ok q
asserted (negsuc n) = fault failed_assertion

-- `measurements.at(qubit)`
unfoldable pub at_qubit : Option ℕ → Result ℕ
at_qubit none = fault missing_key
at_qubit (some b) = ok b

module _ {F : Type 0} where
  unfoldable pub get_operands : Gate F → List (Argument F)
  get_operands g = map parameter g.parameters ++ (map qubit g.controls ++ map qubit g.targets)

  -- extractIndexFromQuakeExtractRefOp on an operand.
  unfoldable pub index_of : Argument F → ℤ
  unfolding extract_index
  index_of (parameter p) = negsuc 0
  index_of (qubit v) = extract_index v

  -- The calls of loadXYZGatesToQC, and those of loadSTHGatesToQC.
  unfoldable pub load_x_y_z : GateKind → List (Argument F) → Result (List (Call F))
  unfolding asserted index_of
  load_x_y_z k (a ∷ b ∷ []) = asserted (index_of a) >>= λ control.
      asserted (index_of b) >>= λ target. ok (controlled k control target ∷ [])
  load_x_y_z k (a ∷ []) = asserted (index_of a) >>= λ q. ok (single k q ∷ [])
  load_x_y_z k _ = ok []

  unfoldable pub load_s_t_h : GateKind → List (Argument F) → Result (List (Call F))
  unfolding asserted index_of
  load_s_t_h k (a ∷ []) = asserted (index_of a) >>= λ q. ok (single k q ∷ [])
  load_s_t_h k _ = ok []

  unfoldable pub load_x_y_z_gates_to_qc : Gate F → Result (List (Call F))
  unfolding isa get_operands load_x_y_z
  load_x_y_z_gates_to_qc g =
      if isa x_op g || (isa y_op g || isa z_op g) then load_x_y_z g.kind (get_operands g) else ok []

  unfoldable pub load_s_t_h_gates_to_qc : Gate F → Result (List (Call F))
  unfolding isa get_operands load_s_t_h
  load_s_t_h_gates_to_qc g =
      if isa s_op g || (isa t_op g || isa h_op g) then load_s_t_h g.kind (get_operands g) else ok []

  -- The call for a measurement, whose one operand a measurement has to have.
  unfoldable pub load_measurements_to_qc : Bits → List Operand → Result (List (Call F))
  unfolding asserted at_qubit find extract_index
  load_measurements_to_qc measurements (ref v ∷ []) = asserted (extract_index v) >>= λ q.
      at_qubit (find q measurements) >>= λ b. ok (measure_bit q b ∷ [])
  load_measurements_to_qc measurements (veq n ∷ []) = ok (measure_all ∷ [])
  load_measurements_to_qc measurements _ = fault failed_assertion

module _ {F : Type 0} (fl : Floats F) where
  unfoldable pub double_of : Argument F → F
  unfolding extract_double_argument_value
  double_of (parameter p) = extract_double_argument_value fl p
  double_of (qubit v) = fl.of_int (negsuc 0)

  unfoldable pub load_rotation : GateKind → List (Argument F) → Result (List (Call F))
  unfolding double_of asserted index_of
  load_rotation k (a ∷ b ∷ []) =
      if fl.equal (double_of a) (fl.of_int (negsuc 0))
      then fault failed_assertion
      else (asserted (index_of b) >>= λ q. ok (rotation k (double_of a) q ∷ []))
  load_rotation k _ = fault failed_assertion

  unfoldable pub load_rotation_gates_to_qc : Gate F → Result (List (Call F))
  unfolding isa get_operands load_rotation
  load_rotation_gates_to_qc g =
      if isa rx_op g || (isa ry_op g || isa rz_op g)
      then load_rotation g.kind (get_operands g)
      else ok []

  -- The four calls of the walk on one operation.
  unfoldable pub load_op : Bits → Op F → Result (List (Call F))
  unfolding load_rotation_gates_to_qc load_x_y_z_gates_to_qc load_s_t_h_gates_to_qc
      load_measurements_to_qc
  load_op measurements (operator g) = load_rotation_gates_to_qc g >>= λ rotations.
      load_x_y_z_gates_to_qc g >>= λ paulis.
      load_s_t_h_gates_to_qc g >>= λ singles. ok (rotations ++ (paulis ++ singles))
  load_op measurements (plain (measure os)) = load_measurements_to_qc measurements os
  load_op measurements (plain n) = ok []

  -- The walk.
  unfoldable pub load_all : Bits → List (Op F) → Result (List (Call F))
  unfolding load_op
  load_all measurements [] = ok []
  load_all measurements (op ∷ ops) =
      load_op measurements op >>= λ calls. load_all measurements ops >>= λ rest. ok (calls ++ rest)

  -- The number of bits and the circuit, as runOnOperation has them before it calls the mapper.
  unfoldable pub load_circuit : List (Op F) → Result (ℕ × List (Call F))
  unfolding load_all get_number_of_classical_bits
  load_circuit circuit = get_number_of_classical_bits circuit >>= λ bits.
      load_all bits.1 circuit >>= λ calls. ok (bits.0, calls)
