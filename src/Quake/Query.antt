-- ===== src/Quake/Query.antt =====
-- lib/Support/CodeGen/Quake/QuakeOperations.cpp: what the passes read off a kernel.
use mqss_passes_suite.Base.{
  ℕ, ◌+◌, ℤ, pos, negsuc, ◌==ℤ◌, Bool, false, ◌||◌, if◌then◌else◌, List, [], ◌∷◌, map, Option, none,
  some, Result, ok, fault, out_of_range,
}
use mqss_passes_suite.Quake.Ops.{
  Value, extract_ref, result, Gate, Op, operator, plain, alloca_ref, alloca_veq,
}

-- extractIndexFromQuakeExtractRefOp: the raw index, or -1 if another operation defines the value.
unfoldable pub extract_index : Value → ℤ
extract_index (extract_ref v i) = pos i
extract_index (result n) = negsuc 0

-- getIndicesOfValueRange
unfoldable pub get_indices_of_value_range : List Value → List ℤ
unfolding extract_index
get_indices_of_value_range array = map extract_index array

-- `targets[0]`
unfoldable pub first_value : List Value → Result Value
first_value [] = fault out_of_range
first_value (q ∷ qs) = ok q

-- The loop over the targets, or over the controls, of one operation.
unfoldable pub any_index : ℤ → List Value → Bool
any_index i [] = false
any_index i (q ∷ qs) = i ==ℤ extract_index q || any_index i qs

-- The operation that a search finds, and the operations on both sides of it. The lists are in
-- reverse program order: the head of `between` is the operation before the current one.
pub record Found (F : Type 0) : Type 0 where
  pub between : List (Op F)
  pub gate : Gate F
  pub before : List (Op F)

module _ {F : Type 0} where
  unfoldable pub on_qubit : ℤ → Gate F → Bool
  unfolding any_index
  on_qubit i g = any_index i g.targets || any_index i g.controls

  abbrev pub skip : Op F → Option (Found F) → Option (Found F)
  skip op none = none
  skip op (some r) = some (record r { between = op ∷ r.between })

  -- getPreviousOperationOnTarget, on the operations before the current one, the last first.
  unfoldable pub get_previous_operation_on_target : List (Op F) → Value → Option (Found F)
  unfolding on_qubit extract_index
  get_previous_operation_on_target [] target_qubit = none
  get_previous_operation_on_target (plain n ∷ ops) target_qubit =
      skip (plain n) (get_previous_operation_on_target ops target_qubit)
  get_previous_operation_on_target (operator g ∷ ops) target_qubit =
      if on_qubit (extract_index target_qubit) g
      then some (record { between = []; gate = g; before = ops })
      else skip (operator g) (get_previous_operation_on_target ops target_qubit)

  -- getNextOperationOnTarget, on the operations after the current one, the first first.
  unfoldable pub get_next_operation_on_target : List (Op F) → Value → Option (Gate F)
  unfolding on_qubit extract_index
  get_next_operation_on_target [] target_qubit = none
  get_next_operation_on_target (plain n ∷ ops) target_qubit =
      get_next_operation_on_target ops target_qubit
  get_next_operation_on_target (operator g ∷ ops) target_qubit =
      if on_qubit (extract_index target_qubit) g
      then some g
      else get_next_operation_on_target ops target_qubit

  -- What an allocation adds to the count.
  unfoldable pub allocated : Op F → ℕ
  allocated (plain alloca_ref) = 1
  allocated (plain (alloca_veq n)) = n
  allocated _ = 0

  -- getNumberOfQubits
  unfoldable pub get_number_of_qubits : List (Op F) → ℕ
  unfolding allocated
  get_number_of_qubits [] = 0
  get_number_of_qubits (op ∷ ops) = allocated op + get_number_of_qubits ops
