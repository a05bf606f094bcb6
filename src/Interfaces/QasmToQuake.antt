-- ===== src/Interfaces/QasmToQuake.antt =====
-- lib/Interfaces/QASMToQuake.cpp: the operations that a QASM program inserts in a kernel, in
-- order. A vector of qubits is named by a number, `QASMVectorToQuakeVector` is a list of pairs.
use mqss_passes_suite.Base.{
  ℕ, zero, suc, Bool, true, false, ◌==◌, if◌then◌else◌, List, [], ◌∷◌, none, some, Result, ok,
  fault, failed_assertion, missing_key, ◌>>=◌,
}
use mqss_passes_suite.Quake.Ops.{Value, extract_ref}
use mqss_passes_suite.Interfaces.GatesMap.{
  GateId, cx_id, big_cx_id, cy_id, cz_id, ch_id, ccx_id, cswap_id, crx_id, cry_id, cp_id, cphase_id,
  cu1_id, cu3_id, sdg_id, tdg_id, sxdg_id, iswapdg_id,
}
use mqss_passes_suite.Interfaces.Qasm.{QubitRef, Modifier, ctrl, other_modifier}

-- isMultiQubitGate
unfoldable pub is_multi_qubit_gate : GateId → Bool
is_multi_qubit_gate cx_id = true
is_multi_qubit_gate cy_id = true
is_multi_qubit_gate cz_id = true
is_multi_qubit_gate ch_id = true
is_multi_qubit_gate ccx_id = true
is_multi_qubit_gate cswap_id = true
is_multi_qubit_gate crx_id = true
is_multi_qubit_gate cry_id = true
is_multi_qubit_gate cp_id = true
is_multi_qubit_gate cphase_id = true
is_multi_qubit_gate big_cx_id = true
is_multi_qubit_gate cu1_id = true
is_multi_qubit_gate cu3_id = true
is_multi_qubit_gate _ = false

-- getNumControls
unfoldable pub get_num_controls : GateId → ℕ
get_num_controls cx_id = 1
get_num_controls big_cx_id = 1
get_num_controls cy_id = 1
get_num_controls crx_id = 1
get_num_controls cry_id = 1
get_num_controls cp_id = 1
get_num_controls cphase_id = 1
get_num_controls cz_id = 1
get_num_controls cu1_id = 1
get_num_controls cu3_id = 1
get_num_controls ch_id = 1
get_num_controls ccx_id = 2
get_num_controls cswap_id = 1
get_num_controls _ = 0

-- Whether the identifier contains "dg".
unfoldable pub has_dg : GateId → Bool
has_dg sdg_id = true
has_dg tdg_id = true
has_dg sxdg_id = true
has_dg iswapdg_id = true
has_dg _ = false

-- The names of the registers with the vectors that stand for them.
abbrev pub QasmVectors : Type 0
QasmVectors = List (ℕ × ℕ)

-- `QASMToVectors.at`
unfoldable pub at_name : ℕ → QasmVectors → Result ℕ
at_name name [] = fault missing_key
at_name name (v ∷ vs) = let rest = at_name name vs in if v.0 == name then ok v.1 else rest

-- The loop over the modifiers: the number it reads goes to a variable of the loop, so that the
-- one outside of it keeps its value.
unfoldable pub modifier_controls : ℕ → List Modifier → ℕ
modifier_controls num_controls [] = num_controls
modifier_controls num_controls (ctrl (some inner) ∷ ms) = num_controls
modifier_controls num_controls (ctrl none ∷ ms) = modifier_controls num_controls ms
modifier_controls num_controls (other_modifier ∷ ms) = modifier_controls num_controls ms

-- The number of operands that are controls.
unfoldable pub controls_of_call : GateId → List Modifier → ℕ
unfolding modifier_controls is_multi_qubit_gate get_num_controls
controls_of_call gate_id modifiers =
    let num_controls = modifier_controls 0 modifiers in
    if num_controls == 0
    then if is_multi_qubit_gate gate_id then get_num_controls gate_id else num_controls
    else num_controls

-- The qubit of an operand, as a vector and an index.
unfoldable pub qubit_of : QasmVectors → QubitRef → Result (ℕ × ℕ)
unfolding at_name
qubit_of vectors q = elim q.index [
  | none ↦ fault failed_assertion
  | some i ↦ at_name q.identifier vectors >>= λ v. ok (v, i)
]

unfoldable pub qubits_of : QasmVectors → List QubitRef → Result (List (ℕ × ℕ))
unfolding qubit_of
qubits_of vectors [] = ok []
qubits_of vectors (q ∷ qs) =
    let rest = qubits_of vectors qs in qubit_of vectors q >>= λ p. rest >>= λ ps. ok (p ∷ ps)

-- The first `num_controls` operands, and the others.
unfoldable pub controls_part : ℕ → List (ℕ × ℕ) → List Value
controls_part zero ps = []
controls_part (suc n) [] = []
controls_part (suc n) (p ∷ ps) = extract_ref p.0 p.1 ∷ controls_part n ps

unfoldable pub targets_part : ℕ → List (ℕ × ℕ) → List Value
targets_part n [] = []
targets_part zero (p ∷ ps) = extract_ref p.0 p.1 ∷ targets_part zero ps
targets_part (suc n) (p ∷ ps) = targets_part n ps
