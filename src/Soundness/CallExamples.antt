-- ===== src/Soundness/CallExamples.antt =====
-- The theorems on one call of a callback, and on the search, at small blocks.
use mqss_passes_suite.Base.{
  ℕ, ◌≡◌, ◌↔◌, refl, false, true, List, [], ◌∷◌, All, ok, fault, null_gate, use_after_erase, Post,
  arith, some,
}
use mqss_passes_suite.Quake.Ops.{GateKind, x_op, z_op, h_op, extract_ref, Gate, Op, operator}
use mqss_passes_suite.Quake.Query.{
  Found, get_previous_operation_on_target, get_next_operation_on_target, extract_index, on_qubit,
}
use mqss_passes_suite.Passes.Patterns.{
  is_compliant, pattern_switch, pattern_cancellation, erased, cancels,
}
use mqss_passes_suite.Passes.Transforms.{
  cancellation_double_cx, reduction_pattern, replace_conjugated,
}
use mqss_passes_suite.Semantics.Tableau.Identities.{tableau_model}
use mqss_passes_suite.Soundness.Shape.{IsPlaced, IsControlled, at_index}
use mqss_passes_suite.Soundness.Search.{gate_of, next-previous}
use mqss_passes_suite.Soundness.Walk.{Refines}
use mqss_passes_suite.Soundness.NullHandle.{
  WrongNeighbour, pattern_switch-null, WrongThird, replace_conjugated-null,
}
use mqss_passes_suite.Soundness.Cancel.{cancellation_double_cx_sound}
use mqss_passes_suite.Soundness.Reduction.{cx_call, reduction_pattern_use_after_erase}
use mqss_passes_suite.Soundness.Nearest.{IsFirst, previous-IsFirst}
use mqss_passes_suite.Semantics.Tableau.Local.{Tableau}
use mqss_passes_suite.Semantics.Run.{run}
use mqss_passes_suite.Passes.Walk.{on_gates, operations_on_quantum_kernel}
use mqss_passes_suite.Soundness.Unsound.{interrupted, cancellation_double_cx_unsound}

-- A gate on the first qubit, a controlled X on the first two, and a Hadamard gate on the third.
abbrev plain_gate : GateKind → Gate ℕ
plain_gate k = record {
  kind = k;
  is_adj = false;
  parameters = [];
  controls = [];
  targets = extract_ref 0 0 ∷ [];
}

abbrev cx_gate : Gate ℕ
cx_gate = record {
  kind = x_op;
  is_adj = false;
  parameters = [];
  controls = extract_ref 0 0 ∷ [];
  targets = extract_ref 0 1 ∷ [];
}

abbrev far_gate : Gate ℕ
far_gate = record {
  kind = h_op;
  is_adj = false;
  parameters = [];
  controls = [];
  targets = extract_ref 0 2 ∷ [];
}

abbrev block : List (Op ℕ)
block = operator far_gate ∷ operator cx_gate ∷ []

abbrev far_cx : Found ℕ
far_cx = record { between = operator far_gate ∷ []; gate = cx_gate; before = [] }

abbrev cx_gate-IsControlled : IsControlled x_op cx_gate
cx_gate-IsControlled = record {
  kind = refl;
  control = extract_ref 0 0;
  target = extract_ref 0 1;
  controls = refl;
  targets = refl;
}

cx_gate-IsPlaced : IsPlaced 0 (operator cx_gate)
cx_gate-IsPlaced = ((at_index 0, tt), (at_index 1, tt), ((λ e. cc, tt), tt))

block-IsPlaced : All (IsPlaced 0) block
block-IsPlaced = ((tt, (at_index 2, tt), tt), (cx_gate-IsPlaced, tt))

nearest_cx : get_previous_operation_on_target block (extract_ref 0 1) ≡ some far_cx
unfolding get_previous_operation_on_target
nearest_cx = refl

is_cx : is_compliant x_op 1 1 cx_gate ≡ true
unfolding is_compliant
is_cx = refl

not_on_control : on_qubit (extract_index (extract_ref 0 0)) far_gate ≡ false
unfolding on_qubit extract_index
not_on_control = refl

cancellation_double_cx_example :
    Post ⊥
      (Refines (tableau_model ℕ) 0 block (operator cx_gate))
      (cancellation_double_cx block cx_gate)
cancellation_double_cx_example =
    cancellation_double_cx_sound (tableau_model ℕ) 0 block cx_gate cx_gate-IsControlled
      block-IsPlaced cx_gate-IsPlaced far_cx is_cx nearest_cx (not_on_control, tt)

unsound_example :
    Post ⊥
      (λ kernel. ¬ (
        (s : Tableau)
        → run (tableau_model ℕ) kernel s ≡ run (tableau_model ℕ) (interrupted ℕ 0 0 1) s))
      (operations_on_quantum_kernel (on_gates cancellation_double_cx) (interrupted ℕ 0 0 1))
unsound_example = cancellation_double_cx_unsound ℕ 0 0 1 (λ e. ground arith)

nearest_example :
    IsFirst block
      (extract_index (extract_ref 0 1))
      (get_previous_operation_on_target block (extract_ref 0 1))
nearest_example = previous-IsFirst block (extract_ref 0 1)

null_example :
    (pattern_switch h_op x_op z_op h_op (operator (plain_gate z_op) ∷ []) (plain_gate x_op)
      ≡ fault null_gate)
    ↔ WrongNeighbour h_op x_op (operator (plain_gate z_op) ∷ []) (plain_gate x_op)
null_example =
    pattern_switch-null h_op x_op z_op h_op (operator (plain_gate z_op) ∷ []) (plain_gate x_op)

null_third_example :
    (replace_conjugated x_op z_op
        (operator (plain_gate x_op) ∷ operator (plain_gate z_op) ∷ [])
        (plain_gate h_op)
      ≡ fault null_gate)
    ↔ WrongThird x_op
        (operator (plain_gate x_op) ∷ operator (plain_gate z_op) ∷ [])
        (plain_gate h_op)
null_third_example =
    replace_conjugated-null x_op z_op (operator (plain_gate x_op) ∷ operator (plain_gate z_op) ∷ [])
      (plain_gate h_op)

cx_erased :
    pattern_cancellation x_op x_op 1 1 1 1 block cx_gate ≡ ok (erased (operator far_gate ∷ []))
unfolding pattern_cancellation cancels
cx_erased = refl

use_after_erase_example : reduction_pattern block cx_gate ≡ fault use_after_erase
use_after_erase_example =
    reduction_pattern_use_after_erase block cx_gate cx_call (operator far_gate ∷ []) cx_erased

next_example :
    get_next_operation_on_target block (extract_ref 0 1)
    ≡ gate_of (get_previous_operation_on_target block (extract_ref 0 1))
next_example = next-previous block (extract_ref 0 1)
