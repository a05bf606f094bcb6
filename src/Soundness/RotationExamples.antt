-- ===== src/Soundness/RotationExamples.antt =====
-- CancellationNullRotation and NormalizeArgAngle on a kernel of two rotations, in the model of
-- Pauli strings, on which rotations do nothing. The numbers have 8 for a full turn.
use mqss_passes_suite.Base.{ℕ, ◌≡◌, refl, false, List, [], ◌∷◌, ok}
use mqss_passes_suite.Quake.Ops.{rx_op, constant, Op, operator, plain, arith_constant, extract_ref}
use mqss_passes_suite.Quake.Examples.{numbers, h_gate}
use mqss_passes_suite.Passes.Walk.{on_gates, operations_on_quantum_kernel}
use mqss_passes_suite.Passes.Rotations.{null_rotation_cancellation, normalize_kernel}
use mqss_passes_suite.Semantics.Model.{Model}
use mqss_passes_suite.Semantics.Tableau.Identities.{tableau_model}

abbrev rx_by : ℕ → Op ℕ
rx_by a = operator (record {
  kind = rx_op;
  is_adj = false;
  parameters = constant a ∷ [];
  controls = [];
  targets = extract_ref 0 0 ∷ [];
})

abbrev turns : List (Op ℕ)
turns = rx_by 8 ∷ operator (h_gate 0) ∷ rx_by 11 ∷ []

null_turns :
    operations_on_quantum_kernel (on_gates (null_rotation_cancellation numbers)) turns
    ≡ ok (operator (h_gate 0) ∷ rx_by 11 ∷ [])
unfolding operations_on_quantum_kernel on_gates null_rotation_cancellation
null_turns = refl

whole_turns :
    normalize_kernel numbers turns
    ≡ ok (
        plain (arith_constant 0)
        ∷ plain (arith_constant 3)
        ∷ rx_by 0
        ∷ operator (h_gate 0)
        ∷ rx_by 3
        ∷ [])
unfolding normalize_kernel operations_on_quantum_kernel on_gates
whole_turns = refl

abbrev pauli_strings : Model ℕ
pauli_strings = tableau_model ℕ

-- Any two angles may be taken for the same there.
abbrev Any : ℕ → ℕ → Type 0
Any a b = Unit
