-- ===== src/Soundness/PipelineExamples.antt =====
-- Two passes on a kernel of two entangled qubits, in the model of Pauli strings.
use mqss_passes_suite.Base.{true, false, ℕ, refl, ◌≢◌, List, [], ◌∷◌, All, Post}
use mqss_passes_suite.Quake.Ops.{x_op, z_op, extract_ref, Op, operator, plain, alloca_veq}
use mqss_passes_suite.Quake.Examples.{h_gate, cx_gate, measured, bell}
use mqss_passes_suite.Passes.Walk.{on_gates, operations_on_quantum_kernel}
use mqss_passes_suite.Passes.Decompositions.{cx_to_h_cz_h_pattern, replace_cz_to_h_cx_h}
use mqss_passes_suite.Semantics.Tableau.Identities.{tableau_model}
use mqss_passes_suite.Soundness.Shape.{at_index}
use mqss_passes_suite.Soundness.Eliminated.{IsOther, decompositions-IsOther}
use mqss_passes_suite.Soundness.Module.{IsFaithful}
use mqss_passes_suite.Soundness.Optimizer.{IsPassable, run_passes, run_passes-IsFaithful}
use mqss_passes_suite.Passes.Module.{Function}
use mqss_passes_suite.Soundness.Steps.{
  reverse_cx, cx_to_h_cz_h, cz_to_h_cx_h, total, total_callback, Step, pass, here, next, IsKernel,
}
use mqss_passes_suite.Soundness.Pipeline.{IsSame, total_pass_sound, passes_sound}

abbrev bell_body : List (Op ℕ)
bell_body = plain (alloca_veq 2) ∷ operator (h_gate 0) ∷ operator (cx_gate 0 1) ∷ []

abbrev bell_tail : List (Op ℕ)
bell_tail = measured 1 ∷ measured 0 ∷ []

apart : extract_ref 0 0 ≢ extract_ref 0 1
apart e = cc

bell-IsKernel : IsKernel 0 bell
bell-IsKernel = record {
  body = bell_body;
  tail = bell_tail;
  parts = refl;
  placed = (
    tt,
    ((tt, (at_index 0, tt), tt), (((at_index 0, tt), (at_index 1, tt), ((apart, tt), tt)), tt)),
  );
  plain_tail = (tt, (tt, tt));
}

total_pass_example :
    Post ⊥
      (IsSame (tableau_model ℕ) 0 bell)
      (operations_on_quantum_kernel (on_gates (total_callback cx_to_h_cz_h)) bell)
total_pass_example = total_pass_sound (tableau_model ℕ) 0 cx_to_h_cz_h bell bell-IsKernel

abbrev bell_with_cz : List (Op ℕ)
bell_with_cz =
    plain (alloca_veq 2)
    ∷ operator (h_gate 0)
    ∷ operator (h_gate 1)
    ∷ operator (record (cx_gate 1 0) { kind = z_op })
    ∷ operator (h_gate 1)
    ∷ bell_tail

abbrev bell_reversed : List (Op ℕ)
bell_reversed =
    plain (alloca_veq 2)
    ∷ operator (h_gate 0)
    ∷ operator (h_gate 1)
    ∷ operator (h_gate 0)
    ∷ operator (cx_gate 1 0)
    ∷ operator (h_gate 0)
    ∷ operator (h_gate 1)
    ∷ bell_tail

first-Step : Step bell bell_with_cz
unfolding operations_on_quantum_kernel on_gates cx_to_h_cz_h_pattern
first-Step = pass (total cx_to_h_cz_h) refl

second-Step : Step bell_with_cz bell_reversed
unfolding operations_on_quantum_kernel on_gates replace_cz_to_h_cx_h
second-Step = pass (total cz_to_h_cx_h) refl

passes_example : IsSame (tableau_model ℕ) 0 bell bell_reversed
passes_example =
    passes_sound (tableau_model ℕ) 0 bell-IsKernel (next (next here first-Step) second-Step)

decompositions_example :
    Post ⊥ (All (IsOther x_op)) (operations_on_quantum_kernel (on_gates cx_to_h_cz_h_pattern) bell)
    × Post ⊥
        (All (IsOther z_op))
        (operations_on_quantum_kernel (on_gates replace_cz_to_h_cx_h) bell)
decompositions_example = decompositions-IsOther bell

-- A module of one kernel and one function that is none.
abbrev bell_module : List (Function ℕ)
bell_module =
    record { is_entry_point = true; has_quantum_argument = false; body = bell }
    ∷ record { is_entry_point = false; has_quantum_argument = false; body = [] }
    ∷ []

bell_module-IsPassable : All IsPassable bell_module
bell_module-IsPassable = (
  λ _. (0, bell-IsKernel),
  (λ _. (0, record { body = []; tail = []; parts = refl; placed = tt; plain_tail = tt }), tt),
)

optimizer_example :
    Post ⊥
      (IsFaithful (tableau_model ℕ) bell_module)
      (run_passes (cx_to_h_cz_h ∷ cz_to_h_cx_h ∷ reverse_cx ∷ []) bell_module)
optimizer_example =
    run_passes-IsFaithful (tableau_model ℕ) cx_to_h_cz_h (cz_to_h_cx_h ∷ reverse_cx ∷ [])
      bell_module bell_module-IsPassable
