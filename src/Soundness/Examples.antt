-- ===== src/Soundness/Examples.antt =====
-- Runs of the passes on small kernels, and the theorems at such kernels.
use mqss_passes_suite.Base.{ℕ, ◌≡◌, refl, true, false, List, [], ◌∷◌, ◌++◌, All, ok}
use mqss_passes_suite.Quake.Ops.{
  GateKind, x_op, z_op, h_op, s_op, rx_op, Value, extract_ref, constant, Op, operator, plain,
  measure, ref,
}
use mqss_passes_suite.Passes.Walk.{on_gates, operations_on_quantum_kernel}
use mqss_passes_suite.Passes.Transforms.{
  reduction_pattern, commute_z_c_not, replace_h_x_h_to_z, h_x, switch_callback,
}
use mqss_passes_suite.Passes.Patterns.{pattern_cancellation, cancels}
use mqss_passes_suite.Passes.Decompositions.{create, reverse_c_not, join_z}
use mqss_passes_suite.Soundness.Shape.{IsPlaced, at_index}
use mqss_passes_suite.Soundness.Walk.{IsPlain}

abbrev q0 : Value
q0 = extract_ref 0 0

abbrev q1 : Value
q1 = extract_ref 0 1

-- A plain gate on the first qubit, and a controlled one on both.
abbrev single : GateKind → Op ℕ
single k = create k [] q0

abbrev controlled : GateKind → Op ℕ
controlled k = create k (q0 ∷ []) q1

abbrev on_target : GateKind → Op ℕ
on_target k = create k [] q1

abbrev tail : List (Op ℕ)
tail = plain (measure (ref q0 ∷ [])) ∷ []

tail-IsPlain : All IsPlain tail
tail-IsPlain = (tt, tt)

single-IsPlaced : (k : GateKind) → IsPlaced 0 (single k)
single-IsPlaced k = (tt, (at_index 0, tt), tt)

on_target-IsPlaced : (k : GateKind) → IsPlaced 0 (on_target k)
on_target-IsPlaced k = (tt, (at_index 1, tt), tt)

controlled-IsPlaced : (k : GateKind) → IsPlaced 0 (controlled k)
controlled-IsPlaced k = ((at_index 0, tt), (at_index 1, tt), ((λ e. cc, tt), tt))

abbrev s_adj : Op ℕ
s_adj =
    operator
      (record { kind = s_op; is_adj = true; parameters = []; controls = []; targets = q0 ∷ [] })

s_adj-IsPlaced : IsPlaced 0 s_adj
s_adj-IsPlaced = (tt, (at_index 0, tt), tt)

abbrev rx_gate : Op ℕ
rx_gate = operator (record {
  kind = rx_op;
  is_adj = false;
  parameters = constant 7 ∷ [];
  controls = [];
  targets = q1 ∷ [];
})

rx_gate-IsPlaced : IsPlaced 0 rx_gate
rx_gate-IsPlaced = (tt, (at_index 1, tt), tt)

abbrev cx_body : List (Op ℕ)
cx_body = controlled x_op ∷ single h_op ∷ []

cx_body-IsPlaced : All (IsPlaced 0) cx_body
cx_body-IsPlaced = (controlled-IsPlaced x_op, (single-IsPlaced h_op, tt))

abbrev s_adj_body : List (Op ℕ)
s_adj_body = s_adj ∷ single z_op ∷ []

abbrev z_cx_body : List (Op ℕ)
z_cx_body = single z_op ∷ controlled x_op ∷ []

z_cx_body-IsPlaced : All (IsPlaced 0) z_cx_body
z_cx_body-IsPlaced = (single-IsPlaced z_op, (controlled-IsPlaced x_op, tt))

abbrev h_x_h_body : List (Op ℕ)
h_x_h_body = single h_op ∷ single x_op ∷ single h_op ∷ []

abbrev h_x_body : List (Op ℕ)
h_x_body = single h_op ∷ single x_op ∷ []

h_x_body-IsPlaced : All (IsPlaced 0) h_x_body
h_x_body-IsPlaced = (single-IsPlaced h_op, (single-IsPlaced x_op, tt))

abbrev h_h_body : List (Op ℕ)
h_h_body = single h_op ∷ single h_op ∷ []

h_h_body-IsPlaced : All (IsPlaced 0) h_h_body
h_h_body-IsPlaced = (single-IsPlaced h_op, (single-IsPlaced h_op, tt))

-- What the passes return on these kernels.
run_reverse_c_not :
    operations_on_quantum_kernel (on_gates reverse_c_not) (cx_body ++ tail)
    ≡ ok (
        on_target h_op
        ∷ single h_op
        ∷ create x_op (q1 ∷ []) q0
        ∷ on_target h_op
        ∷ single h_op
        ∷ single h_op
        ∷ tail)
unfolding operations_on_quantum_kernel on_gates reverse_c_not
run_reverse_c_not = refl

run_replace_h_x_h_to_z :
    operations_on_quantum_kernel (on_gates replace_h_x_h_to_z) (h_x_h_body ++ tail)
    ≡ ok (single z_op ∷ tail)
unfolding operations_on_quantum_kernel on_gates replace_h_x_h_to_z
run_replace_h_x_h_to_z = refl

run_commute_z_c_not :
    operations_on_quantum_kernel (on_gates commute_z_c_not) (z_cx_body ++ tail)
    ≡ ok (controlled x_op ∷ single z_op ∷ tail)
unfolding operations_on_quantum_kernel on_gates commute_z_c_not
run_commute_z_c_not = refl

run_join_z :
    operations_on_quantum_kernel (on_gates (join_z true)) (s_adj_body ++ tail)
    ≡ ok (create s_op [] q0 ∷ tail)
unfolding operations_on_quantum_kernel on_gates join_z
run_join_z = refl

run_reduction_pattern :
    operations_on_quantum_kernel (on_gates reduction_pattern) (h_h_body ++ tail) ≡ ok tail
unfolding operations_on_quantum_kernel on_gates reduction_pattern pattern_cancellation cancels
run_reduction_pattern = refl

run_switch_h_x :
    operations_on_quantum_kernel (on_gates (switch_callback h_x)) (h_x_body ++ tail)
    ≡ ok (single z_op ∷ single h_op ∷ tail)
unfolding operations_on_quantum_kernel on_gates switch_callback
run_switch_h_x = refl
