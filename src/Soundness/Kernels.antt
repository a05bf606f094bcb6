-- ===== src/Soundness/Kernels.antt =====
-- The passes on a whole kernel. A kernel is a list `body` of operations on one vector of qubits,
-- with no measurement among them, and a list `tail` with no gate. The meaning is
-- taken in a model of the gates that is a parameter.
use mqss_passes_suite.Base.{ℕ, ◌≡◌, Bool, List, ◌++◌, All, Result, Post}
use mqss_passes_suite.Quake.Ops.{Gate, Op, x_op, y_op, z_op, h_op}
use mqss_passes_suite.Passes.Walk.{on_gates, operations_on_quantum_kernel}
use mqss_passes_suite.Passes.Transforms.{
  switch_pauli_h_operation, commute_z_c_not, commute_rx_cx, commute_x_cx, replace_h_x_h_to_z,
  replace_h_z_h_to_x, SwitchPass, h_x, h_y, h_z, x_h, y_h, z_h, switch_callback,
}
use mqss_passes_suite.Passes.Decompositions.{
  cx_to_h_cz_h_pattern, replace_cz_to_h_cx_h, reverse_c_not, join_z,
}
use mqss_passes_suite.Semantics.Model.{Model}
use mqss_passes_suite.Semantics.Run.{run}
use mqss_passes_suite.Soundness.Shape.{IsPlaced}
use mqss_passes_suite.Soundness.Walk.{IsPlain, Keeps, kernel_sound}
use mqss_passes_suite.Soundness.Switch.{
  pattern_switch-Keeps, h_x-Switches, h_y-Switches, h_z-Switches, x_h-Switches, y_h-Switches,
  z_h-Switches,
}
use mqss_passes_suite.Soundness.PauliH.{switch_pauli_h-Keeps, join_z-Keeps}
use mqss_passes_suite.Soundness.Conjugate.{replace_conjugated-Keeps, x-Conjugates, z-Conjugates}
use mqss_passes_suite.Soundness.Decompose.{
  cx_to_h_cz_h-Keeps, cz_to_h_cx_h-Keeps, reverse_c_not-Keeps,
}
use mqss_passes_suite.Soundness.Commute.{
  commute_z_c_not-Keeps, commute_rx_cx-Keeps, commute_x_cx-Keeps,
}

module _ {F : Type 0} (m : Model F) where
  -- The pass with this callback gives a kernel with the meaning of `kernel`.
  abbrev pub KeepsMeaning :
      Type 0 → (List (Op F) → Gate F → Result (List (Op F))) → List (Op F) → Type 0
  KeepsMeaning W callback kernel =
      Post W (λ kernel'. (s : m.State) → run m kernel' s ≡ run m kernel s)
        (operations_on_quantum_kernel (on_gates callback) kernel)

module _ {F : Type 0} (m : Model F) (r : ℕ) (body tail : List (Op F))
    (placed : All (IsPlaced r) body) (plain_tail : All IsPlain tail) where
  -- CxToHCzH returns a kernel with the same meaning, in every model of the gates, on a kernel whose
  -- gates are on one vector of qubits, have their controls apart from their targets, and stand
  -- before its measurements and calls.
  pub cx_to_h_cz_h_sound : KeepsMeaning m ⊥ cx_to_h_cz_h_pattern (body ++ tail)
  cx_to_h_cz_h_sound =
      kernel_sound m r ⊥ cx_to_h_cz_h_pattern (cx_to_h_cz_h-Keeps m r) body tail placed plain_tail

  -- CzToHCxH returns a kernel with the same meaning, in every model of the gates, on a kernel whose
  -- gates are on one vector of qubits, have their controls apart from their targets, and stand
  -- before its measurements and calls.
  pub cz_to_h_cx_h_sound : KeepsMeaning m ⊥ replace_cz_to_h_cx_h (body ++ tail)
  cz_to_h_cx_h_sound =
      kernel_sound m r ⊥ replace_cz_to_h_cx_h (cz_to_h_cx_h-Keeps m r) body tail placed plain_tail

  -- ReverseCx returns a kernel with the same meaning, in every model of the gates, on a kernel
  -- whose gates are on one vector of qubits, have their controls apart from their targets, and
  -- stand before its measurements and calls.
  pub reverse_c_not_sound : KeepsMeaning m ⊥ reverse_c_not (body ++ tail)
  reverse_c_not_sound =
      kernel_sound m r ⊥ reverse_c_not (reverse_c_not-Keeps m r) body tail placed plain_tail

  -- SAdjToS (for `adj` true) and SToSAdj (for `adj` false) return a kernel with the same meaning,
  -- in every model of the gates, on a kernel whose gates are on one vector of qubits, have their
  -- controls apart from their targets, and stand before its measurements and calls.
  pub join_z_sound : (adj : Bool) → KeepsMeaning m ⊥ (join_z adj) (body ++ tail)
  join_z_sound adj =
      kernel_sound m r ⊥ (join_z adj) (join_z-Keeps m r adj) body tail placed plain_tail

  -- SwitchPauliH returns a kernel with the same meaning, in every model of the gates, on a kernel
  -- whose gates are on one vector of qubits, have their controls apart from their targets, and
  -- stand before its measurements and calls.
  pub switch_pauli_h_sound : KeepsMeaning m ⊥ switch_pauli_h_operation (body ++ tail)
  switch_pauli_h_sound =
      kernel_sound m r ⊥ switch_pauli_h_operation (switch_pauli_h-Keeps m r) body tail placed
        plain_tail

  -- CommuteZCx returns a kernel with the same meaning, in every model of the gates, on a kernel
  -- whose gates are on one vector of qubits, have their controls apart from their targets, and
  -- stand before its measurements and calls.
  pub commute_z_c_not_sound : KeepsMeaning m ⊥ commute_z_c_not (body ++ tail)
  commute_z_c_not_sound =
      kernel_sound m r ⊥ commute_z_c_not (commute_z_c_not-Keeps m r) body tail placed plain_tail

  -- CommuteRxCx returns a kernel with the same meaning, in every model of the gates, on a kernel
  -- whose gates are on one vector of qubits, have their controls apart from their targets, and
  -- stand before its measurements and calls.
  pub commute_rx_cx_sound : KeepsMeaning m ⊥ commute_rx_cx (body ++ tail)
  commute_rx_cx_sound =
      kernel_sound m r ⊥ commute_rx_cx (commute_rx_cx-Keeps m r) body tail placed plain_tail

  -- CommuteXCx returns a kernel with the same meaning, in every model of the gates, on a kernel
  -- whose gates are on one vector of qubits, have their controls apart from their targets, and
  -- stand before its measurements and calls.
  pub commute_x_cx_sound : KeepsMeaning m ⊥ commute_x_cx (body ++ tail)
  commute_x_cx_sound =
      kernel_sound m r ⊥ commute_x_cx (commute_x_cx-Keeps m r) body tail placed plain_tail

  -- HXHToZ, where it does not read a null handle, returns a kernel with the same meaning, in every
  -- model of the gates, on a kernel whose gates are on one vector of qubits, have their controls
  -- apart from their targets, and stand before its measurements and calls.
  pub replace_h_x_h_to_z_sound : KeepsMeaning m (Unit {0}) replace_h_x_h_to_z (body ++ tail)
  unfolding replace_h_x_h_to_z
  replace_h_x_h_to_z_sound =
      kernel_sound m r (Unit {0}) replace_h_x_h_to_z
        (replace_conjugated-Keeps m r x_op z_op (x-Conjugates m)) body tail placed plain_tail

  -- HZHToX, where it does not read a null handle, returns a kernel with the same meaning, in every
  -- model of the gates, on a kernel whose gates are on one vector of qubits, have their controls
  -- apart from their targets, and stand before its measurements and calls.
  pub replace_h_z_h_to_x_sound : KeepsMeaning m (Unit {0}) replace_h_z_h_to_x (body ++ tail)
  unfolding replace_h_z_h_to_x
  replace_h_z_h_to_x_sound =
      kernel_sound m r (Unit {0}) replace_h_z_h_to_x
        (replace_conjugated-Keeps m r z_op x_op (z-Conjugates m)) body tail placed plain_tail

  pub switch-Keeps : (p : SwitchPass) → Keeps m r (Unit {0}) (switch_callback p)
  unfolding switch_callback
  switch-Keeps h_x = pattern_switch-Keeps m r h_op x_op z_op h_op (h_x-Switches m)
  switch-Keeps h_y = pattern_switch-Keeps m r h_op y_op y_op h_op (h_y-Switches m)
  switch-Keeps h_z = pattern_switch-Keeps m r h_op z_op x_op h_op (h_z-Switches m)
  switch-Keeps x_h = pattern_switch-Keeps m r x_op h_op h_op z_op (x_h-Switches m)
  switch-Keeps y_h = pattern_switch-Keeps m r y_op h_op h_op y_op (y_h-Switches m)
  switch-Keeps z_h = pattern_switch-Keeps m r z_op h_op h_op x_op (z_h-Switches m)
