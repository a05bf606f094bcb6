-- ===== src/Semantics/Laws.antt =====
-- Identities of circuits that follow from the laws of a model.
use mqss_passes_suite.Base.{◌≡◌, ◌≢◌, sym, [], ◌∷◌}
use mqss_passes_suite.Quake.Ops.{Value}
use mqss_passes_suite.Semantics.Model.{Model, Unitary, pauli_x, pauli_z, hadamard}

module _ {F : Type 0} (m : Model F) where
  open m use {State, apply, commute, h_h, h_x_h, z_z, x_x, cx_h_cz_h, cz_symm, cz_cz, cz_z}

  abbrev pub on : Unitary F → Value → State → State
  on u q = apply u [] (q ∷ [])

  abbrev pub controlled : Unitary F → Value → Value → State → State
  controlled u c t = apply u (c ∷ []) (t ∷ [])

  pub on_comm :
      (u v : Unitary F) (p q : Value) (s : State) → p ≢ q → on u p (on v q s) ≡ on v q (on u p s)
  on_comm u v p q s ne = commute u v [] (p ∷ []) [] (q ∷ []) s tt tt (tt, tt) ((ne, tt), tt)

  pub x_h :
      (q : Value) (s : State) → on pauli_x q (on hadamard q s) ≡ on hadamard q (on pauli_z q s)
  x_h q s = cc (h_x_h q s, h_h q (on pauli_x q (on hadamard q s)))

  pub z_h :
      (q : Value) (s : State) → on pauli_z q (on hadamard q s) ≡ on hadamard q (on pauli_x q s)
  z_h q s = cc (h_x_h q (on hadamard q s), h_h q s)

  module _ (c t : Value) (ne : c ≢ t) (s : State) where
    pub cz_h_cx_h :
        controlled pauli_z c t s ≡ on hadamard t (controlled pauli_x c t (on hadamard t s))
    cz_h_cx_h = cc (cx_h_cz_h c t (on hadamard t s) ne, h_h t s, h_h t (controlled pauli_z c t s))

    -- A controlled X with its control and target exchanged.
    pub cx_reversed :
        controlled pauli_x c t s
        ≡ on hadamard c (on hadamard t (controlled pauli_x t c (on hadamard c (on hadamard t s))))
    cx_reversed = cc (
      cx_h_cz_h c t s ne,
      cz_symm c t (on hadamard t s) ne,
      cx_h_cz_h t c (on hadamard c (on hadamard t s)) (λ e. ne (sym e)),
      h_h c (on hadamard t s),
      on_comm hadamard hadamard c t (on hadamard c (controlled pauli_z t c (on hadamard t s))) ne,
      h_h c (controlled pauli_z t c (on hadamard t s)),
    )

    pub cx_cx : controlled pauli_x c t (controlled pauli_x c t s) ≡ s
    cx_cx = cc (
      cx_h_cz_h c t s ne,
      cx_h_cz_h c t (controlled pauli_x c t s) ne,
      h_h t (controlled pauli_z c t (on hadamard t s)),
      cz_cz c t (on hadamard t s) ne,
      h_h t s,
    )

    -- X on the target, and Z on the control, pass a controlled X.
    pub cx_x : controlled pauli_x c t (on pauli_x t s) ≡ on pauli_x t (controlled pauli_x c t s)
    cx_x = cc (
      cx_h_cz_h c t s ne,
      cx_h_cz_h c t (on pauli_x t s) ne,
      z_h t s,
      cz_z c t (on hadamard t s) ne,
      x_h t (controlled pauli_z c t (on hadamard t s)),
    )

    pub cx_z : controlled pauli_x c t (on pauli_z c s) ≡ on pauli_z c (controlled pauli_x c t s)
    cx_z = cc (
      cx_h_cz_h c t s ne,
      cx_h_cz_h c t (on pauli_z c s) ne,
      on_comm hadamard pauli_z t c s (λ e. ne (sym e)),
      cz_symm c t (on pauli_z c (on hadamard t s)) ne,
      cz_z t c (on hadamard t s) (λ e. ne (sym e)),
      cz_symm c t (on hadamard t s) ne,
      on_comm hadamard pauli_z t c (controlled pauli_z c t (on hadamard t s)) (λ e. ne (sym e)),
    )
