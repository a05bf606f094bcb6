-- ===== src/Semantics/Tableau/Identities.antt =====
-- The circuit identities on Pauli strings, and the tableau as a model.
use mqss_passes_suite.Base.{◌≡◌, ◌≢◌, sym, ap, ◌∙◌, Bool, true, false, not, List, [], ◌∷◌, arith}
use mqss_passes_suite.Quake.Ops.{Value, rx_op, Parameter}
use mqss_passes_suite.Semantics.Model.{
  Model, Unitary, pauli_x, pauli_y, pauli_z, hadamard, phase_s, general,
}
use mqss_passes_suite.Semantics.Tableau.Local.{Bits, Tableau, One, local_two}
use mqss_passes_suite.Semantics.Tableau.Fuse.{
  fuse, fuse_one, at_target, exchanged, local_two_cong, local_two-fuse, local_one_fuse,
  local_two_id, local_one_cong, local_one_id, local_one-at_target, local_two-exchanged,
}
use mqss_passes_suite.Semantics.Tableau.Gates.{
  single_bits, controlled_bits, tableau_apply, tableau_commute,
}

module _ (F : Type 0) where
  abbrev pub px : Unitary F
  px = pauli_x

  abbrev pub pz : Unitary F
  pz = pauli_z

  -- Equations between products of single-qubit gates hold if they do on the bits.
  abbrev pub bits : Unitary F → One
  bits = single_bits

  abbrev pub on : Unitary F → Value → Tableau → Tableau
  on u q = tableau_apply u [] (q ∷ [])

  twice :
      (u : Unitary F) (q : Value) (s : Tableau)
      → ((x : Bits) → fuse_one (bits u) (bits u) x ≡ (x, false))
      → on u q (on u q s) ≡ s
  twice u q s h =
      local_one_fuse (bits u) (bits u) q s
      ∙ local_one_cong (fuse_one (bits u) (bits u)) (λ x. (x, false)) q s h
      ∙ local_one_id q s

  two_are_one :
      (u v w : Unitary F) (q : Value) (s : Tableau)
      → ((x : Bits) → fuse_one (bits u) (bits v) x ≡ bits w x)
      → on u q (on v q s) ≡ on w q s
  two_are_one u v w q s h =
      local_one_fuse (bits u) (bits v) q s
      ∙ local_one_cong (fuse_one (bits u) (bits v)) (bits w) q s h

  two_are_two :
      (u v w y : Unitary F) (q : Value) (s : Tableau)
      → ((x : Bits) → fuse_one (bits u) (bits v) x ≡ fuse_one (bits w) (bits y) x)
      → on u q (on v q s) ≡ on w q (on y q s)
  two_are_two u v w y q s h =
      local_one_fuse (bits u) (bits v) q s
      ∙ local_one_cong (fuse_one (bits u) (bits v)) (fuse_one (bits w) (bits y)) q s h
      ∙ sym (local_one_fuse (bits w) (bits y) q s)

  pub tableau_h_x_h :
      (q : Value) (s : Tableau) → on hadamard q (on pauli_x q (on hadamard q s)) ≡ on pauli_z q s
  tableau_h_x_h q s =
      ap (on hadamard q) (local_one_fuse (bits pauli_x) (bits hadamard) q s)
      ∙ local_one_fuse (bits hadamard) (fuse_one (bits pauli_x) (bits hadamard)) q s
      ∙ local_one_cong (fuse_one (bits hadamard) (fuse_one (bits pauli_x) (bits hadamard)))
          (bits pauli_z) q s (λ x. ground arith)

  pub tableau_z_s :
      (adj : Bool) (q : Value) (s : Tableau)
      → on pauli_z q (on (phase_s adj) q s) ≡ on (phase_s (not adj)) q s
  tableau_z_s true q s = two_are_one pauli_z (phase_s true) (phase_s false) q s (λ x. ground arith)
  tableau_z_s false q s = two_are_one pauli_z (phase_s false) (phase_s true) q s (λ x. ground arith)

  abbrev pub controlled : Unitary F → Value → Value → Tableau → Tableau
  controlled u c t = tableau_apply u (c ∷ []) (t ∷ [])

  module _ (c t : Value) (s : Tableau) (ne : c ≢ t) where
    pub tableau_cx_h_cz_h :
        controlled pauli_x c t s ≡ on hadamard t (controlled pauli_z c t (on hadamard t s))
    tableau_cx_h_cz_h =
        let h = at_target (bits hadamard) in
        let cz = controlled_bits pz in
        sym (
          cc (
            local_one-at_target (bits hadamard) c t s,
            local_two-fuse cz h c t s ne,
            local_one-at_target (bits hadamard) c t (local_two (fuse cz h) c t s),
            local_two-fuse h (fuse cz h) c t s ne,
            local_two_cong (fuse h (fuse cz h)) (controlled_bits px) c t s (λ x y. ground arith),
          ))

    pub tableau_cz_symm : controlled pauli_z c t s ≡ controlled pauli_z t c s
    tableau_cz_symm =
        local_two_cong (controlled_bits pz) (exchanged (controlled_bits pz)) c t s
          (λ x y. ground arith)
        ∙ sym (local_two-exchanged (controlled_bits pz) c t s ne)

    pub tableau_cz_cz : controlled pauli_z c t (controlled pauli_z c t s) ≡ s
    tableau_cz_cz =
        let cz = controlled_bits pz in
        local_two-fuse cz cz c t s ne
        ∙ local_two_cong (fuse cz cz) (λ x y. (x, y, false)) c t s (λ x y. ground arith)
        ∙ local_two_id c t s

    pub tableau_cz_z :
        controlled pauli_z c t (on pauli_z t s) ≡ on pauli_z t (controlled pauli_z c t s)
    tableau_cz_z =
        let z = at_target (bits pauli_z) in
        let cz = controlled_bits pz in
        cc (
          local_one-at_target (bits pauli_z) c t s,
          local_two-fuse cz z c t s ne,
          local_one-at_target (bits pauli_z) c t (local_two cz c t s),
          local_two-fuse z cz c t s ne,
          local_two_cong (fuse cz z) (fuse z cz) c t s (λ x y. ground arith),
        )

    pub tableau_cx_rx :
        (adj : Bool) (ps : List (Parameter F))
        → controlled pauli_x c t (on (general rx_op adj ps) t s)
          ≡ on (general rx_op adj ps) t (controlled pauli_x c t s)
    tableau_cx_rx adj ps =
        ap (controlled pauli_x c t) (local_one_id t s)
        ∙ sym (local_one_id t (controlled pauli_x c t s))

  pub tableau_x_x : (q : Value) (s : Tableau) → on pauli_x q (on pauli_x q s) ≡ s
  tableau_x_x q s = twice pauli_x q s (λ x. ground arith)

  pub tableau_y_y : (q : Value) (s : Tableau) → on pauli_y q (on pauli_y q s) ≡ s
  tableau_y_y q s = twice pauli_y q s (λ x. ground arith)

  pub tableau_z_z : (q : Value) (s : Tableau) → on pauli_z q (on pauli_z q s) ≡ s
  tableau_z_z q s = twice pauli_z q s (λ x. ground arith)

  pub tableau_h_h : (q : Value) (s : Tableau) → on hadamard q (on hadamard q s) ≡ s
  tableau_h_h q s = twice hadamard q s (λ x. ground arith)

  pub tableau_h_y :
      (q : Value) (s : Tableau) → on hadamard q (on pauli_y q s) ≡ on pauli_y q (on hadamard q s)
  tableau_h_y q s = two_are_two hadamard pauli_y pauli_y hadamard q s (λ x. ground arith)

-- The laws hold of the conjugation of Pauli strings; measurements leave the string alone.
abbrev pub tableau_model : (F : Type 0) → Model F
tableau_model F = record {
  State = Tableau;
  apply = tableau_apply;
  observe = λ n s. s;
  commute = tableau_commute;
  x_x = tableau_x_x F;
  y_y = tableau_y_y F;
  z_z = tableau_z_z F;
  h_h = tableau_h_h F;
  h_x_h = tableau_h_x_h F;
  h_y = tableau_h_y F;
  z_s = tableau_z_s F;
  cx_h_cz_h = tableau_cx_h_cz_h F;
  cz_symm = tableau_cz_symm F;
  cz_cz = tableau_cz_cz F;
  cz_z = tableau_cz_z F;
  cx_rx = λ adj ps c t s ne. tableau_cx_rx F c t s ne adj ps;
}
