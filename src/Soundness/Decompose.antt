-- ===== src/Soundness/Decompose.antt =====
-- CxToHCzH, CzToHCxH and ReverseCx against the meaning of a kernel.
use mqss_passes_suite.Base.{ℕ, Bool-cases, inl, inr, List, [], ◌∷◌, All, sym}
use mqss_passes_suite.Quake.Ops.{Gate, Op, operator, x_op, z_op, h_op}
use mqss_passes_suite.Passes.Patterns.{is_compliant}
use mqss_passes_suite.Passes.Decompositions.{
  create, cx_to_h_cz_h_pattern, replace_cz_to_h_cx_h, reverse_c_not,
}
use mqss_passes_suite.Semantics.Model.{Model, hadamard}
use mqss_passes_suite.Semantics.Run.{effect, run_reversed}
use mqss_passes_suite.Semantics.Laws.{cz_h_cx_h, cx_reversed}
use mqss_passes_suite.Soundness.Shape.{IsPlaced, IsControlled, is_compliant-IsControlled}
use mqss_passes_suite.Soundness.Walk.{Refines, Keeps, unchanged-Refines}
use mqss_passes_suite.Soundness.Control.{
  control-InRegister, target-InRegister, control-ne-target, effect-IsControlled,
}
use mqss_passes_suite.Soundness.Callback.{first_of_one}

module _ {F : Type 0} (m : Model F) (r : ℕ) where
  cx_to_h_cz_h-Refines :
      (before : List (Op F)) (g : Gate F) (c : IsControlled x_op g)
      → All (IsPlaced r) before
      → IsPlaced r (operator g)
      → Refines m r before (operator g) (
          create h_op [] c.target
          ∷ create z_op (c.target ∷ []) c.control
          ∷ create h_op [] c.target
          ∷ before)
  unfolding run_reversed effect
  cx_to_h_cz_h-Refines before g c p h =
      let t = target-InRegister c h in
      let q = control-InRegister c h in
      let ne = control-ne-target c h.2 in
      (
        (
          (tt, (t, tt), tt),
          (((t, tt), (q, tt), ((λ e. ne (sym e), tt), tt)), ((tt, (t, tt), tt), p)),
        ),
        λ s. cc (
          effect-IsControlled m x_op g c (run_reversed m before s),
          m.cx_h_cz_h c.control c.target (run_reversed m before s) ne,
          m.cz_symm c.control c.target
              (m.apply hadamard [] (c.target ∷ []) (run_reversed m before s)) ne,
        ),
      )

  pub cx_to_h_cz_h-Keeps : Keeps m r ⊥ cx_to_h_cz_h_pattern
  unfolding cx_to_h_cz_h_pattern
  cx_to_h_cz_h-Keeps before g p h = elim (Bool-cases (is_compliant x_op 1 1 g)) [
    | inl fits ↦
        let c = is_compliant-IsControlled x_op g fits in
        rw (fits, first_of_one c.controls, first_of_one c.targets)
          (cx_to_h_cz_h-Refines before g c p h)
    | inr other ↦ rw other (unchanged-Refines m r before g p h)
  ]

  cz_to_h_cx_h-Refines :
      (before : List (Op F)) (g : Gate F) (c : IsControlled z_op g)
      → All (IsPlaced r) before
      → IsPlaced r (operator g)
      → Refines m r before (operator g) (
          create h_op [] c.target
          ∷ create x_op (c.control ∷ []) c.target
          ∷ create h_op [] c.target
          ∷ before)
  unfolding run_reversed effect
  cz_to_h_cx_h-Refines before g c p h =
      let t = target-InRegister c h in
      let q = control-InRegister c h in
      let ne = control-ne-target c h.2 in
      (
        ((tt, (t, tt), tt), (((q, tt), (t, tt), ((ne, tt), tt)), ((tt, (t, tt), tt), p))),
        λ s. cc (
          effect-IsControlled m z_op g c (run_reversed m before s),
          cz_h_cx_h m c.control c.target ne (run_reversed m before s),
        ),
      )

  pub cz_to_h_cx_h-Keeps : Keeps m r ⊥ replace_cz_to_h_cx_h
  unfolding replace_cz_to_h_cx_h
  cz_to_h_cx_h-Keeps before g p h = elim (Bool-cases (is_compliant z_op 1 1 g)) [
    | inl fits ↦
        let c = is_compliant-IsControlled z_op g fits in
        rw (fits, first_of_one c.controls, first_of_one c.targets)
          (cz_to_h_cx_h-Refines before g c p h)
    | inr other ↦ rw other (unchanged-Refines m r before g p h)
  ]

  reverse_c_not-Refines :
      (before : List (Op F)) (g : Gate F) (c : IsControlled x_op g)
      → All (IsPlaced r) before
      → IsPlaced r (operator g)
      → Refines m r before (operator g) (
          create h_op [] c.control
          ∷ create h_op [] c.target
          ∷ create x_op (c.target ∷ []) c.control
          ∷ create h_op [] c.control
          ∷ create h_op [] c.target
          ∷ before)
  unfolding run_reversed effect
  reverse_c_not-Refines before g c p h =
      let t = target-InRegister c h in
      let q = control-InRegister c h in
      let ne = control-ne-target c h.2 in
      (
        (
          (tt, (q, tt), tt),
          (
            (tt, (t, tt), tt),
            (
              ((t, tt), (q, tt), ((λ e. ne (sym e), tt), tt)),
              ((tt, (q, tt), tt), ((tt, (t, tt), tt), p)),
            ),
          ),
        ),
        λ s. cc (
          effect-IsControlled m x_op g c (run_reversed m before s),
          cx_reversed m c.control c.target ne (run_reversed m before s),
        ),
      )

  pub reverse_c_not-Keeps : Keeps m r ⊥ reverse_c_not
  unfolding reverse_c_not
  reverse_c_not-Keeps before g p h = elim (Bool-cases (is_compliant x_op 1 1 g)) [
    | inl fits ↦
        let c = is_compliant-IsControlled x_op g fits in
        rw (fits, first_of_one c.controls, first_of_one c.targets)
          (reverse_c_not-Refines before g c p h)
    | inr other ↦ rw other (unchanged-Refines m r before g p h)
  ]
