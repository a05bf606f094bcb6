-- ===== src/Soundness/Nonzero.antt =====
-- The rotations that CancellationNullRotation of lib/Passes/Transforms leaves.
use mqss_passes_suite.Base.{
  subst, pos, Bool, false, ◌&&◌, ◌||◌, arith, ◌≡◌, refl, true, Bool-cases, inl, inr, [], ◌∷◌,
}
use mqss_passes_suite.Quake.Ops.{
  GateKind, x_op, y_op, z_op, h_op, s_op, t_op, r1_op, u3_op, swap_op, rx_op, ry_op, rz_op, isa,
  constant, Gate, Op, operator, plain,
}
use mqss_passes_suite.Quake.Floats.{Floats, extract_double_argument_value}
use mqss_passes_suite.Passes.Rotations.{
  double_pi, check_double_pi_multiplies, is_null, is_rotation, all_null, null_rotation_cancellation,
}
use mqss_passes_suite.Soundness.Eliminated.{Leaves}
use mqss_passes_suite.Soundness.Turns.{IsTurn}

module _ {F : Type 0} (fl : Floats F) where
  -- A rotation by one constant has an angle that is not zero, rounded to `float`, and no whole
  -- number of full turns.
  abbrev pub IsNonzero : Op F → Type 0
  IsNonzero (operator g) =
      IsTurn g.kind
      → (a : F) → g.parameters ≡ constant a ∷ []
      → (fl.equal (fl.narrow a) (fl.of_int (pos 0)) ≡ false)
        × (fl.equal (fl.fmod (fl.narrow a) (fl.multiply (fl.of_int (pos 2)) fl.pi))
              (fl.of_int (pos 0))
            ≡ false)
  IsNonzero (plain n) = Unit

  IsTurn-is_rotation : (g : Gate F) (k : GateKind) → g.kind ≡ k → IsTurn k → is_rotation g ≡ true
  unfolding is_rotation isa
  IsTurn-is_rotation g rx_op e t = rw e refl
  IsTurn-is_rotation g ry_op e t = rw e refl
  IsTurn-is_rotation g rz_op e t = rw e refl
  IsTurn-is_rotation g x_op e t = absurd t
  IsTurn-is_rotation g y_op e t = absurd t
  IsTurn-is_rotation g z_op e t = absurd t
  IsTurn-is_rotation g h_op e t = absurd t
  IsTurn-is_rotation g s_op e t = absurd t
  IsTurn-is_rotation g t_op e t = absurd t
  IsTurn-is_rotation g r1_op e t = absurd t
  IsTurn-is_rotation g u3_op e t = absurd t
  IsTurn-is_rotation g swap_op e t = absurd t

  all_null-false :
      (a : F)
      → all_null fl (constant a ∷ []) ≡ false
      → (fl.equal (fl.narrow a) (fl.of_int (pos 0)) ≡ false)
        × (fl.equal
              (fl.fmod (fl.narrow a) (fl.multiply (fl.of_int (pos 2)) fl.pi))
              (fl.of_int (pos 0))
            ≡ false)
  unfolding all_null is_null check_double_pi_multiplies double_pi extract_double_argument_value
  all_null-false a e =
      let zero = fl.of_int (pos 0) in
      neither (fl.equal (fl.fmod (fl.narrow a) (fl.multiply (fl.of_int (pos 2)) fl.pi)) zero)
        (fl.equal (fl.narrow a) zero) e
    where
      neither : (b c : Bool) → ((b || c) && true) ≡ false → (c ≡ false) × (b ≡ false)
      neither b c h = ground arith

  pub null-Leaves : Leaves IsNonzero (null_rotation_cancellation fl)
  unfolding null_rotation_cancellation
  null-Leaves before g p = elim (Bool-cases (is_rotation g)) [
    | inr other ↦
        rw other ((λ t a e. absurd (differ (IsTurn-is_rotation g g.kind refl t) other)), p)
    | inl turn ↦ elim (Bool-cases (all_null fl g.parameters)) [
      | inr other ↦
          rw (turn, other)
            ((λ t a e. all_null-false a (subst (λ ps. all_null fl ps ≡ false) e other)), p)
      | inl null ↦ rw (turn, null) p
    ]
  ]
    where
      differ : {b : Bool} → b ≡ true → b ≡ false → ⊥
      differ h k = cc
