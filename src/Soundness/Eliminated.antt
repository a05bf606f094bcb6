-- ===== src/Soundness/Eliminated.antt =====
-- The gates that CxToHCzH and CzToHCxH of lib/Passes/Decompositions leave.
use mqss_passes_suite.Base.{
  ◌≡◌, refl, false, Bool-cases, inl, inr, List, [], ◌∷◌, All, All-reverse_onto, Result, Post,
  Post-bind,
}
use mqss_passes_suite.Quake.Ops.{GateKind, NonGate, Gate, Op, operator, plain, x_op, z_op}
use mqss_passes_suite.Passes.Patterns.{is_compliant}
use mqss_passes_suite.Passes.Walk.{on_gates, walk, operations_on_quantum_kernel}
use mqss_passes_suite.Passes.Decompositions.{cx_to_h_cz_h_pattern, replace_cz_to_h_cx_h}
use mqss_passes_suite.Soundness.Shape.{is_compliant-IsControlled}
use mqss_passes_suite.Soundness.Callback.{first_of_one}

module _ {F : Type 0} where
  -- Not a gate of a kind with one control and one target.
  abbrev pub IsOther : GateKind → Op F → Type 0
  IsOther k (operator g) = is_compliant k 1 1 g ≡ false
  IsOther k (plain n) = Unit

  -- A callback leaves only operations of a predicate, if those before it are.
  abbrev pub Leaves : (Op F → Type 0) → (List (Op F) → Gate F → Result (List (Op F))) → Type 0
  Leaves P h = (before : List (Op F)) (g : Gate F) → All P before → Post ⊥ (All P) (h before g)

  module _ (P : Op F → Type 0) (plain-P : (n : NonGate F) → P (plain n))
      (h : List (Op F) → Gate F → Result (List (Op F))) (leaves : Leaves P h) where
    step-All :
        (before : List (Op F)) (op : Op F) → All P before → Post ⊥ (All P) (on_gates h before op)
    unfolding on_gates
    step-All before (operator g) p = leaves before g p
    step-All before (plain n) p = (plain-P n, p)

    walk-All :
        (before ops : List (Op F)) → All P before → Post ⊥ (All P) (walk (on_gates h) before ops)
    unfolding walk
    walk-All before [] p = p
    walk-All before (op ∷ ops) p =
        Post-bind ⊥ (All P) (All P) (on_gates h before op) (λ done. walk (on_gates h) done ops)
          (step-All before op p) (λ done. walk-All done ops)

    -- So does the walk over a kernel.
    pub kernel-All :
        (kernel : List (Op F)) → Post ⊥ (All P) (operations_on_quantum_kernel (on_gates h) kernel)
    unfolding operations_on_quantum_kernel
    kernel-All kernel =
        Post-bind ⊥ (All P) (All P) (walk (on_gates h) [] kernel) _ (walk-All [] kernel tt)
          (λ done p. All-reverse_onto P done [] p tt)

  cx_to_h_cz_h-Leaves : Leaves (IsOther x_op) cx_to_h_cz_h_pattern
  unfolding cx_to_h_cz_h_pattern is_compliant
  cx_to_h_cz_h-Leaves before g p = elim (Bool-cases (is_compliant x_op 1 1 g)) [
    | inl fits ↦
        let c = is_compliant-IsControlled x_op g fits in
        rw (fits, first_of_one c.controls, first_of_one c.targets) (refl, (refl, (refl, p)))
    | inr other ↦ rw other (other, p)
  ]

  cz_to_h_cx_h-Leaves : Leaves (IsOther z_op) replace_cz_to_h_cx_h
  unfolding replace_cz_to_h_cx_h is_compliant
  cz_to_h_cx_h-Leaves before g p = elim (Bool-cases (is_compliant z_op 1 1 g)) [
    | inl fits ↦
        let c = is_compliant-IsControlled z_op g fits in
        rw (fits, first_of_one c.controls, first_of_one c.targets) (refl, (refl, (refl, p)))
    | inr other ↦ rw other (other, p)
  ]

  -- CxToHCzH returns, on every kernel, and leaves no X gate with one control and one target;
  -- CzToHCxH returns and leaves no Z gate with one control and one target.
  pub decompositions-IsOther :
      (kernel : List (Op F))
      → Post ⊥
          (All (IsOther x_op))
          (operations_on_quantum_kernel (on_gates cx_to_h_cz_h_pattern) kernel)
        × Post ⊥
            (All (IsOther z_op))
            (operations_on_quantum_kernel (on_gates replace_cz_to_h_cx_h) kernel)
  decompositions-IsOther kernel = (
    kernel-All (IsOther x_op) (λ n. tt) cx_to_h_cz_h_pattern cx_to_h_cz_h-Leaves kernel,
    kernel-All (IsOther z_op) (λ n. tt) replace_cz_to_h_cx_h cz_to_h_cx_h-Leaves kernel,
  )
