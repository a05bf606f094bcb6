-- ===== src/Soundness/Optimizer.antt =====
-- Passes that run one after another on a module (include/Passes/BaseMQSSPass.hpp), as a pass manager
-- of MLIR runs them: it stops when one fails.
use mqss_passes_suite.Base.{
  ℕ, ◌≡◌, refl, ◌∙◌, ap, ◌||◌, true, false, Bool-cases, inl, inr, List, [], ◌∷◌, All, Result, ok,
  Post, Post-bind, Post-map, ◌>>=◌,
}
use mqss_passes_suite.Quake.Ops.{Op}
use mqss_passes_suite.Passes.Walk.{on_gates, operations_on_quantum_kernel}
use mqss_passes_suite.Passes.Module.{
  Function, ModuleOutcome, pass_failed, passed, is_quake_kernel, has_controlled_apply,
  was_interrupted, for_each_kernel, run_on_module,
}
use mqss_passes_suite.Semantics.Model.{Model}
use mqss_passes_suite.Soundness.Module.{IsSameModule, IsFaithful}
use mqss_passes_suite.Soundness.Steps.{TotalPass, total_callback, IsKernel}
use mqss_passes_suite.Soundness.Pipeline.{IsSame, total_pass_sound}

module _ {F : Type 0} where
  -- runOnOperation of a pass.
  abbrev pub run_pass : TotalPass → List (Function F) → Result (ModuleOutcome F)
  run_pass p fs = run_on_module (operations_on_quantum_kernel (on_gates (total_callback p))) fs

  unfoldable pub run_passes : List TotalPass → List (Function F) → Result (ModuleOutcome F)
  run_passes [] fs = ok (passed fs)
  run_passes (p ∷ ps) fs = run_pass p fs >>= λ outcome. elim outcome [
    | pass_failed ↦ ok pass_failed
    | passed gs ↦ run_passes ps gs
  ]

  -- A kernel has its gates on one vector, before its measurements and calls.
  abbrev pub IsPassable : Function F → Type 0
  IsPassable f = is_quake_kernel f ≡ true → (r : ℕ) × IsKernel r f.body

module _ {F : Type 0} (m : Model F) where
  -- What a pass leaves of the functions, if it does not fail.
  abbrev IsNext : List (Function F) → List (Function F) → Type 0
  IsNext fs gs =
      IsSameModule m fs gs × All IsPassable gs × (was_interrupted gs ≡ was_interrupted fs)

  IsSameModule-trans :
      (fs gs hs : List (Function F))
      → IsSameModule m fs gs
      → IsSameModule m gs hs
      → IsSameModule m fs hs
  IsSameModule-trans [] [] [] p q = tt
  IsSameModule-trans (f ∷ fs) (g ∷ gs) (h ∷ hs) p q =
      ((q.0.0 ∙ p.0.0, q.0.1 ∙ p.0.1, λ s. q.0.2 s ∙ p.0.2 s), IsSameModule-trans fs gs hs p.1 q.1)
  IsSameModule-trans [] [] (h ∷ hs) p q = absurd q
  IsSameModule-trans [] (g ∷ gs) hs p q = absurd p
  IsSameModule-trans (f ∷ fs) [] hs p q = absurd p
  IsSameModule-trans (f ∷ fs) (g ∷ gs) [] p q = absurd q

  same_function-IsNext :
      (f : Function F) (fs gs : List (Function F))
      → IsPassable f
      → IsNext fs gs
      → IsNext (f ∷ fs) (f ∷ gs)
  unfolding was_interrupted
  same_function-IsNext f fs gs h n =
      (((refl, refl, λ s. refl), n.0), (h, n.1), ap (λ b. has_controlled_apply f.body || b) n.2)

  rewritten-IsNext :
      (r : ℕ) (f : Function F) (body : List (Op F)) (fs gs : List (Function F))
      → IsSame m r f.body body
      → IsNext fs gs
      → IsNext (f ∷ fs) (record f { body = body } ∷ gs)
  unfolding was_interrupted
  rewritten-IsNext r f body fs gs same n = (
    ((refl, refl, same.1), n.0),
    ((λ _. (r, same.0)), n.1),
    ap (λ b. b || was_interrupted gs) same.2 ∙ ap (λ b. has_controlled_apply f.body || b) n.2,
  )

  for_each_kernel-IsNext :
      (p : TotalPass) (fs : List (Function F))
      → All IsPassable fs
      → Post ⊥
          (IsNext fs)
          (for_each_kernel (operations_on_quantum_kernel (on_gates (total_callback p))) fs)
  unfolding for_each_kernel
  for_each_kernel-IsNext p [] h = (tt, tt, refl)
  for_each_kernel-IsNext p (f ∷ fs) h =
      let rest = for_each_kernel-IsNext p fs h.1 in
      let pass = operations_on_quantum_kernel (on_gates (total_callback p)) in
      elim (Bool-cases (is_quake_kernel f)) [
        | inl kernel ↦
            let (r, k) = h.0 kernel in
            rw kernel (
              Post-bind ⊥ (IsSame m r f.body) (IsNext (f ∷ fs)) (pass f.body)
                (λ body. for_each_kernel pass fs >>= λ gs. ok (record f { body = body } ∷ gs))
                (total_pass_sound m r p f.body k)
                λ body same.
                  Post-bind ⊥ (IsNext fs) (IsNext (f ∷ fs)) (for_each_kernel pass fs)
                    (λ gs. ok (record f { body = body } ∷ gs)) rest
                    λ gs n. rewritten-IsNext r f body fs gs same n)
        | inr other ↦ rw other (
            Post-bind ⊥ (IsNext fs) (IsNext (f ∷ fs)) (for_each_kernel pass fs) (λ gs. ok (f ∷ gs))
              rest λ gs n. same_function-IsNext f fs gs h.0 n)
      ]

  -- The outcome of passes on functions none of which has a controlled call.
  IsRun : List (Function F) → ModuleOutcome F → Type 0
  IsRun fs pass_failed = ⊥
  IsRun fs (passed gs) = IsNext fs gs

  run_pass-IsRun :
      (p : TotalPass) (fs : List (Function F))
      → All IsPassable fs
      → was_interrupted fs ≡ false
      → Post ⊥ (IsRun fs) (run_pass p fs)
  unfolding run_on_module IsRun
  run_pass-IsRun p fs h runs = rw runs (
      Post-bind ⊥ (IsNext fs) (IsRun fs) _ (λ gs. ok (passed gs)) (for_each_kernel-IsNext p fs h)
        λ gs n. n)

  IsSameModule-refl : (fs : List (Function F)) → IsSameModule m fs fs
  IsSameModule-refl [] = tt
  IsSameModule-refl (f ∷ fs) = ((refl, refl, λ s. refl), IsSameModule-refl fs)

  IsRun-next :
      (fs gs : List (Function F)) (outcome : ModuleOutcome F)
      → IsNext fs gs
      → IsRun gs outcome
      → IsRun fs outcome
  unfolding IsRun
  IsRun-next fs gs pass_failed n r = absurd r
  IsRun-next fs gs (passed hs) n r = (IsSameModule-trans fs gs hs n.0 r.0, r.1, r.2 ∙ n.2)

  -- What runs after the first pass.
  abbrev Continues : List TotalPass → Type 0
  Continues ps =
      (gs : List (Function F))
      → All IsPassable gs
      → was_interrupted gs ≡ false
      → Post ⊥ (IsRun gs) (run_passes ps gs)

  continue_with :
      (ps : List TotalPass) (fs : List (Function F)) (outcome : ModuleOutcome F)
      → Continues ps
      → was_interrupted fs ≡ false
      → IsRun fs outcome
      → Post ⊥
          (IsRun fs)
          (elim outcome [ pass_failed ↦ ok pass_failed | passed gs ↦ run_passes ps gs ])
  unfolding IsRun
  continue_with ps fs pass_failed rest runs r = absurd r
  continue_with ps fs (passed gs) rest runs r =
      Post-map ⊥ (IsRun gs) (IsRun fs) (run_passes ps gs) (λ o. IsRun-next fs gs o r)
        (rest gs r.1 (r.2 ∙ runs))

  run_passes-IsRun : (ps : List TotalPass) → Continues ps
  unfolding run_passes IsRun
  run_passes-IsRun [] fs h runs = (IsSameModule-refl fs, h, refl)
  run_passes-IsRun (p ∷ ps) fs h runs =
      Post-bind ⊥ (IsRun fs) (IsRun fs) (run_pass p fs) _ (run_pass-IsRun p fs h runs)
        λ outcome r. continue_with ps fs outcome (run_passes-IsRun ps) runs r

  IsRun-IsFaithful :
      (fs : List (Function F)) (outcome : ModuleOutcome F)
      → was_interrupted fs ≡ false
      → IsRun fs outcome
      → IsFaithful m fs outcome
  unfolding IsRun
  IsRun-IsFaithful fs pass_failed runs r = absurd r
  IsRun-IsFaithful fs (passed gs) runs r = (runs, r.0)

  -- If at least one of the passes ReverseCx, CxToHCzH, CzToHCxH, CommuteZCx, CommuteRxCx,
  -- CommuteXCx, SwitchPauliH, SAdjToS and SToSAdj runs on a module, in whatever order and number,
  -- where each kernel has its gates on one vector of qubits, has the controls of each gate apart
  -- from its targets, and has its measurements and calls behind, then they fail with an error
  -- exactly where some function has a controlled `quake.apply`, and otherwise leave functions of
  -- the same kinds and, in every model of the gates, the same meanings, in the same order.
  pub run_passes-IsFaithful :
      (p : TotalPass) (ps : List TotalPass) (fs : List (Function F))
      → All IsPassable fs
      → Post ⊥ (IsFaithful m fs) (run_passes (p ∷ ps) fs)
  unfolding run_passes run_on_module
  run_passes-IsFaithful p ps fs h = elim (Bool-cases (was_interrupted fs)) [
    | inl stops ↦ rw stops stops
    | inr runs ↦
        Post-map ⊥ (IsRun fs) (IsFaithful m fs) (run_passes (p ∷ ps) fs)
          (λ o. IsRun-IsFaithful fs o runs) (run_passes-IsRun (p ∷ ps) fs h runs)
  ]
