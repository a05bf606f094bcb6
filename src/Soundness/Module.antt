-- ===== src/Soundness/Module.antt =====
-- A pass on a module against the meaning of its functions.
use mqss_passes_suite.Base.{
  ◌≡◌, refl, Bool-cases, true, false, inl, inr, List, [], ◌∷◌, All, Result, ok, Post, Post-bind,
  ◌>>=◌,
}
use mqss_passes_suite.Quake.Ops.{Op}
use mqss_passes_suite.Passes.Module.{
  Function, ModuleOutcome, pass_failed, passed, is_quake_kernel, was_interrupted, for_each_kernel,
  run_on_module,
}
use mqss_passes_suite.Semantics.Model.{Model}
use mqss_passes_suite.Semantics.Run.{run}

module _ {F : Type 0} (m : Model F) where
  -- A function of the same kind and the same meaning.
  abbrev pub IsSameFunction : Function F → Function F → Type 0
  IsSameFunction f g =
      (g.is_entry_point ≡ f.is_entry_point)
      × (g.has_quantum_argument ≡ f.has_quantum_argument)
      × ((s : m.State) → run m g.body s ≡ run m f.body s)

  -- Functions of the same kinds and meanings, in the same order.
  abbrev pub IsSameModule : List (Function F) → List (Function F) → Type 0
  IsSameModule [] [] = Unit
  IsSameModule (f ∷ fs) (g ∷ gs) = IsSameFunction f g × IsSameModule fs gs
  IsSameModule _ _ = ⊥

  -- The pass returns, with the same meaning, on the body of the function if that is a kernel.
  abbrev pub IsKept : (List (Op F) → Result (List (Op F))) → Function F → Type 0
  IsKept pass f =
      is_quake_kernel f ≡ true
      → Post ⊥ (λ body. (s : m.State) → run m body s ≡ run m f.body s) (pass f.body)

  -- What the outcome says of the module.
  abbrev pub IsFaithful : List (Function F) → ModuleOutcome F → Type 0
  IsFaithful fs pass_failed = was_interrupted fs ≡ true
  IsFaithful fs (passed gs) = (was_interrupted fs ≡ false) × IsSameModule fs gs

  module _ (pass : List (Op F) → Result (List (Op F))) where
    for_each_kernel-IsSameModule :
        (fs : List (Function F))
        → All (IsKept pass) fs
        → Post ⊥ (IsSameModule fs) (for_each_kernel pass fs)
    unfolding for_each_kernel
    for_each_kernel-IsSameModule [] h = tt
    for_each_kernel-IsSameModule (f ∷ fs) h =
        let rest = for_each_kernel-IsSameModule fs h.1 in
        elim (Bool-cases (is_quake_kernel f)) [
          | inl kernel ↦ rw kernel (
              Post-bind ⊥ (λ body. (s : m.State) → run m body s ≡ run m f.body s)
                (IsSameModule (f ∷ fs)) (pass f.body)
                (λ body. for_each_kernel pass fs >>= λ gs. ok (record f { body = body } ∷ gs))
                (h.0 kernel)
                λ body same.
                  Post-bind ⊥ (IsSameModule fs) (IsSameModule (f ∷ fs)) (for_each_kernel pass fs)
                    (λ gs. ok (record f { body = body } ∷ gs)) rest
                    λ gs others. ((refl, refl, same), others))
          | inr other ↦ rw other (
              Post-bind ⊥ (IsSameModule fs) (IsSameModule (f ∷ fs)) (for_each_kernel pass fs)
                (λ gs. ok (f ∷ gs)) rest λ gs others. ((refl, refl, λ s. refl), others))
        ]

    -- If a pass returns with the same meaning on the body of each kernel of a module, then on the
    -- module it fails with an error exactly where some function has a controlled `quake.apply`,
    -- and otherwise returns functions of the same kinds and meanings, in the same order.
    pub run_on_module-IsFaithful :
        (fs : List (Function F))
        → All (IsKept pass) fs
        → Post ⊥ (IsFaithful fs) (run_on_module pass fs)
    unfolding run_on_module
    run_on_module-IsFaithful fs h = elim (Bool-cases (was_interrupted fs)) [
      | inl stops ↦ rw stops stops
      | inr runs ↦ rw runs (
          Post-bind ⊥ (IsSameModule fs) (IsFaithful fs) (for_each_kernel pass fs)
            (λ gs. ok (passed gs)) (for_each_kernel-IsSameModule fs h) λ gs same. (runs, same))
    ]
