-- ===== src/Passes/Module.antt =====
-- include/Passes/BaseMQSSPass.hpp: a pass on a module, which is a list of functions of one block.
use mqss_passes_suite.Base.{
  Bool, true, false, ◌||◌, if◌then◌else◌, List, [], ◌∷◌, Result, ok, ◌>>=◌,
}
use mqss_passes_suite.Quake.Ops.{Op, plain, apply_op}

pub record Function (F : Type 0) : Type 0 where
  pub is_entry_point : Bool
  pub has_quantum_argument : Bool
  pub body : List (Op F)

-- A pass on a module fails with an error, or returns the functions.
pub data ModuleOutcome (F : Type 0) : Type 0 where
  pass_failed : ModuleOutcome F
  passed : List (Function F) → ModuleOutcome F

module _ {F : Type 0} where
  -- The test on a function in getQuakeKernels.
  unfoldable pub is_quake_kernel : Function F → Bool
  is_quake_kernel f = f.is_entry_point || f.has_quantum_argument

  -- Whether the walk meets a controlled `quake.apply` in a block.
  unfoldable pub has_controlled_apply : List (Op F) → Bool
  has_controlled_apply [] = false
  has_controlled_apply (plain (apply_op (control ∷ controls)) ∷ ops) = true
  has_controlled_apply (_ ∷ ops) = has_controlled_apply ops

  -- Whether the walk of getQuakeKernels is interrupted. It meets the operations of a function
  -- before the function itself, so those of functions that are no kernels as well.
  unfoldable pub was_interrupted : List (Function F) → Bool
  unfolding has_controlled_apply
  was_interrupted [] = false
  was_interrupted (f ∷ fs) = has_controlled_apply f.body || was_interrupted fs

  -- The loop over the kernels, which are independent of one another.
  unfoldable pub for_each_kernel :
      (List (Op F) → Result (List (Op F))) → List (Function F) → Result (List (Function F))
  unfolding is_quake_kernel
  for_each_kernel pass [] = ok []
  for_each_kernel pass (f ∷ fs) =
      let rest = for_each_kernel pass fs in
      if is_quake_kernel f
      then (pass f.body >>= λ body. rest >>= λ gs. ok (record f { body = body } ∷ gs))
      else (rest >>= λ gs. ok (f ∷ gs))

  -- runOnOperation
  unfoldable pub run_on_module :
      (List (Op F) → Result (List (Op F))) → List (Function F) → Result (ModuleOutcome F)
  unfolding was_interrupted for_each_kernel
  run_on_module pass fs =
      let rewritten = for_each_kernel pass fs in
      if was_interrupted fs then ok pass_failed else (rewritten >>= λ gs. ok (passed gs))
