-- ===== src/Passes/Levels.antt =====
-- lib/Optimizer/OptimizationLevels.cpp: the passes that each level adds to a pass manager.
use mqss_passes_suite.Base.{List, [], ◌∷◌, ◌++◌, Result}
use mqss_passes_suite.Passes.Walk.{on_gates, operations_on_quantum_kernel}
use mqss_passes_suite.Passes.Transforms.{cancellation_double_cx}
use mqss_passes_suite.Passes.Module.{Function, ModuleOutcome, run_on_module}

-- A pass on a module.
abbrev pub ModulePass : Type 0 → Type 0
ModulePass F = List (Function F) → Result (ModuleOutcome F)

-- `canonicalizer` is the pass of MLIR, and `pm` are the passes that were added before.
module _ {F : Type 0} (canonicalizer : ModulePass F) where
  unfoldable pub o1 : List (ModulePass F) → List (ModulePass F)
  o1 pm = pm ++ canonicalizer ∷ []

  unfoldable pub o2 : List (ModulePass F) → List (ModulePass F)
  o2 pm = pm ++ canonicalizer ∷ []

module _ {F : Type 0} where
  unfoldable pub o3 : List (ModulePass F) → List (ModulePass F)
  o3 pm = pm ++ run_on_module (operations_on_quantum_kernel (on_gates cancellation_double_cx)) ∷ []
