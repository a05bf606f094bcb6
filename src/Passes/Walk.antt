-- ===== src/Passes/Walk.antt =====
-- operationsOnQuantumKernel of each pass of lib/Passes: how a pass reaches the operations of a
-- kernel.
--
-- `kernel.walk` visits the operations of the block in order. It reads the next operation before
-- it calls back, so what a callback inserts behind the current operation is not visited. The
-- state is the list of the operations before the current one, the last first; a callback returns
-- that list anew, with what has become of the current operation at its head.
use mqss_passes_suite.Base.{List, [], ◌∷◌, Result, ok, ◌>>=◌, reverse_onto}
use mqss_passes_suite.Quake.Ops.{Gate, Op, operator, plain}

abbrev pub Rewrite : Type 0 → Type 0
Rewrite F = List (Op F) → Op F → Result (List (Op F))

module _ {F : Type 0} where
  -- A callback that looks only at gates.
  unfoldable pub on_gates : (List (Op F) → Gate F → Result (List (Op F))) → Rewrite F
  on_gates h before (operator g) = h before g
  on_gates h before (plain n) = ok (plain n ∷ before)

  unfoldable pub walk : Rewrite F → List (Op F) → List (Op F) → Result (List (Op F))
  walk callback before [] = ok before
  walk callback before (op ∷ rest) = callback before op >>= λ done. walk callback done rest

  -- operationsOnQuantumKernel of a pass whose body is `kernel.walk(callback)`.
  unfoldable pub operations_on_quantum_kernel : Rewrite F → List (Op F) → Result (List (Op F))
  unfolding walk
  operations_on_quantum_kernel callback kernel =
      walk callback [] kernel >>= λ done. ok (reverse_onto done [])
