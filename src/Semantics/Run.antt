-- ===== src/Semantics/Run.antt =====
-- The meaning of a kernel, in program order and over the reversed list that `walk` keeps.
use mqss_passes_suite.Base.{◌≡◌, refl, List, [], ◌∷◌, ◌++◌, reverse_onto}
use mqss_passes_suite.Quake.Ops.{NonGate, measure, apply_op, Op, operator, plain}
use mqss_passes_suite.Semantics.Model.{Model, unitary}

module _ {F : Type 0} (m : Model F) where
  open m use {State, apply, observe}

  -- Allocations, references and constants leave the state alone.
  unfoldable pub effect_plain : NonGate F → State → State
  effect_plain (measure os) s = observe (measure os) s
  effect_plain (apply_op vs) s = observe (apply_op vs) s
  effect_plain _ s = s

  unfoldable pub effect : Op F → State → State
  unfolding unitary
  effect (operator g) s = apply (unitary g.kind g.is_adj g.parameters) g.controls g.targets s
  effect (plain n) s = effect_plain n s

  unfoldable pub run : List (Op F) → State → State
  run [] s = s
  run (op ∷ ops) s = run ops (effect op s)

  unfoldable pub run_reversed : List (Op F) → State → State
  run_reversed [] s = s
  run_reversed (op ∷ before) s = effect op (run_reversed before s)

  pub run-append : (xs ys : List (Op F)) (s : State) → run (xs ++ ys) s ≡ run ys (run xs s)
  unfolding run
  run-append [] ys s = refl
  run-append (x ∷ xs) ys s = run-append xs ys (effect x s)

  pub run-reverse_onto :
      (xs ys : List (Op F)) (s : State) → run (reverse_onto xs ys) s ≡ run ys (run_reversed xs s)
  unfolding run run_reversed
  run-reverse_onto [] ys s = refl
  run-reverse_onto (x ∷ xs) ys s = run-reverse_onto xs (x ∷ ys) s

  pub run_reversed-append :
      (xs ys : List (Op F)) (s : State)
      → run_reversed (xs ++ ys) s ≡ run_reversed xs (run_reversed ys s)
  unfolding run_reversed
  run_reversed-append [] ys s = refl
  run_reversed-append (x ∷ xs) ys s = λ i. effect x (run_reversed-append xs ys s i)

  pub run_reversed-reverse_onto :
      (xs ys : List (Op F)) (s : State)
      → run_reversed (reverse_onto xs ys) s ≡ run xs (run_reversed ys s)
  unfolding run run_reversed
  run_reversed-reverse_onto [] ys s = refl
  run_reversed-reverse_onto (x ∷ xs) ys s = run_reversed-reverse_onto xs (x ∷ ys) s
