-- ===== src/Passes/Custom.antt =====
-- lib/Passes/Examples/CustomExample.cpp: a pass on a module that replaces each Hadamard gate.
use mqss_passes_suite.Base.{◌≡◌, refl, if◌then◌else◌, Bool-cases, inl, inr, List, [], ◌∷◌}
use mqss_passes_suite.Quake.Ops.{Op, operator, plain, isa, h_op, s_op}
use mqss_passes_suite.Passes.Module.{Function}

module _ {F : Type 0} where
  -- ReplaceH, on one operation of the conversion.
  unfoldable pub replace_h : Op F → Op F
  unfolding isa
  replace_h (operator g) = if isa h_op g then operator (record g { kind = s_op }) else operator g
  replace_h (plain n) = plain n

  unfoldable pub replace_all : List (Op F) → List (Op F)
  unfolding replace_h
  replace_all [] = []
  replace_all (op ∷ ops) = replace_h op ∷ replace_all ops

  -- runOnOperation: the conversion goes over all functions, and cannot fail, since the one pattern
  -- takes every Hadamard gate.
  unfoldable pub custom_example : List (Function F) → List (Function F)
  unfolding replace_all
  custom_example [] = []
  custom_example (f ∷ fs) = record f { body = replace_all f.body } ∷ custom_example fs

  replace_h_twice : (op : Op F) → replace_h (replace_h op) ≡ replace_h op
  unfolding replace_h isa
  replace_h_twice (operator g) = elim (Bool-cases (isa h_op g)) [
    | inl hadamard ↦ rw hadamard refl
    | inr other ↦ rw (other, other) refl
  ]
  replace_h_twice (plain n) = refl

  replace_all_twice : (ops : List (Op F)) → replace_all (replace_all ops) ≡ replace_all ops
  unfolding replace_all
  replace_all_twice [] = refl
  replace_all_twice (op ∷ ops) = cc (replace_h_twice op, replace_all_twice ops)

  -- No Hadamard gate is left for a second run.
  custom_example_twice :
      (fs : List (Function F)) → custom_example (custom_example fs) ≡ custom_example fs
  unfolding custom_example
  custom_example_twice [] = refl
  custom_example_twice (f ∷ fs) = cc (replace_all_twice f.body, custom_example_twice fs)
