-- ===== src/Mapping/Counted.antt =====
-- What the count of the bits (getNumberOfClassicalBits) leaves for the loading of a kernel
-- (lib/Passes/Transforms/QuakeQMap.cpp).
use mqss_passes_suite.Base.{ℕ, List, [], ◌∷◌, All, Result, Post, Post-bind, Post-map}
use mqss_passes_suite.Quake.Ops.{
  alloca_ref, alloca_veq, extract, arith_constant, measure, apply_op, other_op, Op, operator, plain,
}
use mqss_passes_suite.Quake.Classical.{Bits, measure_operands, classical_bits_from}
use mqss_passes_suite.Mapping.Keys.{Extends, Keyed, operands-Extends, operands-Keyed}

module _ {F : Type 0} where
  abbrev pub KeyedOp : Bits → Op F → Type 0
  KeyedOp bits (plain (measure os)) = All (Keyed bits) os
  KeyedOp bits _ = Unit

  -- What the walk that makes the map from `s` leaves.
  abbrev pub Reads : ℕ × Bits → List (Op F) → ℕ × Bits → Type 0
  Reads s ops s' = Extends s.1 s'.1 × All (KeyedOp s'.1) ops

  skipped :
      (s : ℕ × Bits) (op : Op F) (ops : List (Op F)) (m : Result (ℕ × Bits))
      → ((bits : Bits) → KeyedOp bits op)
      → Post (Unit {0}) (Reads s ops) m
      → Post (Unit {0}) (Reads s (op ∷ ops)) m
  skipped s op ops m h k =
      Post-map (Unit {0}) (Reads s ops) (Reads s (op ∷ ops)) m (λ s' r. (r.0, (h s'.1, r.1))) k

  pub from-Keyed :
      (s : ℕ × Bits) (ops : List (Op F)) → Post (Unit {0}) (Reads s ops) (classical_bits_from s ops)
  unfolding classical_bits_from
  from-Keyed s [] = (λ q h. h, tt)
  from-Keyed s (plain (measure os) ∷ ops) =
      Post-bind (Unit {0}) (λ s'. Extends s.1 s'.1 × All (Keyed s'.1) os)
        (Reads s (plain (measure os) ∷ ops)) (measure_operands s os)
        (λ s'. classical_bits_from s' ops) (operands-Keyed s os)
        λ s' h.
          Post-map (Unit {0}) (Reads s' ops) (Reads s (plain (measure os) ∷ ops))
            (classical_bits_from s' ops)
            (λ s'' k. (λ q e. k.0 q (h.0 q e), (operands-Extends s'.1 s''.1 os k.0 h.1, k.1)))
            (from-Keyed s' ops)
  from-Keyed s (operator g ∷ ops) =
      skipped s (operator g) ops (classical_bits_from s ops) (λ b. tt) (from-Keyed s ops)
  from-Keyed s (plain alloca_ref ∷ ops) =
      skipped s (plain alloca_ref) ops (classical_bits_from s ops) (λ b. tt) (from-Keyed s ops)
  from-Keyed s (plain (alloca_veq n) ∷ ops) =
      skipped s (plain (alloca_veq n)) ops (classical_bits_from s ops) (λ b. tt) (from-Keyed s ops)
  from-Keyed s (plain (extract v i) ∷ ops) =
      skipped s (plain (extract v i)) ops (classical_bits_from s ops) (λ b. tt) (from-Keyed s ops)
  from-Keyed s (plain (arith_constant a) ∷ ops) =
      skipped s (plain (arith_constant a)) ops (classical_bits_from s ops) (λ b. tt)
        (from-Keyed s ops)
  from-Keyed s (plain (apply_op vs) ∷ ops) =
      skipped s (plain (apply_op vs)) ops (classical_bits_from s ops) (λ b. tt) (from-Keyed s ops)
  from-Keyed s (plain other_op ∷ ops) =
      skipped s (plain other_op) ops (classical_bits_from s ops) (λ b. tt) (from-Keyed s ops)
