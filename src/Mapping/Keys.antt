-- ===== src/Mapping/Keys.antt =====
-- The keys of the map of measurements that the loading of a kernel looks up
-- (lib/Passes/Transforms/QuakeQMap.cpp, `measurements.at`).
use mqss_passes_suite.Base.{
  ℕ, zero, suc, ◌+◌, ◌≡◌, Bool, true, false, List, [], ◌∷◌, All, Option, none, some, Post,
  Post-bind, Post-map, arith,
}
use mqss_passes_suite.Quake.Ops.{extract_ref, result, Operand, ref, veq}
use mqss_passes_suite.Quake.Lookup.{find-put}
use mqss_passes_suite.Quake.Classical.{Bits, put, find, put_all, measure_operand, measure_operands}

-- Whether a qubit has a bit.
abbrev pub is_some : Option ℕ → Bool
is_some none = false
is_some (some b) = true

abbrev pub has : ℕ → Bits → Bool
has q bits = is_some (find q bits)

-- Every key of `bits` is one of `bits'`.
abbrev pub Extends : Bits → Bits → Type 0
Extends bits bits' = (q : ℕ) → has q bits ≡ true → has q bits' ≡ true

put-Extends : (q b : ℕ) (bits : Bits) → Extends bits (put q b bits)
put-Extends q b bits k h = ground (arith, find-put k q b bits)

has-put : (q b : ℕ) (bits : Bits) → has q (put q b bits) ≡ true
has-put q b bits = ground (arith, find-put q q b bits)

put_operands-Extends : (n : ℕ) (bits : Bits) → Extends bits (put_all n bits)
unfolding put_all
put_operands-Extends zero bits k h = h
put_operands-Extends (suc n) bits k h =
    put-Extends n n (put_all n bits) k (put_operands-Extends n bits k h)

-- The operands of a measurement have keys.
abbrev pub Keyed : Bits → Operand → Type 0
Keyed bits (ref (extract_ref v q)) = has q bits ≡ true
Keyed bits _ = Unit

Keyed-Extends :
    (bits bits' : Bits) (o : Operand) → Extends bits bits' → Keyed bits o → Keyed bits' o
Keyed-Extends bits bits' (ref (extract_ref v q)) h k = h q k
Keyed-Extends bits bits' (ref (result n)) h k = tt
Keyed-Extends bits bits' (veq n) h k = tt

pub operands-Extends :
    (bits bits' : Bits) (os : List Operand)
    → Extends bits bits'
    → All (Keyed bits) os
    → All (Keyed bits') os
operands-Extends bits bits' [] h k = tt
operands-Extends bits bits' (o ∷ os) h k =
    (Keyed-Extends bits bits' o h k.0, operands-Extends bits bits' os h k.1)

operand-Keyed :
    (s : ℕ × Bits) (o : Operand)
    → Post (Unit {0}) (λ s'. Extends s.1 s'.1 × Keyed s'.1 o) (measure_operand s o)
unfolding measure_operand
operand-Keyed s (ref (extract_ref v q)) = (put-Extends q s.0 s.1, has-put q s.0 s.1)
operand-Keyed s (ref (result n)) = tt
operand-Keyed s (veq n) = (put_operands-Extends (s.0 + n) s.1, tt)

pub operands-Keyed :
    (s : ℕ × Bits) (os : List Operand)
    → Post (Unit {0}) (λ s'. Extends s.1 s'.1 × All (Keyed s'.1) os) (measure_operands s os)
unfolding measure_operands
operands-Keyed s [] = (λ q h. h, tt)
operands-Keyed s (o ∷ os) =
    Post-bind (Unit {0}) (λ s'. Extends s.1 s'.1 × Keyed s'.1 o)
      (λ s'. Extends s.1 s'.1 × All (Keyed s'.1) (o ∷ os)) (measure_operand s o)
      (λ s'. measure_operands s' os) (operand-Keyed s o)
      λ s' h.
        Post-map (Unit {0}) (λ s''. Extends s'.1 s''.1 × All (Keyed s''.1) os)
          (λ s''. Extends s.1 s''.1 × All (Keyed s''.1) (o ∷ os)) (measure_operands s' os)
          (λ s'' k. (λ q e. k.0 q (h.0 q e), (Keyed-Extends s'.1 s''.1 o k.0 h.1, k.1)))
          (operands-Keyed s' os)
