-- ===== src/Quake/Classical.antt =====
-- lib/Support/CodeGen/Quake/QuakeOperations.cpp: the two getNumberOfClassicalBits. A `std::map`
-- from qubits to bits is a list of pairs by increasing key.
pub mod Bounds
use mqss_passes_suite.Base.{
  ℕ, zero, suc, ◌+◌, pos, negsuc, ltb, ◌==◌, if◌then◌else◌, List, [], ◌∷◌, Option, none, some,
  Result, ok, fault, failed_assertion, ◌>>=◌,
}
use mqss_passes_suite.Quake.Ops.{Operand, ref, veq, Op, plain, measure}
use mqss_passes_suite.Quake.Query.{extract_index}

abbrev pub Bits : Type 0
Bits = List (ℕ × ℕ)

-- `measurements[qubit] = bit`
unfoldable pub put : ℕ → ℕ → Bits → Bits
put q b [] = (q, b) ∷ []
put q b (e ∷ es) =
    let rest = put q b es in
    if ltb q e.0 then (q, b) ∷ e ∷ es else if q == e.0 then (q, b) ∷ es else e ∷ rest

-- `measurements.find(qubit)`
unfoldable pub find : ℕ → Bits → Option ℕ
find q [] = none
find q (e ∷ es) = if q == e.0 then some e.1 else find q es

-- The loop over a vector: the bits below `n` go to the qubits of their numbers.
unfoldable pub put_all : ℕ → Bits → Bits
unfolding put
put_all zero bits = bits
put_all (suc n) bits = put n n (put_all n bits)

-- The number of bits with the map, and the number alone. An operand that is one qubit asserts
-- that a reference with an index defines it.
unfoldable pub measure_operand : ℕ × Bits → Operand → Result (ℕ × Bits)
unfolding put put_all extract_index
measure_operand s (ref v) = elim (extract_index v) [
  | pos q ↦ ok (s.0 + 1, put q s.0 s.1)
  | negsuc n ↦ fault failed_assertion
]
measure_operand s (veq n) = ok (s.0 + n, put_all (s.0 + n) s.1)

unfoldable pub count_operand : ℕ → Operand → Result ℕ
unfolding extract_index
count_operand bits (ref v) = elim (extract_index v) [
  | pos q ↦ ok (bits + 1)
  | negsuc n ↦ fault failed_assertion
]
count_operand bits (veq n) = ok (bits + n)

unfoldable pub measure_operands : ℕ × Bits → List Operand → Result (ℕ × Bits)
unfolding measure_operand
measure_operands s [] = ok s
measure_operands s (o ∷ os) = measure_operand s o >>= λ s'. measure_operands s' os

unfoldable pub count_operands : ℕ → List Operand → Result ℕ
unfolding count_operand
count_operands bits [] = ok bits
count_operands bits (o ∷ os) = count_operand bits o >>= λ bits'. count_operands bits' os

module _ {F : Type 0} where
  -- The walk of getNumberOfClassicalBits, with the map.
  unfoldable pub classical_bits_from : ℕ × Bits → List (Op F) → Result (ℕ × Bits)
  unfolding measure_operands
  classical_bits_from s [] = ok s
  classical_bits_from s (plain (measure os) ∷ ops) =
      measure_operands s os >>= λ s'. classical_bits_from s' ops
  classical_bits_from s (_ ∷ ops) = classical_bits_from s ops

  -- getNumberOfClassicalBits(circuit, measurements), on an empty map.
  unfoldable pub get_number_of_classical_bits : List (Op F) → Result (ℕ × Bits)
  unfolding classical_bits_from
  get_number_of_classical_bits circuit = classical_bits_from (0, []) circuit

  unfoldable pub count_bits_from : ℕ → List (Op F) → Result ℕ
  unfolding count_operands
  count_bits_from bits [] = ok bits
  count_bits_from bits (plain (measure os) ∷ ops) =
      count_operands bits os >>= λ bits'. count_bits_from bits' ops
  count_bits_from bits (_ ∷ ops) = count_bits_from bits ops

  -- getNumberOfClassicalBits(circuit)
  unfoldable pub count_classical_bits : List (Op F) → Result ℕ
  unfolding count_bits_from
  count_classical_bits circuit = count_bits_from 0 circuit
