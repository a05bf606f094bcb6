-- ===== src/Quake/Classical/Bounds.antt =====
-- The bits that the two getNumberOfClassicalBits count and hand out.
use mqss_passes_suite.Base.{
  ℕ, zero, suc, ◌+◌, ◌<◌, ◌≤◌, ◌≡◌, refl, sym, ◌∙◌, List, [], ◌∷◌, All, Result, ok, fault, Post,
  Post-bind, ◌>>=◌, arith,
}
use mqss_passes_suite.Quake.Ops.{
  extract_ref, result, Operand, ref, veq, alloca_ref, alloca_veq, extract, arith_constant, measure,
  apply_op, other_op, Op, operator, plain,
}
use mqss_passes_suite.Quake.Classical.{
  Bits, put, put_all, measure_operand, count_operand, measure_operands, count_operands,
  classical_bits_from, get_number_of_classical_bits, count_bits_from, count_classical_bits,
}

abbrev number : Result (ℕ × Bits) → Result ℕ
number m = m >>= λ s. ok s.0

-- A chain that goes on with the number alone.
number_then :
    (m : Result (ℕ × Bits)) (f : ℕ → Result ℕ) (g : ℕ × Bits → Result ℕ)
    → ((s : ℕ × Bits) → f s.0 ≡ g s)
    → (number m >>= f) ≡ (m >>= g)
number_then (ok s) f g h = h s
number_then (fault e) f g h = refl

-- The number at the end of a chain.
number_of_chain :
    (m : Result (ℕ × Bits)) (g : ℕ × Bits → Result (ℕ × Bits))
    → number (m >>= g) ≡ (m >>= λ s. number (g s))
number_of_chain (ok s) g = refl
number_of_chain (fault e) g = refl

operand_count :
    (n : ℕ) (bits : Bits) (o : Operand) → count_operand n o ≡ number (measure_operand (n, bits) o)
unfolding count_operand measure_operand
operand_count n bits (ref (extract_ref v i)) = refl
operand_count n bits (ref (result k)) = refl
operand_count n bits (veq k) = refl

operands_count :
    (n : ℕ) (bits : Bits) (os : List Operand)
    → count_operands n os ≡ number (measure_operands (n, bits) os)
unfolding count_operands measure_operands
operands_count n bits [] = refl
operands_count n bits (o ∷ os) = rw (operand_count n bits o) (
    number_then (measure_operand (n, bits) o) (λ k. count_operands k os)
      (λ s. number (measure_operands s os)) (λ s. operands_count s.0 s.1 os)
    ∙ sym (number_of_chain (measure_operand (n, bits) o) λ s. measure_operands s os))

module _ {F : Type 0} where
  count_from :
      (n : ℕ) (bits : Bits) (ops : List (Op F))
      → count_bits_from n ops ≡ number (classical_bits_from (n, bits) ops)
  unfolding count_bits_from classical_bits_from
  count_from n bits [] = refl
  count_from n bits (plain (measure os) ∷ ops) = rw (operands_count n bits os) (
      number_then (measure_operands (n, bits) os) (λ k. count_bits_from k ops)
        (λ s. number (classical_bits_from s ops)) (λ s. count_from s.0 s.1 ops)
      ∙ sym (number_of_chain (measure_operands (n, bits) os) λ s. classical_bits_from s ops))
  count_from n bits (operator g ∷ ops) = count_from n bits ops
  count_from n bits (plain alloca_ref ∷ ops) = count_from n bits ops
  count_from n bits (plain (alloca_veq k) ∷ ops) = count_from n bits ops
  count_from n bits (plain (extract v i) ∷ ops) = count_from n bits ops
  count_from n bits (plain (arith_constant a) ∷ ops) = count_from n bits ops
  count_from n bits (plain (apply_op vs) ∷ ops) = count_from n bits ops
  count_from n bits (plain other_op ∷ ops) = count_from n bits ops

  -- The two functions getNumberOfClassicalBits count the same bits, and fail on the same kernels.
  pub count_classical_bits-number :
      (circuit : List (Op F))
      → count_classical_bits circuit ≡ (get_number_of_classical_bits circuit >>= λ s. ok s.0)
  unfolding count_classical_bits get_number_of_classical_bits
  count_classical_bits-number circuit = count_from 0 [] circuit

-- Every bit of the map is below `n`.
abbrev pub IsBelow : ℕ → Bits → Type 0
IsBelow n bits = All (λ e. e.1 < n) bits

weaken : (n k : ℕ) (bits : Bits) → n ≤ k → IsBelow n bits → IsBelow k bits
weaken n k [] h b = tt
weaken n k (e ∷ es) h b = (omega arith, weaken n k es h b.1)

put-IsBelow : (n q b : ℕ) (bits : Bits) → b < n → IsBelow n bits → IsBelow n (put q b bits)
unfolding put
put-IsBelow n q b [] h k = (h, tt)
put-IsBelow n q b (e ∷ es) h k = ground (arith, put-IsBelow n q b es)

put_all-IsBelow : (n k : ℕ) (bits : Bits) → k ≤ n → IsBelow n bits → IsBelow n (put_all k bits)
unfolding put_all
put_all-IsBelow n zero bits h b = b
put_all-IsBelow n (suc k) bits h b =
    put-IsBelow n k k (put_all k bits) h (put_all-IsBelow n k bits (omega arith) b)

-- The numbers of bits and the map, where the map keeps its bits below the number.
abbrev pub IsCounted : ℕ × Bits → Type 0
IsCounted s = IsBelow s.0 s.1

operand-IsCounted :
    (s : ℕ × Bits) (o : Operand) → IsCounted s → Post (Unit {0}) IsCounted (measure_operand s o)
unfolding measure_operand
operand-IsCounted (n, bits) (ref (extract_ref v i)) h =
    put-IsBelow (n + 1) i n bits (omega arith) (weaken n (n + 1) bits (omega arith) h)
operand-IsCounted s (ref (result k)) h = tt
operand-IsCounted (n, bits) (veq k) h =
    put_all-IsBelow (n + k) (n + k) bits (omega arith) (weaken n (n + k) bits (omega arith) h)

operands-IsCounted :
    (s : ℕ × Bits) (os : List Operand)
    → IsCounted s
    → Post (Unit {0}) IsCounted (measure_operands s os)
unfolding measure_operands
operands-IsCounted s [] h = h
operands-IsCounted s (o ∷ os) h =
    Post-bind (Unit {0}) IsCounted IsCounted (measure_operand s o) (λ s'. measure_operands s' os)
      (operand-IsCounted s o h) λ s' h'. operands-IsCounted s' os h'

module _ {F : Type 0} where
  from-IsCounted :
      (s : ℕ × Bits) (ops : List (Op F))
      → IsCounted s
      → Post (Unit {0}) IsCounted (classical_bits_from s ops)
  unfolding classical_bits_from
  from-IsCounted s [] h = h
  from-IsCounted s (plain (measure os) ∷ ops) h =
      Post-bind (Unit {0}) IsCounted IsCounted (measure_operands s os)
        (λ s'. classical_bits_from s' ops) (operands-IsCounted s os h)
        λ s' h'. from-IsCounted s' ops h'
  from-IsCounted s (operator g ∷ ops) h = from-IsCounted s ops h
  from-IsCounted s (plain alloca_ref ∷ ops) h = from-IsCounted s ops h
  from-IsCounted s (plain (alloca_veq k) ∷ ops) h = from-IsCounted s ops h
  from-IsCounted s (plain (extract v i) ∷ ops) h = from-IsCounted s ops h
  from-IsCounted s (plain (arith_constant a) ∷ ops) h = from-IsCounted s ops h
  from-IsCounted s (plain (apply_op vs) ∷ ops) h = from-IsCounted s ops h
  from-IsCounted s (plain other_op ∷ ops) h = from-IsCounted s ops h

  -- Each qubit in the map of getNumberOfClassicalBits has a bit below the number that it returns.
  pub get_number_of_classical_bits-IsCounted :
      (circuit : List (Op F)) → Post (Unit {0}) IsCounted (get_number_of_classical_bits circuit)
  unfolding get_number_of_classical_bits
  get_number_of_classical_bits-IsCounted circuit = from-IsCounted (0, []) circuit tt
