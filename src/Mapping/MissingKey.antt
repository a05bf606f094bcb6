-- ===== src/Mapping/MissingKey.antt =====
-- The look-ups of `measurements.at` in lib/Passes/Transforms/QuakeQMap.cpp.
use mqss_passes_suite.Base.{
  ℕ, ℤ, ◌≡◌, pos, negsuc, Bool, true, false, ◌||◌, if◌then◌else◌, List, [], ◌∷◌, ◌++◌, All, Option,
  none, some, Result, ok, fault, null_gate, out_of_range, use_after_erase, failed_assertion,
  overflow, missing_key, Post, ◌>>=◌,
}
use mqss_passes_suite.Quake.Ops.{
  extract_ref, result, Operand, ref, veq, Gate, alloca_ref, alloca_veq, extract, arith_constant,
  measure, apply_op, other_op, Op, operator, plain, isa, GateKind, x_op, y_op, z_op, h_op, s_op,
  t_op, rx_op, ry_op, rz_op,
}
use mqss_passes_suite.Quake.Floats.{Floats}
use mqss_passes_suite.Quake.Classical.{
  Bits, find, measure_operand, measure_operands, classical_bits_from, get_number_of_classical_bits,
}
use mqss_passes_suite.Mapping.Load.{
  rotation, single, controlled, measure_bit, Argument, index_of, double_of, asserted, at_qubit,
  get_operands, load_rotation, load_x_y_z, load_s_t_h, load_op, load_all, load_circuit,
  load_rotation_gates_to_qc, load_x_y_z_gates_to_qc, load_s_t_h_gates_to_qc,
  load_measurements_to_qc,
}
use mqss_passes_suite.Mapping.Keys.{is_some, Keyed}
use mqss_passes_suite.Mapping.Counted.{KeyedOp, Reads, from-Keyed}

-- A result that is not `missing_key`.
abbrev pub NoMissingKey {ℓ} : {A : Type ℓ} → Result A → Type 0
NoMissingKey (fault missing_key) = ⊥
NoMissingKey _ = Unit

no_missing_then :
    {A B : Type 0} (m : Result A) (f : A → Result B)
    → NoMissingKey m
    → ((a : A) → NoMissingKey (f a))
    → NoMissingKey (m >>= f)
no_missing_then (ok a) f h k = k a
no_missing_then (fault null_gate) f h k = tt
no_missing_then (fault out_of_range) f h k = tt
no_missing_then (fault use_after_erase) f h k = tt
no_missing_then (fault failed_assertion) f h k = tt
no_missing_then (fault overflow) f h k = tt
no_missing_then (fault missing_key) f h k = h

if_safe :
    {A : Type 0} (b : Bool) (m n : Result A)
    → NoMissingKey m
    → NoMissingKey n
    → NoMissingKey (if b then m else n)
if_safe true m n h k = h
if_safe false m n h k = k

asserted_safe : (i : ℤ) → NoMissingKey (asserted i)
unfolding asserted
asserted_safe (pos q) = tt
asserted_safe (negsuc n) = tt

at_safe : (o : Option ℕ) → is_some o ≡ true → NoMissingKey (at_qubit o)
unfolding at_qubit
at_safe none h = cc
at_safe (some b) h = tt

module _ (F : Type 0) where
  measurement_safe :
      (bits : Bits) (os : List Operand)
      → All (Keyed bits) os
      → NoMissingKey (load_measurements_to_qc {F = F} bits os)
  unfolding load_measurements_to_qc asserted
  measurement_safe bits [] h = tt
  measurement_safe bits (ref (extract_ref v q) ∷ []) h =
      no_missing_then (at_qubit (find q bits)) (λ b. ok (measure_bit q b ∷ []))
        (at_safe (find q bits) h.0) λ b. tt
  measurement_safe bits (ref (result n) ∷ []) h = tt
  measurement_safe bits (veq n ∷ []) h = tt
  measurement_safe bits (ref v ∷ p ∷ os) h = tt
  measurement_safe bits (veq n ∷ p ∷ os) h = tt

module _ {F : Type 0} where
  s_t_h_safe : (k : GateKind) (args : List (Argument F)) → NoMissingKey (load_s_t_h k args)
  unfolding load_s_t_h
  s_t_h_safe k [] = tt
  s_t_h_safe k (a ∷ []) =
      no_missing_then (asserted (index_of a)) (λ q. ok (single k q ∷ []))
        (asserted_safe (index_of a)) λ q. tt
  s_t_h_safe k (a ∷ b ∷ args) = tt

  x_y_z_safe : (k : GateKind) (args : List (Argument F)) → NoMissingKey (load_x_y_z k args)
  unfolding load_x_y_z
  x_y_z_safe k [] = tt
  x_y_z_safe k (a ∷ []) =
      no_missing_then (asserted (index_of a)) (λ q. ok (single k q ∷ []))
        (asserted_safe (index_of a)) λ q. tt
  x_y_z_safe k (a ∷ b ∷ []) =
      no_missing_then (asserted (index_of a))
        (λ c. asserted (index_of b) >>= λ t. ok (controlled k c t ∷ []))
        (asserted_safe (index_of a))
        λ c.
          no_missing_then (asserted (index_of b)) (λ t. ok (controlled k c t ∷ []))
            (asserted_safe (index_of b)) λ t. tt
  x_y_z_safe k (a ∷ b ∷ c ∷ args) = tt

module _ {F : Type 0} (fl : Floats F) where
  rotation_safe : (k : GateKind) (args : List (Argument F)) → NoMissingKey (load_rotation fl k args)
  unfolding load_rotation
  rotation_safe k [] = tt
  rotation_safe k (a ∷ []) = tt
  rotation_safe k (a ∷ b ∷ []) =
      if_safe (fl.equal (double_of fl a) (fl.of_int (negsuc 0))) (fault failed_assertion)
        (asserted (index_of b) >>= λ q. ok (rotation k (double_of fl a) q ∷ [])) tt
        (no_missing_then (asserted (index_of b)) (λ q. ok (rotation k (double_of fl a) q ∷ []))
          (asserted_safe (index_of b)) λ q. tt)
  rotation_safe k (a ∷ b ∷ c ∷ args) = tt

  gate_safe : (bits : Bits) (g : Gate F) → NoMissingKey (load_op fl bits (operator g))
  unfolding load_op load_rotation_gates_to_qc load_x_y_z_gates_to_qc load_s_t_h_gates_to_qc
  gate_safe bits g =
      no_missing_then (load_rotation_gates_to_qc fl g)
        (λ r.
          load_x_y_z_gates_to_qc g >>= λ p. load_s_t_h_gates_to_qc g >>= λ s. ok (r ++ (p ++ s)))
        (if_safe (isa rx_op g || (isa ry_op g || isa rz_op g))
          (load_rotation fl g.kind (get_operands g)) (ok []) (rotation_safe g.kind (get_operands g))
          tt)
        λ r.
          no_missing_then (load_x_y_z_gates_to_qc g)
            (λ p. load_s_t_h_gates_to_qc g >>= λ s. ok (r ++ (p ++ s)))
            (if_safe (isa x_op g || (isa y_op g || isa z_op g)) (load_x_y_z g.kind (get_operands g))
              (ok []) (x_y_z_safe g.kind (get_operands g)) tt)
            λ p.
              no_missing_then (load_s_t_h_gates_to_qc g) (λ s. ok (r ++ (p ++ s)))
                (if_safe (isa s_op g || (isa t_op g || isa h_op g))
                  (load_s_t_h g.kind (get_operands g)) (ok []) (s_t_h_safe g.kind (get_operands g))
                  tt)
                λ s. tt

  op_safe : (bits : Bits) (op : Op F) → KeyedOp bits op → NoMissingKey (load_op fl bits op)
  unfolding load_op
  op_safe bits (operator g) h = gate_safe bits g
  op_safe bits (plain (measure os)) h = measurement_safe F bits os h
  op_safe bits (plain alloca_ref) h = tt
  op_safe bits (plain (alloca_veq n)) h = tt
  op_safe bits (plain (extract v i)) h = tt
  op_safe bits (plain (arith_constant a)) h = tt
  op_safe bits (plain (apply_op vs)) h = tt
  op_safe bits (plain other_op) h = tt

  loads_safe :
      (bits : Bits) (ops : List (Op F))
      → All (KeyedOp bits) ops
      → NoMissingKey (load_all fl bits ops)
  unfolding load_all
  loads_safe bits [] h = tt
  loads_safe bits (op ∷ ops) h =
      no_missing_then (load_op fl bits op)
        (λ calls. load_all fl bits ops >>= λ rest. ok (calls ++ rest)) (op_safe bits op h.0)
        λ calls.
          no_missing_then (load_all fl bits ops) (λ rest. ok (calls ++ rest))
            (loads_safe bits ops h.1) λ rest. tt

operand_safe : (s : ℕ × Bits) (o : Operand) → NoMissingKey (measure_operand s o)
unfolding measure_operand
operand_safe s (ref (extract_ref v q)) = tt
operand_safe s (ref (result n)) = tt
operand_safe s (veq n) = tt

operands_safe : (s : ℕ × Bits) (os : List Operand) → NoMissingKey (measure_operands s os)
unfolding measure_operands
operands_safe s [] = tt
operands_safe s (o ∷ os) =
    no_missing_then (measure_operand s o) (λ s'. measure_operands s' os) (operand_safe s o)
      λ s'. operands_safe s' os

from_safe :
    {F : Type 0} (s : ℕ × Bits) (ops : List (Op F)) → NoMissingKey (classical_bits_from s ops)
unfolding classical_bits_from
from_safe s [] = tt
from_safe s (plain (measure os) ∷ ops) =
    no_missing_then (measure_operands s os) (λ s'. classical_bits_from s' ops) (operands_safe s os)
      λ s'. from_safe s' ops
from_safe s (operator g ∷ ops) = from_safe s ops
from_safe s (plain alloca_ref ∷ ops) = from_safe s ops
from_safe s (plain (alloca_veq n) ∷ ops) = from_safe s ops
from_safe s (plain (extract v i) ∷ ops) = from_safe s ops
from_safe s (plain (arith_constant a) ∷ ops) = from_safe s ops
from_safe s (plain (apply_op vs) ∷ ops) = from_safe s ops
from_safe s (plain other_op ∷ ops) = from_safe s ops

then_with :
    {A B : Type 0} (P : A → Type 0) (m : Result A) (f : A → Result B)
    → Post (Unit {0}) P m
    → NoMissingKey m
    → ((a : A) → P a → NoMissingKey (f a))
    → NoMissingKey (m >>= f)
then_with P (ok a) f p h k = k a p
then_with P (fault null_gate) f p h k = tt
then_with P (fault out_of_range) f p h k = tt
then_with P (fault use_after_erase) f p h k = tt
then_with P (fault failed_assertion) f p h k = tt
then_with P (fault overflow) f p h k = tt
then_with P (fault missing_key) f p h k = h

module _ {F : Type 0} (fl : Floats F) where
  -- The loading of a kernel never looks up a qubit that has no bit in the map of measurements.
  pub load_circuit-NoMissingKey : (circuit : List (Op F)) → NoMissingKey (load_circuit fl circuit)
  unfolding load_circuit get_number_of_classical_bits
  load_circuit-NoMissingKey circuit =
      then_with (Reads (0, []) circuit) (classical_bits_from (0, []) circuit)
        (λ bits. load_all fl bits.1 circuit >>= λ calls. ok (bits.0, calls))
        (from-Keyed (0, []) circuit) (from_safe (0, []) circuit)
        λ bits h.
          no_missing_then (load_all fl bits.1 circuit) (λ calls. ok (bits.0, calls))
            (loads_safe fl bits.1 circuit h.1) λ calls. tt
