-- ===== src/Quake/Examples.antt =====
-- Kernels of two qubits, and the functions of lib/Support/CodeGen/Quake/QuakeOperations.cpp on
-- them. Natural numbers stand for the type of floating-point numbers.
use mqss_passes_suite.Base.{
  ℕ, ◌+◌, ◌-◌, ◌*◌, ◌/◌, ◌%◌, ◌==◌, pos_part, ◌≡◌, refl, false, List, [], ◌∷◌, ok, Post, ◌>>=◌,
}
use mqss_passes_suite.Quake.Ops.{
  x_op, h_op, Gate, Op, operator, plain, alloca_veq, measure, ref, veq, extract_ref,
}
use mqss_passes_suite.Quake.Floats.{Floats}
use mqss_passes_suite.Quake.Classical.{get_number_of_classical_bits, count_classical_bits}
use mqss_passes_suite.Quake.Classical.Bounds.{
  IsCounted, count_classical_bits-number, get_number_of_classical_bits-IsCounted,
}

abbrev pub numbers : Floats ℕ
numbers = record {
  add = λ a b. a + b;
  subtract = λ a b. a - b;
  multiply = λ a b. a * b;
  divide = λ a b. a / b;
  negate = λ a. a;
  of_int = pos_part;
  narrow = λ a. a;
  floor = λ a. a;
  fmod = λ a b. a % b;
  equal = λ a b. a == b;
  pi = 4;
  half_pi = 2;
  quarter_pi = 1;
}

abbrev pub h_gate : ℕ → Gate ℕ
h_gate i = record {
  kind = h_op;
  is_adj = false;
  parameters = [];
  controls = [];
  targets = extract_ref 0 i ∷ [];
}

abbrev pub cx_gate : ℕ → ℕ → Gate ℕ
cx_gate c t = record {
  kind = x_op;
  is_adj = false;
  parameters = [];
  controls = extract_ref 0 c ∷ [];
  targets = extract_ref 0 t ∷ [];
}

abbrev pub measured : ℕ → Op ℕ
measured i = plain (measure (ref (extract_ref 0 i) ∷ []))

-- Two entangled qubits, the second of them measured first.
abbrev pub bell : List (Op ℕ)
bell =
    plain (alloca_veq 2)
    ∷ operator (h_gate 0)
    ∷ operator (cx_gate 0 1)
    ∷ measured 1
    ∷ measured 0
    ∷ []

bell_bits : get_number_of_classical_bits bell ≡ ok (2, (0, 1) ∷ (1, 0) ∷ [])
unfolding get_number_of_classical_bits
bell_bits = refl

-- A vector is measured after a qubit: the bit of the qubit is handed out again.
veq_bits :
    get_number_of_classical_bits {F = ℕ}
      (plain (measure (ref (extract_ref 0 1) ∷ [])) ∷ plain (measure (veq 2 ∷ [])) ∷ [])
    ≡ ok (3, (0, 0) ∷ (1, 1) ∷ (2, 2) ∷ [])
unfolding get_number_of_classical_bits
veq_bits = refl

count_example : count_classical_bits bell ≡ (get_number_of_classical_bits bell >>= λ s. ok s.0)
count_example = count_classical_bits-number bell

IsCounted-example : Post (Unit {0}) IsCounted (get_number_of_classical_bits bell)
IsCounted-example = get_number_of_classical_bits-IsCounted bell
