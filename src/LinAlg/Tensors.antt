-- ===== src/LinAlg/Tensors.antt =====
-- lib/Interfaces/InlineGatesToArithLinAlg.cpp: insertMul and insertMulN. `llvm_unreachable` is an
-- assertion that fails. The sizes of tensors are unbounded numbers.
use mqss_passes_suite.Base.{
  ℕ, ◌==◌, if◌then◌else◌, List, [], ◌∷◌, length, Option, Result, ok, fault, failed_assertion, ◌>>=◌,
}
use mqss_passes_suite.Quake.Ops.{GateKind}

-- The name of the function of a gate: its class, the number of qubits, and the two texts between
-- brackets, as lists of characters.
pub record Name : Type 0 where
  pub gate_name : GateKind
  pub qubits : ℕ
  pub control_string : List ℕ
  pub target_string : List ℕ

pub data Element : Type 0 where
  complex_f64 f64 : Element

-- `tensor` has the sizes of its dimensions.
pub data ValueType : Type 0 where
  scalar : Element → ValueType
  tensor : Element → List ℕ → ValueType

-- A value is the result of an instruction, by its number.
pub record TensorValue : Type 0 where
  pub id : ℕ
  pub value_type : ValueType

-- The instructions, the products with their operands, their output and the sizes of the result.
pub data Instruction (F : Type 0) : Type 0 where
  constant_complex : List ℕ → List (F × F) → Instruction F
  constant_double : List F → Instruction F
  empty : List ℕ → Instruction F
  call : Name → Option TensorValue → ValueType → Instruction F
  mul : TensorValue → TensorValue → Instruction F
  generic_mul matvec matmul : TensorValue → TensorValue → TensorValue → List ℕ → Instruction F

module _ {F : Type 0} where
  unfoldable pub result_type : Instruction F → ValueType
  result_type (constant_complex shape values) = tensor complex_f64 shape
  result_type (constant_double values) = tensor f64 (length values ∷ [])
  result_type (empty shape) = tensor complex_f64 shape
  result_type (call name argument t) = t
  result_type (mul a b) = scalar complex_f64
  result_type (generic_mul a b init shape) = tensor complex_f64 shape
  result_type (matvec a b init shape) = tensor complex_f64 shape
  result_type (matmul a b init shape) = tensor complex_f64 shape

  -- `builder.create`: the instructions are kept with the last one first.
  unfoldable pub emit : Instruction F → List (Instruction F) → TensorValue × List (Instruction F)
  unfolding result_type
  emit i is = (record { id = length is; value_type = result_type i }, i ∷ is)

  -- A product with an empty output, which is created first.
  unfoldable pub emit_product :
      (TensorValue → List ℕ → Instruction F)
      → List ℕ
      → List (Instruction F)
      → Result (TensorValue × List (Instruction F))
  unfolding emit
  emit_product product shape is =
      let init = emit (empty shape) is in ok (emit (product init.0 shape) init.1)

  -- insertMul after its assertions, on the sizes of the operands.
  unfoldable pub insert_mul_of :
      TensorValue
      → TensorValue
      → List ℕ
      → List ℕ
      → List (Instruction F)
      → Result (TensorValue × List (Instruction F))
  unfolding emit emit_product
  insert_mul_of a b [] [] is = ok (emit (mul a b) is)
  insert_mul_of a b (n ∷ []) (m ∷ []) is =
      if n == m then emit_product (generic_mul a b) (n ∷ []) is else fault failed_assertion
  insert_mul_of a b (m ∷ k ∷ []) (n ∷ []) is =
      if k == n then emit_product (matvec a b) (m ∷ []) is else fault failed_assertion
  insert_mul_of a b (m ∷ k ∷ []) (l ∷ n ∷ []) is =
      if k == l then emit_product (matmul a b) (m ∷ n ∷ []) is else fault failed_assertion
  insert_mul_of a b _ _ is = fault failed_assertion

  -- The assertions on the types of the operands.
  unfoldable pub insert_mul_typed :
      TensorValue
      → TensorValue
      → ValueType
      → ValueType
      → List (Instruction F)
      → Result (TensorValue × List (Instruction F))
  unfolding insert_mul_of
  insert_mul_typed a b (tensor complex_f64 s) (tensor complex_f64 t) is = insert_mul_of a b s t is
  insert_mul_typed a b _ _ is = fault failed_assertion

  -- insertMul
  unfoldable pub insert_mul :
      List TensorValue → List (Instruction F) → Result (TensorValue × List (Instruction F))
  unfolding insert_mul_typed
  insert_mul (a ∷ b ∷ []) is = insert_mul_typed a b a.value_type b.value_type is
  insert_mul _ is = fault failed_assertion

  -- The loop of insertMulN.
  unfoldable pub fold_mul :
      TensorValue
      → List TensorValue
      → List (Instruction F)
      → Result (TensorValue × List (Instruction F))
  unfolding insert_mul
  fold_mul acc [] is = ok (acc, is)
  fold_mul acc (v ∷ vs) is = insert_mul (acc ∷ v ∷ []) is >>= λ r. fold_mul r.0 vs r.1

  -- insertMulN
  unfoldable pub insert_mul_n :
      List TensorValue → List (Instruction F) → Result (TensorValue × List (Instruction F))
  unfolding insert_mul fold_mul
  insert_mul_n (a ∷ b ∷ vs) is = insert_mul (a ∷ b ∷ []) is >>= λ r. fold_mul r.0 vs r.1
  insert_mul_n _ is = fault failed_assertion
