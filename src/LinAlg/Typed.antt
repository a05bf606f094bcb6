-- ===== src/LinAlg/Typed.antt =====
-- The types of the instructions of lib/Interfaces/InlineGatesToArithLinAlg.cpp.
use mqss_passes_suite.Base.{
  ltb, true, ℕ, zero, suc, ◌<◌, ◌^◌, ◌≡◌, refl, ap, ◌==◌, ==_iff, ℤ, if◌then◌else◌, List, [], ◌∷◌,
  length, Option, none, some, ok, Post, Post-bind, ◌>>=◌, arith,
}
use mqss_passes_suite.Quake.Ops.{Gate, Op, operator, plain}
use mqss_passes_suite.Quake.Floats.{Floats, get_parameters_values}
use mqss_passes_suite.LinAlg.Tensors.{
  Name, complex_f64, f64, ValueType, tensor, TensorValue, Instruction, constant_complex,
  constant_double, empty, call, mul, generic_mul, matvec, matmul, result_type, emit, emit_product,
  insert_mul_of, insert_mul_typed, insert_mul, fold_mul, insert_mul_n,
}
use mqss_passes_suite.LinAlg.Convert.{
  Declaration, Builder, zeros, function_name, call_function, inline_function, convert_gate,
  convert_all, convert_quake_to_lin_alg,
}

-- The types of the state and of a gate's matrix.
abbrev IsVector : ℕ → TensorValue → Type 0
IsVector n v = v.value_type ≡ tensor complex_f64 (n ∷ [])

abbrev IsMatrix : ℕ → ℕ → TensorValue → Type 0
IsMatrix m n v = v.value_type ≡ tensor complex_f64 (m ∷ n ∷ [])

module _ {F : Type 0} where
  -- The type of a result, by its number.
  abbrev pub type_at : ℕ → List (Instruction F) → Option ValueType
  type_at n [] = none
  type_at n (i ∷ is) = if n == length is then some (result_type i) else type_at n is

  -- A value is the result of one of the instructions.
  abbrev pub IsValue : List (Instruction F) → TensorValue → Type 0
  IsValue is v = (v.id < length is) × (type_at v.id is ≡ some v.value_type)

  -- What an instruction asks of its operands, the results of earlier instructions.
  abbrev pub IsTyped : List (Instruction F) → Instruction F → Type 0
  IsTyped is (constant_complex (n ∷ []) values) = length values ≡ n
  IsTyped is (constant_complex shape values) = ⊥
  IsTyped is (constant_double values) = Unit
  IsTyped is (empty shape) = Unit
  IsTyped is (call name none t) = Unit
  IsTyped is (call name (some v) t) =
      IsValue is v × ((n : ℕ) × (v.value_type ≡ tensor f64 (n ∷ [])))
  IsTyped is (mul a b) = ⊥
  IsTyped is (generic_mul a b init (n ∷ [])) =
      (IsValue is a × IsVector n a)
      × (IsValue is b × IsVector n b)
      × (IsValue is init × IsVector n init)
  IsTyped is (generic_mul a b init shape) = ⊥
  IsTyped is (matvec a b init (m ∷ [])) =
      IsValue is a
      × IsValue is b
      × IsValue is init
      × IsVector m init
      × ((k : ℕ) × (IsMatrix m k a × IsVector k b))
  IsTyped is (matvec a b init shape) = ⊥
  IsTyped is (matmul a b init (m ∷ n ∷ [])) =
      IsValue is a
      × IsValue is b
      × IsValue is init
      × IsMatrix m n init
      × ((k : ℕ) × (IsMatrix m k a × IsMatrix k n b))
  IsTyped is (matmul a b init shape) = ⊥

  abbrev pub AllTyped : List (Instruction F) → Type 0
  AllTyped [] = Unit
  AllTyped (i ∷ is) = IsTyped is i × AllTyped is

  -- A value stays one when an instruction follows.
  IsValue-later :
      (is : List (Instruction F)) (i : Instruction F) (v : TensorValue)
      → IsValue is v
      → IsValue (i ∷ is) v
  IsValue-later is i v h = (omega (arith, h.0), ground (arith, h.0, h.1))

  emitted-IsValue : (is : List (Instruction F)) (i : Instruction F) → IsValue (i ∷ is) (emit i is).0
  unfolding emit
  emitted-IsValue is i = (omega arith, ground arith)

  -- Well-typed instructions with a value of some type.
  abbrev pub Yields : ValueType → TensorValue × List (Instruction F) → Type 0
  Yields t r = AllTyped r.1 × (IsValue r.1 r.0 × (r.0.value_type ≡ t))

  emit-Yields :
      (i : Instruction F) (is : List (Instruction F))
      → IsTyped is i
      → AllTyped is
      → Yields (result_type i) (emit i is)
  unfolding emit
  emit-Yields i is h k = ((h, k), (emitted-IsValue is i, refl))

  -- insertMul of a square matrix and a vector: it gives a vector.
  product-Yields :
      (n : ℕ) (a b : TensorValue) (is : List (Instruction F))
      → AllTyped is
      → IsValue is a
      → IsMatrix n n a
      → IsValue is b
      → IsVector n b
      → Post ⊥ (Yields (tensor complex_f64 (n ∷ []))) (emit_product (matvec a b) (n ∷ []) is)
  unfolding emit_product emit result_type
  product-Yields n a b is h va ma vb mb =
      let out : Instruction F = empty (n ∷ []) in
      let init : TensorValue = record {
        id = length is;
        value_type = tensor complex_f64 (n ∷ []);
      } in
      let typed : IsTyped (out ∷ is) (matvec a b init (n ∷ [])) = (
        IsValue-later is out a va,
        IsValue-later is out b vb,
        emitted-IsValue is out,
        refl,
        (n, (ma, mb)),
      ) in
      ((typed, (tt, h)), (emitted-IsValue (out ∷ is) (matvec a b init (n ∷ [])), refl))

  matvec-Yields :
      (n : ℕ) (a b : TensorValue) (is : List (Instruction F))
      → AllTyped is
      → IsValue is a
      → IsMatrix n n a
      → IsValue is b
      → IsVector n b
      → Post ⊥ (Yields (tensor complex_f64 (n ∷ []))) (insert_mul_n (a ∷ b ∷ []) is)
  unfolding insert_mul_n insert_mul fold_mul insert_mul_typed insert_mul_of
  matvec-Yields n a b is h va ma vb mb = by_types a.value_type b.value_type ma mb
    where
      vector : ValueType
      vector = tensor complex_f64 (n ∷ [])

      by_types :
          (s t : ValueType)
          → s ≡ tensor complex_f64 (n ∷ n ∷ [])
          → t ≡ vector
          → Post ⊥ (Yields vector) (insert_mul_typed a b s t is >>= λ r. fold_mul r.0 [] r.1)
      by_types s t es et =
          rw (es, et, (==_iff n n).1 refl)
            (Post-bind ⊥ (Yields vector) (Yields vector) (emit_product (matvec a b) (n ∷ []) is)
              (λ r. ok r) (product-Yields n a b is h va ma vb mb) λ r y. y)

  -- The instructions of a builder are well typed, and the state is one of them, of type `t`.
  abbrev pub Holds : ValueType → TensorValue × Builder F → Type 0
  Holds t r = Yields t (r.0, r.1.emitted)

module _ {F : Type 0} (fl : Floats F) (to_string : ℤ → List ℕ) where
  length-zeros : (n : ℕ) → length (zeros fl n) ≡ n
  unfolding zeros
  length-zeros zero = refl
  length-zeros (suc n) = ap suc (length-zeros n)

  call-Yields :
      (name : Name) (t : ValueType) (ps : List F) (is : List (Instruction F))
      → AllTyped is
      → Yields t (call_function fl to_string name t ps is)
  unfolding call_function emit result_type
  call-Yields name t [] is h = emit-Yields (call name none t) is tt h
  call-Yields name t (p ∷ ps) is h =
      let i : Instruction F = constant_double (p ∷ ps) in
      let v : TensorValue = record { id = length is; value_type = result_type i } in
      emit-Yields (call name (some v) t) (i ∷ is) (emitted-IsValue is i, (suc (length ps), refl))
        (tt, h)

  -- A value stays one behind the call of a function.
  IsValue-call :
      (name : Name) (t : ValueType) (ps : List F) (is : List (Instruction F)) (v : TensorValue)
      → IsValue is v
      → IsValue (call_function fl to_string name t ps is).1 v
  unfolding call_function emit
  IsValue-call name t [] is v h = IsValue-later is (call name none t) v h
  IsValue-call name t (p ∷ ps) is v h =
      let i : Instruction F = constant_double (p ∷ ps) in
      let w : TensorValue = record { id = length is; value_type = result_type i } in
      IsValue-later (i ∷ is) (call name (some w) t) v (IsValue-later is i v h)

  gate-Holds :
      (n m : ℕ) (g : Gate F) (state : TensorValue) (b : Builder F)
      → Holds (tensor complex_f64 (m ∷ [])) (state, b)
      → Post ⊥
          (Holds (tensor complex_f64 (m ∷ [])))
          (convert_gate fl to_string n (tensor complex_f64 (m ∷ m ∷ [])) g state b)
  unfolding convert_gate
  gate-Holds n m g state b h =
      let params = get_parameters_values fl g.parameters in
      let matrix_type = tensor complex_f64 (m ∷ m ∷ []) in
      let name = function_name fl to_string n g in
      let matrix = call_function fl to_string name matrix_type params b.emitted in
      let y = call-Yields name matrix_type params b.emitted h.0 in
      Post-bind ⊥ (Yields (tensor complex_f64 (m ∷ []))) (Holds (tensor complex_f64 (m ∷ [])))
        (insert_mul_n (matrix.0 ∷ state ∷ []) matrix.1)
        (λ r. ok (
          r.0,
          record {
            emitted = r.1;
            declared = inline_function name matrix_type (length params) b.declared;
          },
        ))
        (matvec-Yields m matrix.0 state matrix.1 y.0 y.1.0 y.1.1
          (IsValue-call name matrix_type params b.emitted state h.1.0) h.1.1)
        λ r k. k

  all-Holds :
      (n m : ℕ) (ops : List (Op F)) (state : TensorValue) (b : Builder F)
      → Holds (tensor complex_f64 (m ∷ [])) (state, b)
      → Post ⊥
          (Holds (tensor complex_f64 (m ∷ [])))
          (convert_all fl to_string n (tensor complex_f64 (m ∷ m ∷ [])) ops state b)
  unfolding convert_all
  all-Holds n m [] state b h = h
  all-Holds n m (operator g ∷ ops) state b h =
      Post-bind ⊥ (Holds (tensor complex_f64 (m ∷ []))) (Holds (tensor complex_f64 (m ∷ [])))
        (convert_gate fl to_string n (tensor complex_f64 (m ∷ m ∷ [])) g state b)
        (λ r. convert_all fl to_string n (tensor complex_f64 (m ∷ m ∷ [])) ops r.0 r.1)
        (gate-Holds n m g state b h) λ r k. all-Holds n m ops r.0 r.1 k
  all-Holds n m (plain p ∷ ops) state b h = all-Holds n m ops state b h

  -- convertQuakeToLinAlg returns on every kernel of fewer than 31 qubits, `n`, with instructions that are well
  -- typed and a value of type `tensor<2^n x complex<f64>>` among their results.
  pub convert_quake_to_lin_alg-Holds :
      (n : ℕ) (circuit : List (Op F)) (ds : List Declaration)
      → n < 31
      → Post ⊥
          (Holds (tensor complex_f64 (2 ^ n ∷ [])))
          (convert_quake_to_lin_alg fl to_string n circuit ds)
  unfolding convert_quake_to_lin_alg emit result_type
  convert_quake_to_lin_alg-Holds n circuit ds small =
      let size = 2 ^ n in
      let fits : ltb n 31 ≡ true = ground (arith, small) in
      let zero_state : Instruction F = constant_complex (size ∷ []) (zeros fl size) in
      rw fits (
        all-Holds n size circuit (record { id = 0; value_type = tensor complex_f64 (size ∷ []) })
          (record { emitted = zero_state ∷ []; declared = ds })
          (emit-Yields zero_state [] (length-zeros size) tt))
