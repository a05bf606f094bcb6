-- ===== src/LinAlg/Declared.antt =====
-- The functions that the instructions of lib/Interfaces/InlineGatesToArithLinAlg.cpp call.
use mqss_passes_suite.Base.{
  arith, suc, ap, subst, sym, ltb, ◌∙◌, Option, none, some, ℕ, ◌^◌, ◌≡◌, refl, ◌==◌, ==_iff, ◌||◌,
  ℤ, Bool, true, false, Bool-cases, inl, inr, if◌then◌else◌, List, [], ◌∷◌, All, length, Result, ok,
  fault, failed_assertion, Post, Post-bind, Post-map,
}
use mqss_passes_suite.Quake.Ops.{GateKind, Parameter, Gate, Op, operator, plain, same_kind_refl}
use mqss_passes_suite.Quake.Floats.{Floats, get_parameters_values}
use mqss_passes_suite.LinAlg.Tensors.{
  Name, complex_f64, f64, ValueType, tensor, scalar, TensorValue, Instruction, constant_complex,
  constant_double, empty, call, mul, generic_mul, matvec, matmul, emit, emit_product, insert_mul_of,
  insert_mul_typed, insert_mul, fold_mul, insert_mul_n,
}
use mqss_passes_suite.LinAlg.Convert.{
  Declaration, Builder, same_text, same_name, has_func, inline_function, zeros, function_name,
  call_function, convert_gate, convert_all, convert_quake_to_lin_alg,
}

same_text_refl : (cs : List ℕ) → same_text cs cs ≡ true
unfolding same_text
same_text_refl [] = refl
same_text_refl (c ∷ cs) = rw ((==_iff c c).1 refl, same_text_refl cs) refl

same_name_refl : (a : Name) → same_name a a ≡ true
unfolding same_name
same_name_refl a =
    rw
      (
        same_kind_refl a.gate_name,
        (==_iff a.qubits a.qubits).1 refl,
        same_text_refl a.control_string,
        same_text_refl a.target_string,
      )
      refl

or_true : (b : Bool) → (b || true) ≡ true
or_true true = refl
or_true false = refl

-- The second table has the names of the first.
abbrev pub Keeps : List Declaration → List Declaration → Type 0
Keeps ds ds' = (a : Name) → has_func ds a ≡ true → has_func ds' a ≡ true

-- No two functions have one name.
abbrev pub IsDistinct : List Declaration → Type 0
IsDistinct [] = Unit
IsDistinct (d ∷ ds) = (has_func ds d.name ≡ false) × IsDistinct ds

-- The table after the function of a name is inlined.
abbrev Inlined : List Declaration → Name → List Declaration → Type 0
Inlined ds a ds' = Keeps ds ds' × (has_func ds' a ≡ true) × (IsDistinct ds → IsDistinct ds')

inline_function-Inlined :
    (a : Name) (t : ValueType) (n : ℕ) (ds : List Declaration)
    → Inlined ds a (inline_function a t n ds)
unfolding inline_function has_func
inline_function-Inlined a t n ds = elim (Bool-cases (has_func ds a)) [
  | inl h ↦ rw h ((λ b k. k), h, λ k. k)
  | inr h ↦ rw h ((λ b k. rw k (or_true (same_name a b))), rw (same_name_refl a) refl, λ k. (h, k))
]

-- The argument of a function of a gate with a number of parameters, and its result.
abbrev pub argument_of : ℕ → Option ℕ
argument_of n = if n == 0 then none else some n

abbrev pub matrix_of : ℕ → ValueType
matrix_of n = tensor complex_f64 (2 ^ n ∷ 2 ^ n ∷ [])

positive : (k : ℕ) → argument_of (suc k) ≡ some (suc k)
positive k = rw (nonzero k) refl
  where
    nonzero : (k : ℕ) → (suc k == 0) ≡ false
    nonzero k = ground arith

-- A value is an argument of a function.
abbrev pub IsArgument : Option ℕ → Option TensorValue → Type 0
IsArgument none none = Unit
IsArgument (some n) (some v) = v.value_type ≡ tensor f64 (n ∷ [])
IsArgument _ _ = ⊥

-- A function has the type of a gate of its class, where `arity` is the number of parameters.
abbrev pub IsProper : (GateKind → ℕ) → Declaration → Type 0
IsProper arity d =
    (d.argument ≡ argument_of (arity d.name.gate_name)) × (d.result_type ≡ matrix_of d.name.qubits)

-- A gate has as many parameters as its class says.
abbrev pub HasArity : {F : Type 0} → (GateKind → ℕ) → Op F → Type 0
HasArity arity (operator g) = length g.parameters ≡ arity g.kind
HasArity arity (plain n) = Unit

inline_function-IsProper :
    (arity : GateKind → ℕ) (a : Name) (n : ℕ) (ds : List Declaration)
    → n ≡ arity a.gate_name
    → All (IsProper arity) ds
    → All (IsProper arity) (inline_function a (matrix_of a.qubits) n ds)
unfolding inline_function
inline_function-IsProper arity a n ds e h = elim (Bool-cases (has_func ds a)) [
  | inl held ↦ rw held h
  | inr new ↦ rw new ((ap argument_of e, refl), h)
]

module _ {F : Type 0} (arity : GateKind → ℕ) where
  -- The function of a call is one of `ds`, and the call fits the type of such a function.
  abbrev pub IsDeclared : List Declaration → Instruction F → Type 0
  IsDeclared ds (call name v t) =
      (has_func ds name ≡ true)
      × IsArgument (argument_of (arity name.gate_name)) v
      × (t ≡ matrix_of name.qubits)
  IsDeclared ds i = Unit

  abbrev pub Calls : List Declaration → List (Instruction F) → Type 0
  Calls ds is = All (IsDeclared ds) is

  IsDeclared-later :
      (ds ds' : List Declaration) (i : Instruction F)
      → Keeps ds ds'
      → IsDeclared ds i
      → IsDeclared ds' i
  IsDeclared-later ds ds' (constant_complex s vs) k h = tt
  IsDeclared-later ds ds' (constant_double vs) k h = tt
  IsDeclared-later ds ds' (empty s) k h = tt
  IsDeclared-later ds ds' (call name v t) k h = (k name h.0, h.1, h.2)
  IsDeclared-later ds ds' (mul a b) k h = tt
  IsDeclared-later ds ds' (generic_mul a b c s) k h = tt
  IsDeclared-later ds ds' (matvec a b c s) k h = tt
  IsDeclared-later ds ds' (matmul a b c s) k h = tt

  pub Calls-later :
      (ds ds' : List Declaration) (is : List (Instruction F))
      → Keeps ds ds'
      → Calls ds is
      → Calls ds' is
  Calls-later ds ds' [] k h = tt
  Calls-later ds ds' (i ∷ is) k h = (IsDeclared-later ds ds' i k h.0, Calls-later ds ds' is k h.1)

  -- The products call nothing.
  abbrev Fine : List Declaration → Result (TensorValue × List (Instruction F)) → Type 0
  Fine ds m = Post (Unit {0}) (λ r. Calls ds r.1) m

  if-Fine :
      (ds : List Declaration) (b : Bool) (m : Result (TensorValue × List (Instruction F)))
      → Fine ds m
      → Fine ds (if b then m else fault failed_assertion)
  if-Fine ds true m h = h
  if-Fine ds false m h = tt

  insert_mul_of-Fine :
      (ds : List Declaration) (a b : TensorValue) (s t : List ℕ) (is : List (Instruction F))
      → Calls ds is
      → Fine ds (insert_mul_of a b s t is)
  unfolding insert_mul_of emit_product emit
  insert_mul_of-Fine ds a b [] [] is h = (tt, h)
  insert_mul_of-Fine ds a b [] (n ∷ ns) is h = tt
  insert_mul_of-Fine ds a b (m ∷ []) [] is h = tt
  insert_mul_of-Fine ds a b (m ∷ []) (n ∷ []) is h =
      if-Fine ds (m == n) (emit_product (generic_mul a b) (m ∷ []) is) (tt, (tt, h))
  insert_mul_of-Fine ds a b (m ∷ []) (n ∷ p ∷ ns) is h = tt
  insert_mul_of-Fine ds a b (m ∷ k ∷ []) [] is h = tt
  insert_mul_of-Fine ds a b (m ∷ k ∷ []) (n ∷ []) is h =
      if-Fine ds (k == n) (emit_product (matvec a b) (m ∷ []) is) (tt, (tt, h))
  insert_mul_of-Fine ds a b (m ∷ k ∷ []) (l ∷ n ∷ []) is h =
      if-Fine ds (k == l) (emit_product (matmul a b) (m ∷ n ∷ []) is) (tt, (tt, h))
  insert_mul_of-Fine ds a b (m ∷ k ∷ []) (l ∷ n ∷ p ∷ ns) is h = tt
  insert_mul_of-Fine ds a b (m ∷ k ∷ q ∷ ks) [] is h = tt
  insert_mul_of-Fine ds a b (m ∷ k ∷ q ∷ ks) (n ∷ []) is h = tt
  insert_mul_of-Fine ds a b (m ∷ k ∷ q ∷ ks) (n ∷ p ∷ ns) is h = tt

  insert_mul_typed-Fine :
      (ds : List Declaration) (a b : TensorValue) (s t : ValueType) (is : List (Instruction F))
      → Calls ds is
      → Fine ds (insert_mul_typed a b s t is)
  unfolding insert_mul_typed
  insert_mul_typed-Fine ds a b (tensor complex_f64 s) (tensor complex_f64 t) is h =
      insert_mul_of-Fine ds a b s t is h
  insert_mul_typed-Fine ds a b (tensor complex_f64 s) (tensor f64 t) is h = tt
  insert_mul_typed-Fine ds a b (tensor complex_f64 s) (scalar e) is h = tt
  insert_mul_typed-Fine ds a b (tensor f64 s) t is h = tt
  insert_mul_typed-Fine ds a b (scalar e) t is h = tt

  insert_mul_n-Fine :
      (ds : List Declaration) (a b : TensorValue) (is : List (Instruction F))
      → Calls ds is
      → Fine ds (insert_mul_n (a ∷ b ∷ []) is)
  unfolding insert_mul_n insert_mul fold_mul
  insert_mul_n-Fine ds a b is h =
      Post-bind (Unit {0}) (λ r. Calls ds r.1) (λ r. Calls ds r.1)
        (insert_mul_typed a b a.value_type b.value_type is) (λ r. ok r)
        (insert_mul_typed-Fine ds a b a.value_type b.value_type is h) λ r k. k

  -- The table has grown from `ds`, and has the functions that are called.
  abbrev pub Grows : List Declaration → TensorValue × Builder F → Type 0
  Grows ds r =
      Keeps ds r.1.declared
      × Calls r.1.declared r.1.emitted
      × (IsDistinct ds → IsDistinct r.1.declared)
      × (All (IsProper arity) ds → All (IsProper arity) r.1.declared)

module _ {F : Type 0} (arity : GateKind → ℕ) (fl : Floats F) (to_string : ℤ → List ℕ) where
  call_function-Calls :
      (ds : List Declaration) (a : Name) (ps : List F) (is : List (Instruction F))
      → length ps ≡ arity a.gate_name
      → has_func ds a ≡ true
      → Calls arity ds is
      → Calls arity ds (call_function fl to_string a (matrix_of a.qubits) ps is).1
  unfolding call_function emit
  call_function-Calls ds a [] is e h k =
      ((h, subst (λ n. IsArgument (argument_of n) none) e tt, refl), k)
  call_function-Calls ds a (p ∷ ps) is e h k =
      let v : TensorValue = record {
        id = length is;
        value_type = tensor f64 (length (p ∷ ps) ∷ []);
      } in
      (
        (
          h,
          subst (λ o. IsArgument o (some v)) (sym (positive (length ps)) ∙ ap argument_of e) refl,
          refl,
        ),
        (tt, k),
      )

  length-values : (ps : List (Parameter F)) → length (get_parameters_values fl ps) ≡ length ps
  unfolding get_parameters_values
  length-values [] = refl
  length-values (p ∷ ps) = ap suc (length-values ps)

  gate-Grows :
      (n : ℕ) (g : Gate F) (state : TensorValue) (b : Builder F)
      → length g.parameters ≡ arity g.kind
      → Calls arity b.declared b.emitted
      → Post
          (Unit {0})
          (Grows arity b.declared)
          (convert_gate fl to_string n (matrix_of n) g state b)
  unfolding convert_gate function_name
  gate-Grows n g state b e h =
      let t = matrix_of n in
      let params = get_parameters_values fl g.parameters in
      let name = function_name fl to_string n g in
      let matrix = call_function fl to_string name t params b.emitted in
      let ds' = inline_function name t (length params) b.declared in
      let i = inline_function-Inlined name t (length params) b.declared in
      let e' : length params ≡ arity g.kind = length-values g.parameters ∙ e in
      Post-bind (Unit {0}) (λ r. Calls arity ds' r.1) (Grows arity b.declared)
        (insert_mul_n (matrix.0 ∷ state ∷ []) matrix.1)
        (λ r. ok (r.0, record { emitted = r.1; declared = ds' }))
        (insert_mul_n-Fine arity ds' matrix.0 state matrix.1 (
          call_function-Calls ds' name params b.emitted e' i.1
            (Calls-later arity b.declared ds' b.emitted i.0 h)))
        λ r k. (i.0, k, i.2, inline_function-IsProper arity name (length params) b.declared e')

  ops-Grows :
      (n : ℕ) (ops : List (Op F)) (state : TensorValue) (b : Builder F)
      → All (HasArity arity) ops
      → Calls arity b.declared b.emitted
      → Post
          (Unit {0})
          (Grows arity b.declared)
          (convert_all fl to_string n (matrix_of n) ops state b)
  unfolding convert_all
  ops-Grows n [] state b a h = ((λ a k. k), h, (λ k. k), (λ k. k))
  ops-Grows n (operator g ∷ ops) state b a h =
      Post-bind (Unit {0}) (Grows arity b.declared) (Grows arity b.declared)
        (convert_gate fl to_string n (matrix_of n) g state b)
        (λ r. convert_all fl to_string n (matrix_of n) ops r.0 r.1) (gate-Grows n g state b a.0 h)
        λ r k.
          Post-map (Unit {0}) (Grows arity r.1.declared) (Grows arity b.declared)
            (convert_all fl to_string n (matrix_of n) ops r.0 r.1)
            (λ r' k'. ((λ a e. k'.0 a (k.0 a e)), k'.1, (λ e. k'.2 (k.2 e)), (λ e. k'.3 (k.3 e))))
            (ops-Grows n ops r.0 r.1 a.1 k.1)
  ops-Grows n (plain p ∷ ops) state b a h = ops-Grows n ops state b a.1 h

  pub convert_quake_to_lin_alg-Grows :
      (n : ℕ) (circuit : List (Op F)) (ds : List Declaration)
      → All (HasArity arity) circuit
      → Post (Unit {0}) (Grows arity ds) (convert_quake_to_lin_alg fl to_string n circuit ds)
  unfolding convert_quake_to_lin_alg emit
  convert_quake_to_lin_alg-Grows n circuit ds a =
      let size = 2 ^ n in
      elim (Bool-cases (ltb n 31)) [
        | inr large ↦ rw large tt
        | inl fits ↦ rw fits (
            ops-Grows n circuit (record { id = 0; value_type = tensor complex_f64 (size ∷ []) })
              (record {
                emitted = constant_complex (size ∷ []) (zeros fl size) ∷ [];
                declared = ds;
              })
              a (tt, tt))
      ]
