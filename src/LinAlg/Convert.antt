-- ===== src/LinAlg/Convert.antt =====
-- lib/Interfaces/InlineGatesToArithLinAlg.cpp: initializeQubits, inlineFunction,
-- createDoubleTensor and convertQuakeToLinAlg; lib/Passes/CodeGen/QuakeToLinAlg.cpp:
-- runOnOperation. `to_string` is `std::to_string`. The other functions of the module have no name
-- of this form.
use mqss_passes_suite.Base.{
  ℕ, zero, suc, ◌==◌, ◌^◌, ℤ, pos, Bool, true, false, ◌&&◌, ◌||◌, if◌then◌else◌, List, [], ◌∷◌,
  ◌++◌, length, Option, none, some, Result, ok, fault, overflow, ltb, ◌>>=◌,
}
use mqss_passes_suite.Quake.Ops.{Gate, Op, operator, plain, same_kind}
use mqss_passes_suite.Quake.Floats.{Floats, get_parameters_values}
use mqss_passes_suite.Quake.Query.{get_indices_of_value_range, get_number_of_qubits}
use mqss_passes_suite.LinAlg.Tensors.{
  Name, complex_f64, ValueType, tensor, TensorValue, Instruction, constant_complex, constant_double,
  call, emit, insert_mul_n,
}

-- A private function without a body: the size of its argument, if it has one, and its result.
pub record Declaration : Type 0 where
  pub name : Name
  pub argument : Option ℕ
  pub result_type : ValueType

unfoldable pub same_text : List ℕ → List ℕ → Bool
same_text [] [] = true
same_text (c ∷ cs) (d ∷ ds) = c == d && same_text cs ds
same_text _ _ = false

unfoldable pub same_name : Name → Name → Bool
unfolding same_text same_kind
same_name a b =
    same_kind a.gate_name b.gate_name
    && (a.qubits == b.qubits
        && (same_text a.control_string b.control_string
            && same_text a.target_string b.target_string))

-- hasFunc
unfoldable pub has_func : List Declaration → Name → Bool
unfolding same_name
has_func [] name = false
has_func (d ∷ ds) name = same_name d.name name || has_func ds name

-- inlineFunction: the functions of the module, the new one first.
unfoldable pub inline_function : Name → ValueType → ℕ → List Declaration → List Declaration
unfolding has_func
inline_function name matrix_type number_parameters ds =
    if has_func ds name
    then ds
    else record {
      name = name;
      argument = (if number_parameters == 0 then none else some number_parameters);
      result_type = matrix_type;
    }
      ∷ ds

-- The text between brackets.
unfoldable pub join_indices : (ℤ → List ℕ) → List ℤ → List ℕ
join_indices to_string [] = []
join_indices to_string (i ∷ is) = to_string i ++ join_indices to_string is

unfoldable pub zeros : {F : Type 0} → Floats F → ℕ → List (F × F)
zeros fl zero = []
zeros fl (suc n) = (fl.of_int (pos 0), fl.of_int (pos 0)) ∷ zeros fl n

-- The instructions of the new function, and the functions that the module has.
pub record Builder (F : Type 0) : Type 0 where
  pub emitted : List (Instruction F)
  pub declared : List Declaration

module _ {F : Type 0} (fl : Floats F) (to_string : ℤ → List ℕ) where
  unfoldable pub function_name : ℕ → Gate F → Name
  unfolding join_indices get_indices_of_value_range
  function_name n g = record {
    gate_name = g.kind;
    qubits = n;
    control_string = join_indices to_string (get_indices_of_value_range g.controls);
    target_string = join_indices to_string (get_indices_of_value_range g.targets);
  }

  -- The call of the function of a gate, with a tensor of its parameters if it has any.
  unfoldable pub call_function :
      Name → ValueType → List F → List (Instruction F) → TensorValue × List (Instruction F)
  unfolding emit
  call_function name matrix_type [] is = emit (call name none matrix_type) is
  call_function name matrix_type (p ∷ ps) is =
      let arguments = emit (constant_double (p ∷ ps)) is in
      emit (call name (some arguments.0) matrix_type) arguments.1

  -- The callback of the walk on a gate.
  unfoldable pub convert_gate :
      ℕ → ValueType → Gate F → TensorValue → Builder F → Result (TensorValue × Builder F)
  unfolding function_name call_function inline_function insert_mul_n get_parameters_values
  convert_gate n matrix_type g state b =
      let params = get_parameters_values fl g.parameters in
      let name = function_name n g in
      let matrix = call_function name matrix_type params b.emitted in
      insert_mul_n (matrix.0 ∷ state ∷ []) matrix.1 >>= λ r. ok (
        r.0,
        record {
          emitted = r.1;
          declared = inline_function name matrix_type (length params) b.declared;
        },
      )

  unfoldable pub convert_all :
      ℕ → ValueType → List (Op F) → TensorValue → Builder F → Result (TensorValue × Builder F)
  unfolding convert_gate
  convert_all n matrix_type [] state b = ok (state, b)
  convert_all n matrix_type (operator g ∷ ops) state b =
      convert_gate n matrix_type g state b >>= λ r. convert_all n matrix_type ops r.0 r.1
  convert_all n matrix_type (plain p ∷ ops) state b = convert_all n matrix_type ops state b

  -- convertQuakeToLinAlg on an empty function, with initializeQubits. Its loop counts to 2^n in a
  -- number of type `int`, of 32 bits, which is too small from 31 qubits on.
  unfoldable pub convert_quake_to_lin_alg :
      ℕ → List (Op F) → List Declaration → Result (TensorValue × Builder F)
  unfolding emit zeros convert_all
  convert_quake_to_lin_alg n circuit ds =
      let shape = 2 ^ n ∷ [] in
      let state = emit (constant_complex shape (zeros fl (2 ^ n))) [] in
      let converted =
        convert_all n (tensor complex_f64 (2 ^ n ∷ 2 ^ n ∷ [])) circuit state.0
          (record { emitted = state.1; declared = ds }) in
      if ltb n 31 then converted else fault overflow

-- A function of the module, and the function that replaces a kernel: its instructions and the value
-- that it returns.
pub record ModuleFunction (F : Type 0) : Type 0 where
  pub is_cudaq_kernel : Bool
  pub body : List (Op F)

pub record GpuFunction (F : Type 0) : Type 0 where
  pub result_type : ValueType
  pub instructions : List (Instruction F)
  pub returned : TensorValue

module _ {F : Type 0} (fl : Floats F) (to_string : ℤ → List ℕ) where
  -- runOnOperation: the new functions, and the functions that they call. The kernels are erased.
  unfoldable pub quake_to_lin_alg :
      List (ModuleFunction F) → List Declaration → Result (List (GpuFunction F) × List Declaration)
  unfolding convert_quake_to_lin_alg get_number_of_qubits
  quake_to_lin_alg [] ds = ok ([], ds)
  quake_to_lin_alg (f ∷ fs) ds =
      let skipped = quake_to_lin_alg fs ds in
      let n = get_number_of_qubits f.body in
      if f.is_cudaq_kernel
      then (convert_quake_to_lin_alg fl to_string n f.body ds >>= λ r.
          quake_to_lin_alg fs r.1.declared >>= λ rest. ok (
            record {
              result_type = tensor complex_f64 (2 ^ n ∷ []);
              instructions = r.1.emitted;
              returned = r.0;
            }
                ∷ rest.0,
            rest.1,
          ))
      else skipped
