-- ===== src/Interfaces/Program.antt =====
-- lib/Interfaces/QASMToQuake.cpp and the pass QASM3ToQuake that calls it: the operations that a
-- QASM program inserts in a kernel, in order.
use mqss_passes_suite.Base.{
  ℕ, suc, ◌+◌, Bool, true, false, ◌==◌, ltb, if◌then◌else◌, List, [], ◌∷◌, ◌++◌, map, none, some,
  Result, ok, fault, failed_assertion, ◌>>=◌,
}
use mqss_passes_suite.Quake.Ops.{
  extract_ref, constant, Op, plain, alloca_veq, extract, measure, ref, veq,
}
use mqss_passes_suite.Quake.Floats.{Floats, create_float_value}
use mqss_passes_suite.Interfaces.Decomposed.{insert_qasm_gate_into_quake_module}
use mqss_passes_suite.Interfaces.Qasm.{
  BinaryOp, add_op, subtract_op, multiply_op, divide_op, other_binary, Expression, constant_int,
  constant_fp, negated, other_unary, binary, identifier_pi, other_expression, GateCall, measured,
  measured_nothing, not_measured, Statement, gate_call, declaration, assignment,
}
use mqss_passes_suite.Interfaces.QasmToQuake.{
  QasmVectors, at_name, has_dg, controls_of_call, qubits_of, controls_part, targets_part,
}

-- A classical index with the register and the index of the qubit measured for it.
abbrev pub Measurement : Type 0
Measurement = ℕ × (ℕ × ℕ)

-- `ClassicalRegToQVector.emplace`: a map by the classical index, in order, where the first value
-- of a key stays.
unfoldable pub emplace : Measurement → List Measurement → List Measurement
emplace m [] = m ∷ []
emplace m (n ∷ ns) =
    let rest = emplace m ns in
    if ltb m.0 n.0 then m ∷ n ∷ ns else if m.0 == n.0 then n ∷ ns else n ∷ rest

unfoldable pub total_qubits : List (ℕ × ℕ) → ℕ
total_qubits [] = 0
total_qubits (v ∷ vs) = v.1 + total_qubits vs

-- The names of the vectors, which are numbered from `first` in order of declaration.
unfoldable pub vector_names : ℕ → List (ℕ × ℕ) → QasmVectors
vector_names first [] = []
vector_names first (v ∷ vs) = (v.0, first) ∷ vector_names (suc first) vs

module _ {F : Type 0} where
  -- The vectors of qubits that a program declares, with their sizes.
  unfoldable pub order_vectors : List (Statement F) → List (ℕ × ℕ)
  order_vectors [] = []
  order_vectors (declaration name true (some n) ∷ ss) = (name, n) ∷ order_vectors ss
  order_vectors (_ ∷ ss) = order_vectors ss

  -- One `quake.alloca` for each vector.
  unfoldable pub alloca_ops : List (ℕ × ℕ) → List (Op F)
  alloca_ops [] = []
  alloca_ops (v ∷ vs) = plain (alloca_veq v.1) ∷ alloca_ops vs

  -- insertAllocatedQubits, with the vectors in order of declaration.
  unfoldable pub insert_allocated_qubits :
      ℕ → List (Statement F) → List (Op F) × QasmVectors × List (ℕ × ℕ)
  unfolding order_vectors total_qubits alloca_ops vector_names
  insert_allocated_qubits first program =
      let order = order_vectors program in
      if total_qubits order == 0
      then ([], [], order)
      else (alloca_ops order, vector_names first order, order)

  -- The measurements of a program, in a map that is filled in the order of the statements.
  unfoldable pub collect : List Measurement → List (Statement F) → Result (List Measurement)
  unfolding emplace
  collect found [] = ok found
  collect found (assignment b none e ∷ ss) = fault failed_assertion
  collect found (assignment b (some c) measured_nothing ∷ ss) = fault failed_assertion
  collect found (assignment b (some c) not_measured ∷ ss) = collect found ss
  collect found (assignment b (some c) (measured q) ∷ ss) = elim q.index [
    | none ↦ collect found ss
    | some i ↦ collect (emplace (c, (q.identifier, i)) found) ss
  ]
  collect found (_ ∷ ss) = collect found ss

  unfoldable pub measure_all : QasmVectors → List Measurement → Result (List (Op F))
  unfolding at_name
  measure_all vectors [] = ok []
  measure_all vectors (m ∷ ms) =
      let rest = measure_all vectors ms in
      at_name m.1.0 vectors >>= λ v. rest >>= λ ops.
      ok (plain (extract v m.1.1) ∷ plain (measure (ref (extract_ref v m.1.1) ∷ [])) ∷ ops)

  -- parseAndInsertMeasurements
  unfoldable pub parse_and_insert_measurements :
      List (Statement F) → QasmVectors → Result (List (Op F))
  unfolding collect measure_all
  parse_and_insert_measurements statements vectors =
      collect [] statements >>= λ found. measure_all vectors found

  -- The measurements of whole vectors, where all qubits are measured.
  unfoldable pub measure_vectors : QasmVectors → List (ℕ × ℕ) → Result (List (Op F))
  unfolding at_name
  measure_vectors vectors [] = ok []
  measure_vectors vectors (v ∷ vs) =
      let rest = measure_vectors vectors vs in
      at_name v.0 vectors >>= λ _. rest >>= λ ops. ok (plain (measure (veq v.1 ∷ [])) ∷ ops)

  -- The `quake.extract_ref` operations that a gate call creates, one for each operand.
  unfoldable pub extract_ops : List (ℕ × ℕ) → List (Op F)
  extract_ops [] = []
  extract_ops (p ∷ ps) = plain (extract p.0 p.1) ∷ extract_ops ps

module _ {F : Type 0} (fl : Floats F) where
  unfoldable pub binary_value : BinaryOp → F → F → Result F
  binary_value add_op a b = ok (fl.add a b)
  binary_value subtract_op a b = ok (fl.subtract a b)
  binary_value multiply_op a b = ok (fl.multiply a b)
  binary_value divide_op a b = ok (fl.divide a b)
  binary_value other_binary a b = fault failed_assertion

  -- evaluateExpression
  unfoldable pub evaluate_expression : Expression F → Result F
  unfolding binary_value
  evaluate_expression (constant_int n) = ok (fl.of_int n)
  evaluate_expression (constant_fp a) = ok a
  evaluate_expression (negated e) = evaluate_expression e >>= λ a. ok (fl.negate a)
  evaluate_expression (other_unary e) = evaluate_expression e >>= λ a. fault failed_assertion
  evaluate_expression (binary op l r) =
      let right = evaluate_expression r in
      evaluate_expression l >>= λ a. right >>= λ b. binary_value op a b
  evaluate_expression identifier_pi = ok fl.pi
  evaluate_expression other_expression = fault failed_assertion

  unfoldable pub evaluate_all : List (Expression F) → Result (List F)
  unfolding evaluate_expression
  evaluate_all [] = ok []
  evaluate_all (e ∷ es) =
      let rest = evaluate_all es in evaluate_expression e >>= λ a. rest >>= λ bs. ok (a ∷ bs)

  -- insertGate
  unfoldable pub insert_gate : GateCall F → QasmVectors → Result (List (Op F))
  unfolding has_dg controls_of_call qubits_of controls_part targets_part extract_ops evaluate_all
      insert_qasm_gate_into_quake_module
  insert_gate call vectors =
      let num_controls = controls_of_call call.gate_id call.modifiers in
      evaluate_all call.arguments >>= λ values. qubits_of vectors call.operands >>= λ qubits.
      insert_qasm_gate_into_quake_module fl call.gate_id (has_dg call.gate_id) (map constant values)
        (controls_part num_controls qubits) (targets_part num_controls qubits)
      >>= λ gates. ok (map (create_float_value fl) values ++ (extract_ops qubits ++ gates))

  -- The loop over the gate calls of a program.
  unfoldable pub insert_gates : List (Statement F) → QasmVectors → Result (List (Op F))
  unfolding insert_gate
  insert_gates [] vectors = ok []
  insert_gates (gate_call call ∷ ss) vectors =
      let rest = insert_gates ss vectors in
      insert_gate call vectors >>= λ ops. rest >>= λ more. ok (ops ++ more)
  insert_gates (_ ∷ ss) vectors = insert_gates ss vectors

  -- The measurements of QASM3ToQuake.
  unfoldable pub insert_measurements :
      Bool → List (Statement F) → QasmVectors → List (ℕ × ℕ) → Result (List (Op F))
  unfolding measure_vectors parse_and_insert_measurements
  insert_measurements true program vectors order = measure_vectors vectors order
  insert_measurements false program vectors order = parse_and_insert_measurements program vectors

  -- QASM3ToQuake::runOnOperation: the operations that go before the return of the kernel.
  unfoldable pub run_on_operation : ℕ → Bool → List (Statement F) → Result (List (Op F))
  unfolding insert_allocated_qubits insert_gates insert_measurements
  run_on_operation first measure_all_qubits program =
      let allocation = insert_allocated_qubits first program in
      elim (allocation.1) [
        | [] ↦ ok allocation.0
        | _ ∷ _ ↦
            (insert_gates program allocation.1 >>= λ gates.
            insert_measurements measure_all_qubits program allocation.1 allocation.2 >>= λ measures.
            ok (allocation.0 ++ (gates ++ measures)))
      ]
