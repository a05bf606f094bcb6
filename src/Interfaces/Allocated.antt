-- ===== src/Interfaces/Allocated.antt =====
-- The qubits that the operations inserted by QASM3ToQuake allocate.
use mqss_passes_suite.Base.{
  ℕ, ◌≡◌, refl, Bool, true, false, List, [], ◌∷◌, ◌++◌, map, ok, Post, ◌>>=◌, arith, ==_iff,
}
use mqss_passes_suite.Quake.Ops.{Op, Value}
use mqss_passes_suite.Quake.Query.{get_number_of_qubits}
use mqss_passes_suite.Quake.Count.{count-append}
use mqss_passes_suite.Quake.Floats.{Floats, create_float_value}
use mqss_passes_suite.Interfaces.GatesMap.{Params, GateId, Entry}
use mqss_passes_suite.Interfaces.Decomposed.{insert_entry, insert_qasm_gate_into_quake_module}
use mqss_passes_suite.Interfaces.Qasm.{
  GateCall, Statement, gate_call, declaration, assignment, other_statement,
}
use mqss_passes_suite.Interfaces.QasmToQuake.{QasmVectors}
use mqss_passes_suite.Interfaces.Program.{
  Measurement, order_vectors, total_qubits, insert_allocated_qubits, measure_all,
  parse_and_insert_measurements, measure_vectors, extract_ops, insert_gate, insert_gates,
  insert_measurements, run_on_operation,
}
use mqss_passes_suite.Interfaces.Measured.{alloca_ops-total}

-- The operations allocate this many qubits.
abbrev pub Allocates : {F : Type 0} → ℕ → List (Op F) → Type 0
Allocates n ops = get_number_of_qubits ops ≡ n

module _ (F : Type 0) where
  extract_ops-Allocates : (ps : List (ℕ × ℕ)) → Allocates {F = F} 0 (extract_ops ps)
  unfolding extract_ops get_number_of_qubits
  extract_ops-Allocates [] = refl
  extract_ops-Allocates (p ∷ ps) = ground (arith, extract_ops-Allocates ps)

  measure_all-Allocates :
      (vectors : QasmVectors) (ms : List Measurement)
      → Post (Unit {0}) (Allocates {F = F} 0) (measure_all vectors ms)
  unfolding measure_all get_number_of_qubits
  measure_all-Allocates vectors [] = refl
  measure_all-Allocates vectors (m ∷ ms) = ground (arith, measure_all-Allocates vectors ms)

  measure_vectors-Allocates :
      (vectors : QasmVectors) (vs : List (ℕ × ℕ))
      → Post (Unit {0}) (Allocates {F = F} 0) (measure_vectors vectors vs)
  unfolding measure_vectors get_number_of_qubits
  measure_vectors-Allocates vectors [] = refl
  measure_vectors-Allocates vectors (v ∷ vs) = ground (arith, measure_vectors-Allocates vectors vs)

module _ {F : Type 0} (fl : Floats F) where
  constants-Allocates : (values : List F) → Allocates 0 (map (create_float_value fl) values)
  unfolding get_number_of_qubits
  constants-Allocates [] = refl
  constants-Allocates (a ∷ bs) = ground (arith, constants-Allocates bs)

  insert_entry-Allocates :
      (e : Entry) (g : GateId) (adj : Bool) (ps : Params F) (cs ts : List Value)
      → Post (Unit {0}) (Allocates 0) (insert_entry fl e g adj ps cs ts)
  unfolding insert_entry get_number_of_qubits
  insert_entry-Allocates e g adj ps cs ts = ground arith

  insert_gate-Allocates :
      (call : GateCall F) (vectors : QasmVectors)
      → Post (Unit {0}) (Allocates 0) (insert_gate fl call vectors)
  unfolding insert_gate insert_qasm_gate_into_quake_module
  insert_gate-Allocates call vectors =
      grind
        (arith, count-append, constants-Allocates, extract_ops-Allocates F, insert_entry-Allocates)

  insert_gates-Allocates :
      (ss : List (Statement F)) (vectors : QasmVectors)
      → Post (Unit {0}) (Allocates 0) (insert_gates fl ss vectors)
  unfolding insert_gates get_number_of_qubits
  insert_gates-Allocates [] vectors = refl
  insert_gates-Allocates (gate_call call ∷ ss) vectors =
      grind
        (arith, count-append, insert_gate-Allocates call vectors, insert_gates-Allocates ss vectors)
  insert_gates-Allocates (declaration n b o ∷ ss) vectors = insert_gates-Allocates ss vectors
  insert_gates-Allocates (assignment b o e ∷ ss) vectors = insert_gates-Allocates ss vectors
  insert_gates-Allocates (other_statement ∷ ss) vectors = insert_gates-Allocates ss vectors

  insert_measurements-Allocates :
      (all : Bool) (ss : List (Statement F)) (vectors : QasmVectors) (order : List (ℕ × ℕ))
      → Post (Unit {0}) (Allocates 0) (insert_measurements fl all ss vectors order)
  unfolding insert_measurements parse_and_insert_measurements
  insert_measurements-Allocates true ss vectors order = measure_vectors-Allocates F vectors order
  insert_measurements-Allocates false ss vectors order =
      grind (arith, measure_all-Allocates F vectors)

  rest-Allocates :
      (all : Bool) (ss : List (Statement F)) (n : ℕ) (pre : List (Op F)) (vectors : QasmVectors)
      (order : List (ℕ × ℕ))
      → Allocates n pre
      → Post (Unit {0}) (Allocates n) (
          insert_gates fl ss vectors >>= λ gates.
          insert_measurements fl all ss vectors order >>= λ measures.
          ok (pre ++ (gates ++ measures)))
  rest-Allocates all ss n pre vectors order h = grind (
    arith,
    count-append,
    insert_gates-Allocates ss vectors,
    insert_measurements-Allocates all ss vectors order,
  )

  start-Allocates :
      (all : Bool) (program : List (Statement F)) (n : ℕ)
      (start : List (Op F) × QasmVectors × List (ℕ × ℕ))
      → Allocates n start.0
      → Post (Unit {0}) (Allocates n) (elim (start.1) [
        | [] ↦ ok start.0
        | _ ∷ _ ↦
            (insert_gates fl program start.1 >>= λ gates.
            insert_measurements fl all program start.1 start.2 >>= λ measures.
            ok (start.0 ++ (gates ++ measures)))
      ])
  start-Allocates all program n (pre, [], order) h = h
  start-Allocates all program n (pre, v ∷ vs, order) h =
      rest-Allocates all program n pre (v ∷ vs) order h

  allocation-Allocates :
      (first : ℕ) (program : List (Statement F))
      → Allocates (total_qubits (order_vectors program)) (insert_allocated_qubits first program).0
  unfolding insert_allocated_qubits get_number_of_qubits
  allocation-Allocates first program = ground (
    arith,
    alloca_ops-total F (order_vectors program),
    ==_iff (total_qubits (order_vectors program)) 0,
  )

  -- The operations that QASM3ToQuake inserts, if no fault occurs, allocate as many qubits as the
  -- vectors that the program declares.
  pub run_on_operation-Allocates :
      (first : ℕ) (all : Bool) (program : List (Statement F))
      → Post
          (Unit {0})
          (Allocates (total_qubits (order_vectors program)))
          (run_on_operation fl first all program)
  unfolding run_on_operation
  run_on_operation-Allocates first all program =
      start-Allocates all program (total_qubits (order_vectors program))
        (insert_allocated_qubits first program) (allocation-Allocates first program)
