-- ===== src/Interfaces/Examples.antt =====
-- Runs of lib/Interfaces on small programs, and its theorems at such programs.
use mqss_passes_suite.Base.{◌+◌, ℕ, ◌≡◌, refl, true, false, List, [], ◌∷◌, some, ok, Post}
use mqss_passes_suite.Quake.Ops.{x_op, h_op, plain, alloca_veq, extract, measure, ref, extract_ref}
use mqss_passes_suite.Quake.Query.{get_number_of_qubits}
use mqss_passes_suite.Quake.Examples.{bell, numbers}
use mqss_passes_suite.Interfaces.GatesMap.{ccx_id, h_id, entry, one_gate, Row, gate}
use mqss_passes_suite.Interfaces.Qasm.{
  QubitRef, ctrl, GateCall, measured, Statement, gate_call, declaration, assignment,
}
use mqss_passes_suite.Interfaces.QasmToQuake.{QasmVectors, controls_of_call, has_dg, qubits_of}
use mqss_passes_suite.Interfaces.Program.{collect, evaluate_all, insert_gate, run_on_operation}
use mqss_passes_suite.Interfaces.Pass.{
  Extends, declared_qubits, qasm3_to_quake, qasm3_to_quake-Extends,
}
use mqss_passes_suite.Interfaces.Arity.{
  ControlsFit, controls-ControlsFit, Inserts, insert_gate_lem, insert_gate-modifiers,
}
use mqss_passes_suite.Interfaces.Measured.{second_measurement_lost}

abbrev qubit : ℕ → QubitRef
qubit i = record { identifier = 5; index = some i }

abbrev vectors : QasmVectors
vectors = (5, 0) ∷ []

abbrev toffoli : GateCall ℕ
toffoli = record {
  gate_id = ccx_id;
  modifiers = [];
  arguments = [];
  operands = qubit 0 ∷ qubit 1 ∷ qubit 2 ∷ [];
}

abbrev toffoli_row : Row
toffoli_row = record { kind = x_op; num_params = 0; num_controls = 2; num_targets = 1 }

abbrev toffoli_qubits : List (ℕ × ℕ)
toffoli_qubits = (0, 0) ∷ (0, 1) ∷ (0, 2) ∷ []

toffoli_entry : entry toffoli.gate_id ≡ one_gate toffoli_row
unfolding entry
toffoli_entry = refl

toffoli_arguments : evaluate_all numbers toffoli.arguments ≡ ok []
unfolding evaluate_all
toffoli_arguments = refl

toffoli_operands : qubits_of vectors toffoli.operands ≡ ok toffoli_qubits
unfolding qubits_of
toffoli_operands = refl

insert_gate_example :
    Post ⊥ (Inserts x_op (has_dg ccx_id) [] 2 toffoli_qubits) (insert_gate numbers toffoli vectors)
insert_gate_example =
    insert_gate_lem numbers toffoli vectors toffoli_row [] toffoli_qubits toffoli_entry
      toffoli_arguments toffoli_operands refl refl

controls_example : ControlsFit (entry ccx_id) (controls_of_call ccx_id (ctrl (some 1) ∷ []))
controls_example = controls-ControlsFit ccx_id (ctrl (some 1) ∷ [])

modifiers_example :
    insert_gate numbers
      (record {
        gate_id = h_id;
        modifiers = ctrl (some 1) ∷ [];
        arguments = [];
        operands = qubit 0 ∷ qubit 1 ∷ [];
      })
      vectors
    ≡ insert_gate numbers
        (record {
          gate_id = h_id;
          modifiers = [];
          arguments = [];
          operands = qubit 0 ∷ qubit 1 ∷ [];
        })
        vectors
modifiers_example =
    insert_gate-modifiers numbers h_id (ctrl (some 1) ∷ []) [] (qubit 0 ∷ qubit 1 ∷ []) vectors

lost_example :
    collect {F = ℕ} [] (
      assignment 1 (some 3) (measured (qubit 0))
      ∷ assignment 2 (some 4) (measured (qubit 1))
      ∷ assignment 2 (some 3) (measured (record { identifier = 6; index = some 1 }))
      ∷ [])
    ≡ collect {F = ℕ} [] (
        assignment 1 (some 3) (measured (qubit 0))
        ∷ assignment 2 (some 4) (measured (qubit 1))
        ∷ [])
lost_example =
    second_measurement_lost {F = ℕ} [] 1 2 3 5 6 0 1
      (assignment 2 (some 4) (measured (qubit 1)) ∷ []) []

-- A program with one register, a gate and a measurement.
abbrev program : List (Statement ℕ)
program =
    declaration 5 true (some 2)
    ∷ gate_call (record { gate_id = h_id; modifiers = []; arguments = []; operands = qubit 0 ∷ [] })
    ∷ assignment 7 (some 0) (measured (qubit 0))
    ∷ []

run_program :
    run_on_operation numbers 0 false program
    ≡ ok (
        plain (alloca_veq 2)
        ∷ plain (extract 0 0)
        ∷ gate h_op false [] [] (extract_ref 0 0 ∷ [])
        ∷ plain (extract 0 0)
        ∷ plain (measure (ref (extract_ref 0 0) ∷ []))
        ∷ [])
unfolding run_on_operation
run_program = refl

program_example :
    Post
      (Unit {0})
      (λ kernel'.
        Extends numbers (declared_qubits numbers true (some program)) bell kernel'
        × (get_number_of_qubits kernel'
            ≡ get_number_of_qubits bell + declared_qubits numbers true (some program)))
      (qasm3_to_quake numbers 1 false true (some program) bell)
program_example = qasm3_to_quake-Extends numbers 1 false true (some program) bell
