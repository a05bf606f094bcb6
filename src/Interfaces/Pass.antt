-- ===== src/Interfaces/Pass.antt =====
-- The pass QASM3ToQuake (lib/Passes/CodeGen/QASM3ToQuake.cpp) on a kernel.
use mqss_passes_suite.Base.{
  append-nil, ℕ, ◌+◌, ◌≡◌, refl, sym, Bool, true, false, List, [], ◌++◌, Option, none, some, Result,
  ok, fault, failed_assertion, Post, Post-bind, ◌>>=◌, arith,
}
use mqss_passes_suite.Quake.Ops.{Op}
use mqss_passes_suite.Quake.Query.{get_number_of_qubits}
use mqss_passes_suite.Quake.Count.{count-append}
use mqss_passes_suite.Quake.Floats.{Floats}
use mqss_passes_suite.Interfaces.Qasm.{Statement}
use mqss_passes_suite.Interfaces.Program.{order_vectors, total_qubits, run_on_operation}
use mqss_passes_suite.Interfaces.Allocated.{Allocates, run_on_operation-Allocates}

module _ {F : Type 0} (fl : Floats F) where
  -- QASM3ToQuake::runOnOperation. `named` says that the name of the function is that of a kernel,
  -- `parsed` is what the parser gives, if it does not throw, `kernel` has the operations before the
  -- return, and the vectors that the pass creates are numbered from `first`.
  unfoldable pub qasm3_to_quake :
      ℕ → Bool → Bool → Option (List (Statement F)) → List (Op F) → Result (List (Op F))
  unfolding run_on_operation
  qasm3_to_quake first measure_all_qubits false parsed kernel = ok kernel
  qasm3_to_quake first measure_all_qubits true none kernel = fault failed_assertion
  qasm3_to_quake first measure_all_qubits true (some program) kernel =
      run_on_operation fl first measure_all_qubits program >>= λ ops. ok (kernel ++ ops)

  -- The kernel with further operations behind, which allocate a number of qubits.
  abbrev pub Extends : ℕ → List (Op F) → List (Op F) → Type 0
  Extends n kernel kernel' = (ops : List (Op F)) × ((kernel' ≡ kernel ++ ops) × Allocates n ops)

  -- The number of qubits that the pass has to add.
  abbrev pub declared_qubits : Bool → Option (List (Statement F)) → ℕ
  declared_qubits true (some program) = total_qubits (order_vectors program)
  declared_qubits _ _ = 0

  -- If no fault occurs, QASM3ToQuake keeps the operations of a kernel and inserts behind them, and
  -- before the return, operations that allocate as many qubits as the vectors that the program
  -- declares. It changes nothing in a function that is no kernel.
  pub qasm3_to_quake-Extends :
      (first : ℕ) (all named : Bool) (parsed : Option (List (Statement F))) (kernel : List (Op F))
      → Post
          (Unit {0})
          (λ kernel'.
            Extends (declared_qubits named parsed) kernel kernel'
            × (get_number_of_qubits kernel'
                ≡ get_number_of_qubits kernel + declared_qubits named parsed))
          (qasm3_to_quake first all named parsed kernel)
  unfolding qasm3_to_quake get_number_of_qubits
  qasm3_to_quake-Extends first all false parsed kernel =
      (([], (sym (append-nil kernel), refl)), omega arith)
  qasm3_to_quake-Extends first all true none kernel = tt
  qasm3_to_quake-Extends first all true (some program) kernel =
      Post-bind (Unit {0}) (Allocates (total_qubits (order_vectors program))) _
        (run_on_operation fl first all program) (λ ops. ok (kernel ++ ops))
        (run_on_operation-Allocates fl first all program)
        (λ ops h. ((ops, (refl, h)), omega (arith, count-append kernel ops, h)))
