-- ===== src/Mapping/Rebuild.antt =====
-- lib/Passes/Transforms/QuakeQMap.cpp: the kernel that runOnOperation builds from a mapped
-- circuit. The mapper is QMAP's: a function from the loaded circuit to the mapped one.
use mqss_passes_suite.Base.{
  ℕ, Bool, false, if◌then◌else◌, true, List, [], ◌∷◌, ◌++◌, map, Result, ok, ◌>>=◌,
}
use mqss_passes_suite.Quake.Ops.{
  GateKind, r1_op, u3_op, Value, extract_ref, constant, ref, Op, operator, plain, alloca_veq,
  extract, measure, other_op,
}
use mqss_passes_suite.Quake.Floats.{Floats, create_float_value}
use mqss_passes_suite.Quake.Query.{get_number_of_qubits}
use mqss_passes_suite.Mapping.Load.{Call, load_circuit}

-- `qc::OpType`: the cases of the switch, and the others.
pub data OpType : Type 0 where
  gate_type : GateKind → OpType
  measure_type barrier_type other_type : OpType

-- An operation of the mapped circuit: `getType`, `getTargets`, `getControls` and `getParameter`.
pub record Mapped (F : Type 0) : Type 0 where
  pub op_type : OpType
  pub targets : List ℕ
  pub controls : List ℕ
  pub parameters : List F

-- The cases of the switch that create a gate.
unfoldable pub is_created : GateKind → Bool
is_created r1_op = false
is_created u3_op = false
is_created _ = true

-- The new kernel has one vector of qubits, the vector 0.
unfoldable pub refs_of : List ℕ → List Value
refs_of qubits = map (extract_ref 0) qubits

module _ {F : Type 0} where
  unfoldable pub extracts_of : List ℕ → List (Op F)
  extracts_of qubits = map (λ q. plain (extract 0 q)) qubits

  -- The operation that the switch creates, if it has a case for the type.
  unfoldable pub create_op : OpType → Mapped F → List (Op F)
  unfolding is_created refs_of
  create_op (gate_type k) op =
      if is_created k
      then operator (record {
        kind = k;
        is_adj = false;
        parameters = map constant op.parameters;
        controls = refs_of op.controls;
        targets = refs_of op.targets;
      })
        ∷ []
      else []
  create_op measure_type op = plain (measure (map ref (refs_of op.targets))) ∷ []
  create_op barrier_type op = []
  create_op other_type op = []

module _ {F : Type 0} (fl : Floats F) where
  -- One turn of the loop over the mapped circuit.
  unfoldable pub insert_mapped : OpType → Mapped F → List (Op F)
  unfolding extracts_of create_op
  insert_mapped barrier_type op = []
  insert_mapped t op =
      extracts_of op.targets
      ++ (extracts_of op.controls ++ (map (create_float_value fl) op.parameters ++ create_op t op))

  unfoldable pub insert_all : List (Mapped F) → List (Op F)
  unfolding insert_mapped
  insert_all [] = []
  insert_all (op ∷ ops) = insert_mapped op.op_type op ++ insert_all ops

  -- The kernel that replaces the old one: its qubits, the operations, `func.return`.
  unfoldable pub rebuild : ℕ → List (Mapped F) → List (Op F)
  unfolding insert_all
  rebuild n mapped = plain (alloca_veq n) ∷ (insert_all mapped ++ plain other_op ∷ [])

  -- QuakeQMap::runOnOperation; `named` says that the name of the function is that of a kernel.
  -- `mapper` is QMAP: from the number of qubits, the number of bits and the calls on the circuit
  -- to the operations of the circuit read back.
  unfoldable pub quake_q_map :
      (ℕ → ℕ → List (Call F) → List (Mapped F)) → Bool → List (Op F) → Result (List (Op F))
  unfolding load_circuit rebuild
  quake_q_map mapper named circuit =
      let n = get_number_of_qubits circuit in
      if named
      then (load_circuit fl circuit >>= λ loaded. ok (rebuild n (mapper n loaded.0 loaded.1)))
      else ok circuit
