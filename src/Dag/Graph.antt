-- ===== src/Dag/Graph.antt =====
-- lib/Support/DAG/QuakeDAG.cpp: get_or_add_node and parse_mlir. A graph of Boost is the list of
-- its vertices, whose descriptors are their places, and the list of its edges.
use mqss_passes_suite.Base.{
  ℕ, zero, suc, ◌==◌, ◌&&◌, ℤ, pos, negsuc, Bool, true, false, if◌then◌else◌, List, [], ◌∷◌, ◌++◌,
  length, Option, none, some,
}
use mqss_passes_suite.Quake.Ops.{GateKind, Gate, Op, operator, plain, same_kind}
use mqss_passes_suite.Quake.Floats.{Floats, get_parameters_values}
use mqss_passes_suite.Quake.Query.{get_indices_of_value_range, get_number_of_qubits}
use mqss_passes_suite.Quake.Classical.{Bits, put, find}

-- The names "q_0", "x_3" and "measurement".
pub data NodeName : Type 0 where
  qubit_node : ℕ → NodeName
  gate_node : GateKind → ℕ → NodeName
  measurement_node : NodeName

-- MLIRVertex, without the fields that nothing sets and without the operation's address.
pub record MlirVertex (F : Type 0) : Type 0 where
  pub name : NodeName
  pub targets : List ℤ
  pub controls : List ℤ
  pub arguments : List F
  pub is_adj : Bool
  pub is_qubit : Bool
  pub is_measurement : Bool

pub record QuakeDag (F : Type 0) : Type 0 where
  pub vertices : List (MlirVertex F)
  pub edges : List (ℕ × ℕ)
  pub node_map : List (NodeName × ℕ)

unfoldable pub same_node : NodeName → NodeName → Bool
unfolding same_kind
same_node (qubit_node i) (qubit_node j) = i == j
same_node (gate_node k i) (gate_node l j) = same_kind k l && i == j
same_node measurement_node measurement_node = true
same_node _ _ = false

-- `node_map.find(name)`
unfoldable pub find_node : NodeName → List (NodeName × ℕ) → Option ℕ
unfolding same_node
find_node name [] = none
find_node name (e ∷ es) = if same_node name e.0 then some e.1 else find_node name es

-- `qubitsHistory.find(index)`
unfoldable pub find_vertex : ℤ → Bits → Option ℕ
unfolding find
find_vertex (pos i) history = find i history
find_vertex (negsuc n) history = none

unfoldable pub put_vertex : ℤ → ℕ → Bits → Bits
unfolding put
put_vertex (pos i) v history = put i v history
put_vertex (negsuc n) v history = history

-- The loop over the targets, or over the controls, of the vertex `operation`. A qubit without a
-- history adds no edge: the assertion in that branch is on a string, which is always true.
unfoldable pub insert_edges : ℕ → List ℤ → List (ℕ × ℕ) × Bits → List (ℕ × ℕ) × Bits
unfolding find_vertex put_vertex
insert_edges operation [] s = s
insert_edges operation (i ∷ is) s = insert_edges operation is (elim (find_vertex i s.1) [
  | none ↦ s
  | some v ↦ (s.0 ++ (v, operation) ∷ [], put_vertex i operation s.1)
])

-- The edges to the vertex `mes` from the vertices of the history.
unfoldable pub measure_edges : ℕ → Bits → List (ℕ × ℕ) → List (ℕ × ℕ)
measure_edges mes [] edges = edges
measure_edges mes (e ∷ es) edges = measure_edges mes es (edges ++ (e.1, mes) ∷ [])

module _ {F : Type 0} where
  unfoldable pub fresh : NodeName → MlirVertex F
  fresh name = record {
    name = name;
    targets = [];
    controls = [];
    arguments = [];
    is_adj = false;
    is_qubit = false;
    is_measurement = false;
  }

  -- The graph and the vertex, where the look-up has been made.
  unfoldable pub add_unless : NodeName → Option ℕ → QuakeDag F → QuakeDag F × ℕ
  unfolding fresh
  add_unless name (some v) d = (d, v)
  add_unless name none d = (
    record {
      vertices = d.vertices ++ fresh name ∷ [];
      edges = d.edges;
      node_map = (name, length d.vertices) ∷ d.node_map;
    },
    length d.vertices,
  )

  -- get_or_add_node
  unfoldable pub get_or_add_node : NodeName → QuakeDag F → QuakeDag F × ℕ
  unfolding find_node add_unless
  get_or_add_node name d = add_unless name (find_node name d.node_map) d

  -- `dag[v]` is changed.
  unfoldable pub change_nth :
      ℕ → (MlirVertex F → MlirVertex F) → List (MlirVertex F) → List (MlirVertex F)
  change_nth v f [] = []
  change_nth zero f (x ∷ xs) = f x ∷ xs
  change_nth (suc v) f (x ∷ xs) = x ∷ change_nth v f xs

  unfoldable pub change_vertex : (MlirVertex F → MlirVertex F) → QuakeDag F × ℕ → QuakeDag F × ℕ
  unfolding change_nth
  change_vertex f r = (record r.0 { vertices = change_nth r.1 f r.0.vertices }, r.1)

  -- The vertices of the qubits below `n`, and the history with them.
  unfoldable pub add_qubits : ℕ → QuakeDag F × Bits → QuakeDag F × Bits
  unfolding get_or_add_node change_vertex put
  add_qubits zero s = s
  add_qubits (suc i) s =
      let before = add_qubits i s in
      let r =
        change_vertex (λ x. record x { is_qubit = true })
          (get_or_add_node (qubit_node i) before.0) in
      (r.0, put i r.1 before.1)

module _ {F : Type 0} (fl : Floats F) where
  -- The callback of the walk on a gate.
  unfoldable pub parse_gate : ℕ → Gate F → QuakeDag F × Bits → QuakeDag F × Bits
  unfolding get_or_add_node change_vertex insert_edges get_indices_of_value_range
      get_parameters_values
  parse_gate idx g s =
      let controls = get_indices_of_value_range g.controls in
      let targets = get_indices_of_value_range g.targets in
      let r =
        change_vertex
          (λ x. record x {
            targets = targets;
            controls = controls;
            arguments = get_parameters_values fl g.parameters;
            is_adj = g.is_adj;
          })
          (get_or_add_node (gate_node g.kind idx) s.0) in
      let inserted = insert_edges r.1 controls (insert_edges r.1 targets (r.0.edges, s.1)) in
      (record r.0 { edges = inserted.0 }, inserted.1)

  unfoldable pub parse_all : ℕ → List (Op F) → QuakeDag F × Bits → QuakeDag F × Bits
  unfolding parse_gate
  parse_all idx [] s = s
  parse_all idx (operator g ∷ ops) s = parse_all (suc idx) ops (parse_gate idx g s)
  parse_all idx (plain n ∷ ops) s = parse_all idx ops s

  -- parse_mlir, on an empty graph.
  unfoldable pub parse_mlir : List (Op F) → QuakeDag F
  unfolding get_number_of_qubits add_qubits parse_all get_or_add_node change_vertex measure_edges
  parse_mlir kernel =
      let empty : QuakeDag F = record { vertices = []; edges = []; node_map = [] } in
      let s = parse_all 0 kernel (add_qubits (get_number_of_qubits kernel) (empty, [])) in
      let r =
        change_vertex (λ x. record x { is_measurement = true })
          (get_or_add_node measurement_node s.0) in
      record r.0 { edges = measure_edges r.1 s.1 r.0.edges }
