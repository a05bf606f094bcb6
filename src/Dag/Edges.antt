-- ===== src/Dag/Edges.antt =====
-- The state of parse_mlir before the gates of a kernel, and the edges after all of it
-- (lib/Support/DAG/QuakeDAG.cpp).
use mqss_passes_suite.Base.{true, ◌+◌, ◌≡◌, refl, List, [], All}
use mqss_passes_suite.Quake.Ops.{Op}
use mqss_passes_suite.Quake.Floats.{Floats}
use mqss_passes_suite.Quake.Query.{get_number_of_qubits}
use mqss_passes_suite.Quake.Classical.{Bits}
use mqss_passes_suite.Dag.Graph.{
  measurement_node, MlirVertex, QuakeDag, add_qubits, measure_edges, parse_all, parse_mlir,
}
use mqss_passes_suite.Dag.Forward.{All-map}
use mqss_passes_suite.Dag.Names.{IsBefore, IsQubitBelow, new_measurement, IsBefore-qubit}
use mqss_passes_suite.Dag.Whole.{
  HasForwardEdges, NamesOnce, number_of_gates, new-IsAdded, kernel-HasForwardEdges,
  add_qubits-HasForwardEdges,
}

module _ {F : Type 0} where
  abbrev pub empty_dag : QuakeDag F × Bits
  empty_dag = (record { vertices = []; edges = []; node_map = [] }, [])

  -- The graph with a vertex for each qubit.
  abbrev pub with_qubits : List (Op F) → QuakeDag F × Bits
  with_qubits kernel = add_qubits (get_number_of_qubits kernel) empty_dag

  pub with_qubits-HasForwardEdges :
      (kernel : List (Op F))
      → HasForwardEdges (get_number_of_qubits kernel) (with_qubits kernel)
        × All (IsBefore 0) (with_qubits kernel).0.node_map
  with_qubits-HasForwardEdges kernel =
      let n = get_number_of_qubits kernel in
      let start = add_qubits-HasForwardEdges n empty_dag (refl, tt, tt) refl in
      (
        start.0,
        All-map (IsQubitBelow n) (IsBefore 0) (with_qubits kernel).0.node_map (IsBefore-qubit n)
            start.1,
      )

module _ {F : Type 0} (fl : Floats F) where
  -- The edges are those of the gates and those to the measurements.
  pub parse_mlir-edges :
      (kernel : List (Op F))
      → All NamesOnce kernel
      → (parse_mlir fl kernel).edges
        ≡ measure_edges
            (get_number_of_qubits kernel + number_of_gates kernel)
            (parse_all fl 0 kernel (with_qubits kernel)).1
            (parse_all fl 0 kernel (with_qubits kernel)).0.edges
  unfolding parse_mlir
  parse_mlir-edges kernel d =
      let start = with_qubits-HasForwardEdges kernel in
      let whole =
        kernel-HasForwardEdges fl 0 (get_number_of_qubits kernel) kernel (with_qubits kernel) d
          start.0 start.1 in
      let s = parse_all fl 0 kernel (with_qubits kernel) in
      let f : MlirVertex F → MlirVertex F = λ x. record x { is_measurement = true } in
      let added =
        new-IsAdded measurement_node f s.0 (new_measurement whole.1.0 s.0.node_map whole.1.1) in
      rw (added.0, added.2, whole.0.0) refl
