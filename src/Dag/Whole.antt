-- ===== src/Dag/Whole.antt =====
-- The graph that parse_mlir of lib/Support/DAG/QuakeDAG.cpp builds.
use mqss_passes_suite.Base.{
  ℕ, zero, suc, ◌+◌, ◌<◌, ◌≡◌, refl, ap, sym, ◌∙◌, subst, ℤ, true, List, [], ◌∷◌, ◌++◌, All,
  All-append, length, length-append, none, arith,
}
use mqss_passes_suite.Quake.Ops.{Gate, Op, operator, plain}
use mqss_passes_suite.Quake.Floats.{Floats, get_parameters_values}
use mqss_passes_suite.Quake.Query.{get_indices_of_value_range, get_number_of_qubits}
use mqss_passes_suite.Quake.Classical.{Bits}
use mqss_passes_suite.Dag.Graph.{
  NodeName, qubit_node, gate_node, measurement_node, MlirVertex, QuakeDag, find_node, fresh,
  add_unless, get_or_add_node, change_nth, change_vertex, add_qubits, insert_edges, measure_edges,
  parse_gate, parse_all, parse_mlir,
}
use mqss_passes_suite.Dag.Forward.{
  IsForward, IsDuplicateFree, Before, Joined, All-map, All-put, insert-append, insert_edges-Joined,
}
use mqss_passes_suite.Dag.Names.{
  IsBefore, IsQubitBelow, new_gate, new_measurement, new_qubit, IsBefore-later, IsQubitBelow-later,
  IsBefore-qubit,
}

module _ {F : Type 0} where
  -- A graph with `c` vertices whose edges go forward, with a history of its vertices.
  abbrev pub HasForwardEdges : ℕ → QuakeDag F × Bits → Type 0
  HasForwardEdges c s =
      (length s.0.vertices ≡ c) × All (IsForward c) s.0.edges × All (λ e. e.1 < c) s.1

  length-change_nth :
      (v : ℕ) (f : MlirVertex F → MlirVertex F) (xs : List (MlirVertex F))
      → length (change_nth v f xs) ≡ length xs
  unfolding change_nth
  length-change_nth v f [] = refl
  length-change_nth zero f (x ∷ xs) = refl
  length-change_nth (suc v) f (x ∷ xs) = ap suc (length-change_nth v f xs)

  -- A vertex with a new name, and the change of its data.
  abbrev pub IsAdded : NodeName → QuakeDag F → QuakeDag F × ℕ → Type 0
  IsAdded name d r =
      (r.1 ≡ length d.vertices)
      × (length r.0.vertices ≡ suc (length d.vertices))
      × (r.0.edges ≡ d.edges)
      × (r.0.node_map ≡ (name, length d.vertices) ∷ d.node_map)

  pub new-IsAdded :
      (name : NodeName) (f : MlirVertex F → MlirVertex F) (d : QuakeDag F)
      → find_node name d.node_map ≡ none
      → IsAdded name d (change_vertex f (get_or_add_node name d))
  unfolding get_or_add_node change_vertex add_unless
  new-IsAdded name f d h =
      rw (get_or_add_node, h)
        (
          refl,
          length-change_nth (length d.vertices) f (d.vertices ++ fresh name ∷ [])
              ∙ length-append d.vertices (fresh name ∷ [])
              ∙ omega arith,
          refl,
          refl,
        )

more_vertices : (c : ℕ) (es : List (ℕ × ℕ)) → All (IsForward c) es → All (IsForward (suc c)) es
more_vertices c es h =
    All-map (IsForward c) (IsForward (suc c)) es (λ e f. (f.0, omega (arith, f.1))) h

module _ {F : Type 0} where
  -- A gate that names no qubit twice.
  abbrev pub NamesOnce : Op F → Type 0
  NamesOnce (operator g) =
      IsDuplicateFree
        (get_indices_of_value_range g.targets ++ get_indices_of_value_range g.controls)
  NamesOnce (plain n) = Unit

  -- The number of gates of a kernel.
  abbrev pub number_of_gates : List (Op F) → ℕ
  number_of_gates [] = 0
  number_of_gates (operator g ∷ ops) = suc (number_of_gates ops)
  number_of_gates (plain n ∷ ops) = number_of_gates ops

module _ {F : Type 0} (fl : Floats F) where
  -- The edges to a new vertex, the number `c`.
  joined :
      (c operation : ℕ) (targets controls : List ℤ) (edges edges' : List (ℕ × ℕ)) (history : Bits)
      → operation ≡ c
      → edges' ≡ edges
      → IsDuplicateFree (targets ++ controls)
      → All (IsForward c) edges
      → All (λ e. e.1 < c) history
      → Joined c
          (insert_edges operation controls (insert_edges operation targets (edges', history)))
  joined c operation targets controls edges edges' history same same' d h k =
      rw (same, same', insert-append c targets controls (edges, history))
        (insert_edges-Joined c (targets ++ controls) (edges, history) d (more_vertices c edges h)
          (All-map (λ e. e.1 < c) (Before c (targets ++ controls)) history
            (λ e b. (omega (arith, b), λ m. b)) k))

  pub gate-HasForwardEdges :
      (idx c : ℕ) (g : Gate F) (s : QuakeDag F × Bits)
      → NamesOnce (operator g)
      → HasForwardEdges c s
      → All (IsBefore idx) s.0.node_map
      → HasForwardEdges (suc c) (parse_gate fl idx g s)
        × All (IsBefore (suc idx)) (parse_gate fl idx g s).0.node_map
  unfolding parse_gate
  gate-HasForwardEdges idx c g s d h names =
      let targets = get_indices_of_value_range g.targets in
      let controls = get_indices_of_value_range g.controls in
      let f : MlirVertex F → MlirVertex F = λ x. record x {
        targets = targets;
        controls = controls;
        arguments = get_parameters_values fl g.parameters;
        is_adj = g.is_adj;
      } in
      let r = change_vertex f (get_or_add_node (gate_node g.kind idx) s.0) in
      let added =
        new-IsAdded (gate_node g.kind idx) f s.0 (new_gate g.kind idx s.0.node_map names) in
      let j =
        joined c r.1 targets controls s.0.edges r.0.edges s.1 (added.0 ∙ h.0) added.2 d h.1 h.2 in
      (
        (added.1 ∙ ap suc h.0, j.0, j.1),
        subst (All (IsBefore (suc idx))) (sym added.3) (
          omega arith,
          All-map (IsBefore idx) (IsBefore (suc idx)) s.0.node_map (IsBefore-later idx) names,
        ),
      )

  pub kernel-HasForwardEdges :
      (idx c : ℕ) (ops : List (Op F)) (s : QuakeDag F × Bits)
      → All NamesOnce ops
      → HasForwardEdges c s
      → All (IsBefore idx) s.0.node_map
      → HasForwardEdges (c + number_of_gates ops) (parse_all fl idx ops s)
        × ((k : ℕ) × All (IsBefore k) (parse_all fl idx ops s).0.node_map)
  unfolding parse_all
  kernel-HasForwardEdges idx c [] s d h names =
      (subst (λ k. HasForwardEdges k s) (omega arith) h, (idx, names))
  kernel-HasForwardEdges idx c (operator g ∷ ops) s d h names =
      let step = gate-HasForwardEdges idx c g s d.0 h names in
      let rest =
        kernel-HasForwardEdges (suc idx) (suc c) ops (parse_gate fl idx g s) d.1 step.0 step.1 in
      (
        subst (λ k. HasForwardEdges k (parse_all fl (suc idx) ops (parse_gate fl idx g s)))
            (omega arith) rest.0,
        rest.1,
      )
  kernel-HasForwardEdges idx c (plain n ∷ ops) s d h names =
      kernel-HasForwardEdges idx c ops s d.1 h names

module _ {F : Type 0} where
  pub add_qubits-HasForwardEdges :
      (n : ℕ) (s : QuakeDag F × Bits)
      → HasForwardEdges 0 s
      → s.0.node_map ≡ []
      → HasForwardEdges n (add_qubits n s) × All (IsQubitBelow n) (add_qubits n s).0.node_map
  unfolding add_qubits
  add_qubits-HasForwardEdges zero s h e = (h, rw e tt)
  add_qubits-HasForwardEdges (suc i) s h e =
      let ih = add_qubits-HasForwardEdges i s h e in
      let before = add_qubits i s in
      let f : MlirVertex F → MlirVertex F = λ x. record x { is_qubit = true } in
      let r = change_vertex f (get_or_add_node (qubit_node i) before.0) in
      let added = new-IsAdded (qubit_node i) f before.0 (new_qubit i before.0.node_map ih.1) in
      (
        (
          added.1 ∙ ap suc ih.0.0,
          subst (All (IsForward (suc i))) (sym added.2) (more_vertices i before.0.edges ih.0.1),
          All-put (λ x. x.1 < suc i) i r.1 before.1 (omega (arith, added.0, ih.0.0))
              (All-map (λ x. x.1 < i) (λ x. x.1 < suc i) before.1 (λ x b. omega (arith, b)) ih.0.2),
        ),
        subst (All (IsQubitBelow (suc i))) (sym added.3) (
          omega arith,
          All-map (IsQubitBelow i) (IsQubitBelow (suc i)) before.0.node_map (IsQubitBelow-later i)
              ih.1,
        ),
      )

measure_edges-IsForward :
    (mes : ℕ) (history : Bits) (edges : List (ℕ × ℕ))
    → All (λ e. e.1 < mes) history
    → All (IsForward (suc mes)) edges
    → All (IsForward (suc mes)) (measure_edges mes history edges)
unfolding measure_edges
measure_edges-IsForward mes [] edges h k = k
measure_edges-IsForward mes (e ∷ es) edges h k =
    measure_edges-IsForward mes es (edges ++ (e.1, mes) ∷ []) h.1
      (All-append (IsForward (suc mes)) edges ((e.1, mes) ∷ []) k ((h.0, omega arith), tt))

module _ {F : Type 0} where
  -- A graph with `c` vertices, all of whose edges go to a later vertex.
  abbrev pub IsForwardDag : ℕ → QuakeDag F → Type 0
  IsForwardDag c d = (length d.vertices ≡ c) × All (IsForward c) d.edges

module _ {F : Type 0} (fl : Floats F) where
  -- The graph of a kernel whose gates name no qubit twice has a vertex for each qubit and each
  -- gate and one for the measurements, and its edges go from vertices to later ones, so it has no
  -- cycle.
  pub parse_mlir-IsForwardDag :
      (kernel : List (Op F))
      → All NamesOnce kernel
      → IsForwardDag
          (suc (get_number_of_qubits kernel + number_of_gates kernel))
          (parse_mlir fl kernel)
  unfolding parse_mlir
  parse_mlir-IsForwardDag kernel d =
      let n = get_number_of_qubits kernel in
      let empty : QuakeDag F = record { vertices = []; edges = []; node_map = [] } in
      let start = add_qubits-HasForwardEdges n (empty, []) (refl, tt, tt) refl in
      let names =
        All-map (IsQubitBelow n) (IsBefore 0) (add_qubits n (empty, [])).0.node_map
          (IsBefore-qubit n) start.1 in
      let whole = kernel-HasForwardEdges fl 0 n kernel (add_qubits n (empty, [])) d start.0 names in
      let s = parse_all fl 0 kernel (add_qubits n (empty, [])) in
      let f : MlirVertex F → MlirVertex F = λ x. record x { is_measurement = true } in
      let c = n + number_of_gates kernel in
      let added =
        new-IsAdded measurement_node f s.0 (new_measurement whole.1.0 s.0.node_map whole.1.1) in
      (
        added.1 ∙ ap suc whole.0.0,
        rw (added.0, added.2, whole.0.0)
            (measure_edges-IsForward c s.1 s.0.edges whole.0.2
              (more_vertices c s.0.edges whole.0.1)),
      )
