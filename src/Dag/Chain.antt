-- ===== src/Dag/Chain.antt =====
-- The path of a qubit through the graph of a kernel (parse_mlir of lib/Support/DAG/QuakeDAG.cpp).
use mqss_passes_suite.Base.{
  ℕ, zero, suc, ◌+◌, ◌<◌, ◌≡◌, refl, ap, sym, ◌∙◌, subst, ◌==◌, mem_ℤ, ℤ, pos, true, if◌then◌else◌,
  Bool-cases, inl, inr, List, [], ◌∷◌, ◌++◌, All, some, arith,
}
use mqss_passes_suite.Quake.Ops.{Gate, Op, operator, plain}
use mqss_passes_suite.Quake.Floats.{Floats, get_parameters_values}
use mqss_passes_suite.Quake.Query.{get_indices_of_value_range, get_number_of_qubits}
use mqss_passes_suite.Quake.Classical.{Bits, find}
use mqss_passes_suite.Quake.Lookup.{find-put}
use mqss_passes_suite.Dag.Graph.{
  qubit_node, gate_node, MlirVertex, QuakeDag, get_or_add_node, change_vertex, add_qubits,
  insert_edges, measure_edges, parse_gate, parse_all, parse_mlir,
}
use mqss_passes_suite.Dag.Forward.{insert-append}
use mqss_passes_suite.Dag.Names.{IsBefore, new_gate, new_qubit}
use mqss_passes_suite.Dag.Whole.{
  HasForwardEdges, NamesOnce, number_of_gates, new-IsAdded, gate-HasForwardEdges,
  add_qubits-HasForwardEdges,
}
use mqss_passes_suite.Dag.Edges.{
  empty_dag, with_qubits, with_qubits-HasForwardEdges, parse_mlir-edges,
}
use mqss_passes_suite.Dag.Wires.{
  IsIn, insert_edges-keeps, insert_edges_other, insert_edges_same, measure_edges-keeps,
  measure_edges-find,
}

module _ {F : Type 0} where
  -- The qubits of a gate, targets first.
  abbrev pub qubits_of : Gate F → List ℤ
  qubits_of g = get_indices_of_value_range g.targets ++ get_indices_of_value_range g.controls

  -- The vertices after the one of qubit `q` on its way: those of its gates in order, where the
  -- next operation has the number `c`, and the one of the measurements.
  abbrev pub wire : ℕ → ℕ → List (Op F) → List ℕ
  wire q c [] = c ∷ []
  wire q c (operator g ∷ ops) =
      let rest = wire q (suc c) ops in if mem_ℤ (pos q) (qubits_of g) then c ∷ rest else rest
  wire q c (plain n ∷ ops) = wire q c ops

-- Edges from each vertex of a list to the next, and from `v` to the first.
abbrev pub IsChain : List (ℕ × ℕ) → ℕ → List ℕ → Type 0
IsChain edges v [] = Unit
IsChain edges v (w ∷ ws) = IsIn (v, w) edges × IsChain edges w ws

module _ {F : Type 0} (fl : Floats F) where
  pub gate_edges :
      (idx c : ℕ) (g : Gate F) (s : QuakeDag F × Bits)
      → HasForwardEdges c s
      → All (IsBefore idx) s.0.node_map
      → ((parse_gate fl idx g s).0.edges, (parse_gate fl idx g s).1)
        ≡ insert_edges c (qubits_of g) (s.0.edges, s.1)
  unfolding parse_gate
  gate_edges idx c g s h names =
      let targets = get_indices_of_value_range g.targets in
      let controls = get_indices_of_value_range g.controls in
      let f : MlirVertex F → MlirVertex F = λ x. record x {
        targets = targets;
        controls = controls;
        arguments = get_parameters_values fl g.parameters;
        is_adj = g.is_adj;
      } in
      let added =
        new-IsAdded (gate_node g.kind idx) f s.0 (new_gate g.kind idx s.0.node_map names) in
      rw (added.0, added.2, h.0) (insert-append c targets controls (s.0.edges, s.1))

  gate-keeps :
      (idx c : ℕ) (g : Gate F) (s : QuakeDag F × Bits) (e : ℕ × ℕ)
      → HasForwardEdges c s
      → All (IsBefore idx) s.0.node_map
      → IsIn e s.0.edges
      → IsIn e (parse_gate fl idx g s).0.edges
  gate-keeps idx c g s e h names k =
      subst (λ r. IsIn e r.0) (sym (gate_edges idx c g s h names))
        (insert_edges-keeps c (qubits_of g) (s.0.edges, s.1) e k)

  parse_all-keeps :
      (idx c : ℕ) (ops : List (Op F)) (s : QuakeDag F × Bits) (e : ℕ × ℕ)
      → All NamesOnce ops
      → HasForwardEdges c s
      → All (IsBefore idx) s.0.node_map
      → IsIn e s.0.edges
      → IsIn e (parse_all fl idx ops s).0.edges
  unfolding parse_all
  parse_all-keeps idx c [] s e d h names k = k
  parse_all-keeps idx c (operator g ∷ ops) s e d h names k =
      let step = gate-HasForwardEdges fl idx c g s d.0 h names in
      parse_all-keeps (suc idx) (suc c) ops (parse_gate fl idx g s) e d.1 step.0 step.1
        (gate-keeps idx c g s e h names k)
  parse_all-keeps idx c (plain n ∷ ops) s e d h names k =
      parse_all-keeps idx c ops s e d.1 h names k

  -- The last vertex of `q` is `v` when operation `c` is next: its way from there on.
  parse_all-IsChain :
      (idx c mes q v : ℕ) (ops : List (Op F)) (s : QuakeDag F × Bits)
      → mes ≡ c + number_of_gates ops
      → All NamesOnce ops
      → HasForwardEdges c s
      → All (IsBefore idx) s.0.node_map
      → find q s.1 ≡ some v
      → IsChain
          (measure_edges mes (parse_all fl idx ops s).1 (parse_all fl idx ops s).0.edges)
          v
          (wire q c ops)
  unfolding parse_all
  parse_all-IsChain idx c mes q v [] s m d h names at =
      let same : mes ≡ c = omega (arith, m) in
      (
        subst (λ w. IsIn (v, w) (measure_edges mes s.1 s.0.edges)) same
            (measure_edges-find mes q v s.1 s.0.edges at),
        tt,
      )
  parse_all-IsChain idx c mes q v (operator g ∷ ops) s m d h names at =
      let step = gate-HasForwardEdges fl idx c g s d.0 h names in
      let next = parse_gate fl idx g s in
      let later : mes ≡ suc c + number_of_gates ops = omega (arith, m) in
      let whole = parse_all fl (suc idx) ops next in
      elim (Bool-cases (mem_ℤ (pos q) (qubits_of g))) [
        | inl used ↦
            let joined = insert_edges_same c (qubits_of g) q v (s.0.edges, s.1) d.0 used at in
            let moved =
              subst (λ r. IsIn (v, c) r.0 × (find q r.1 ≡ some c))
                (sym (gate_edges idx c g s h names)) joined in
            rw used (
              measure_edges-keeps mes whole.1 whole.0.edges (v, c)
                  (parse_all-keeps (suc idx) (suc c) ops next (v, c) d.1 step.0 step.1 moved.0),
              parse_all-IsChain (suc idx) (suc c) mes q c ops next later d.1 step.0 step.1 moved.1,
            )
        | inr unused ↦
            let other : find q next.1 ≡ some v =
              ap (λ r. find q r.1) (gate_edges idx c g s h names)
              ∙ insert_edges_other c (qubits_of g) q (s.0.edges, s.1) unused
              ∙ at in
            rw unused
              (parse_all-IsChain (suc idx) (suc c) mes q v ops next later d.1 step.0 step.1 other)
      ]
  parse_all-IsChain idx c mes q v (plain n ∷ ops) s m d h names at =
      parse_all-IsChain idx c mes q v ops s m d.1 h names at

module _ {F : Type 0} where
  -- The vertex of qubit `q` is the number `q`.
  add_qubits-find :
      (n q : ℕ) (s : QuakeDag F × Bits)
      → HasForwardEdges 0 s
      → s.0.node_map ≡ []
      → q < n
      → find q (add_qubits n s).1 ≡ some q
  unfolding add_qubits
  add_qubits-find zero q s h e b = absurd (omega (arith, b))
  add_qubits-find (suc i) q s h e b =
      let before = add_qubits i s in
      let ih = add_qubits-HasForwardEdges i s h e in
      let f : MlirVertex F → MlirVertex F = λ x. record x { is_qubit = true } in
      let r = change_vertex f (get_or_add_node (qubit_node i) before.0) in
      let added = new-IsAdded (qubit_node i) f before.0 (new_qubit i before.0.node_map ih.1) in
      let number : r.1 ≡ i = added.0 ∙ ih.0.0 in
      find-put q i r.1 before.1 ∙ (elim (Bool-cases (q == i)) [
        | inl same ↦ rw (same, number) (ground (arith, same))
        | inr other ↦ rw other (add_qubits-find i q s h e (ground (arith, b, other)))
      ])

module _ {F : Type 0} (fl : Floats F) where
  -- In the graph of a kernel whose gates name no qubit twice, edges lead from the vertex of each
  -- qubit of the kernel through the vertices of the gates on that qubit, in their order, to the
  -- vertex of the measurements.
  pub parse_mlir-IsChain :
      (kernel : List (Op F)) (q : ℕ)
      → All NamesOnce kernel
      → q < get_number_of_qubits kernel
      → IsChain (parse_mlir fl kernel).edges q (wire q (get_number_of_qubits kernel) kernel)
  parse_mlir-IsChain kernel q d b =
      let n = get_number_of_qubits kernel in
      let start = with_qubits-HasForwardEdges kernel in
      subst (λ edges. IsChain edges q (wire q n kernel)) (sym (parse_mlir-edges fl kernel d))
        (parse_all-IsChain fl 0 n (n + number_of_gates kernel) q q kernel (with_qubits kernel) refl
          d start.0 start.1 (add_qubits-find n q empty_dag (refl, tt, tt) refl b))
