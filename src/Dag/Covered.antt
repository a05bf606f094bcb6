-- ===== src/Dag/Covered.antt =====
-- The edges of the graph of a kernel are on the paths of its qubits (parse_mlir of
-- lib/Support/DAG/QuakeDAG.cpp).
use mqss_passes_suite.Base.{
  ℕ, zero, suc, ◌+◌, ◌<◌, ◌≡◌, refl, ap, sym, ◌∙◌, subst, ◌==◌, mem_ℤ, pos, true, if◌then◌else◌,
  Bool-cases, Option-cases, ◌⊎◌, inl, inr, List, [], ◌∷◌, All, some, arith,
}
use mqss_passes_suite.Quake.Ops.{Gate, Op, operator, plain}
use mqss_passes_suite.Quake.Floats.{Floats}
use mqss_passes_suite.Quake.Query.{get_number_of_qubits}
use mqss_passes_suite.Quake.Classical.{Bits, find}
use mqss_passes_suite.Quake.Lookup.{find-put}
use mqss_passes_suite.Dag.Graph.{
  qubit_node, MlirVertex, QuakeDag, get_or_add_node, change_vertex, add_qubits, insert_edges,
  measure_edges, parse_gate, parse_all, parse_mlir,
}
use mqss_passes_suite.Dag.Names.{IsBefore, new_qubit}
use mqss_passes_suite.Dag.Whole.{
  HasForwardEdges, NamesOnce, number_of_gates, new-IsAdded, gate-HasForwardEdges,
  add_qubits-HasForwardEdges,
}
use mqss_passes_suite.Dag.Edges.{
  empty_dag, with_qubits, with_qubits-HasForwardEdges, parse_mlir-edges,
}
use mqss_passes_suite.Dag.Wires.{IsIn, insert_edges_other, insert_edges_same}
use mqss_passes_suite.Dag.Chain.{qubits_of, wire, gate_edges}
use mqss_passes_suite.Dag.Links.{
  Ascends, put-Ascends, find-entry, IsNew, insert_edges-Ascends, insert_edges_unknown,
  insert_edges-IsNew, measure_edges-entry,
}

-- An edge leads from a vertex of a list to the next, where `v` is before the list.
abbrev pub IsLink : ℕ × ℕ → ℕ → List ℕ → Type 0
IsLink e v [] = ⊥
IsLink e v (w ∷ ws) = (e ≡ (v, w)) ⊎ IsLink e w ws

-- An edge on the rest of the path of a qubit, whose last vertex is known.
pub record IsOnWire {F : Type 0} (c : ℕ) (ops : List (Op F)) (history : Bits) (e : ℕ × ℕ)
    : Type 0 where
  pub qubit : ℕ
  pub vertex : ℕ
  pub held : find qubit history ≡ some vertex
  pub link : IsLink e vertex (wire qubit c ops)

module _ {F : Type 0} (fl : Floats F) where
  -- An edge to the new vertex.
  new-IsOnWire :
      (c : ℕ) (g : Gate F) (ops : List (Op F)) (history : Bits) (e : ℕ × ℕ)
      → IsNew c (qubits_of g) history e
      → IsOnWire c (operator g ∷ ops) history e
  new-IsOnWire c g ops history e n = record {
    qubit = n.qubit;
    vertex = n.vertex;
    held = n.held;
    link = rw n.used (inl n.same);
  }

  -- An edge on a path after the gate.
  later-IsOnWire :
      (c : ℕ) (g : Gate F) (ops : List (Op F)) (s : List (ℕ × ℕ) × Bits) (e : ℕ × ℕ)
      → NamesOnce (operator g)
      → IsOnWire (suc c) ops (insert_edges c (qubits_of g) s).1 e
      → IsOnWire c (operator g ∷ ops) s.1 e
  later-IsOnWire c g ops s e d n = elim (Bool-cases (mem_ℤ (pos n.qubit) (qubits_of g))) [
    | inr unused ↦ record {
      qubit = n.qubit;
      vertex = n.vertex;
      held = sym (insert_edges_other c (qubits_of g) n.qubit s unused) ∙ n.held;
      link = rw unused n.link;
    }
    | inl used ↦ (elim (Option-cases (find n.qubit s.1)) [
      | inl missing ↦ absurd (cc (insert_edges_unknown c (qubits_of g) n.qubit s missing, n.held))
      | inr (v, held) ↦
          let last = (insert_edges_same c (qubits_of g) n.qubit v s d used held).1 in
          let same : n.vertex ≡ c = ground (arith, last, n.held) in
          record {
            qubit = n.qubit;
            vertex = v;
            held = held;
            link = rw used (inr (subst (λ w. IsLink e w (wire n.qubit (suc c) ops)) same n.link));
          }
    ])
  ]

  parse_all-IsOnWire :
      (idx c mes : ℕ) (ops : List (Op F)) (s : QuakeDag F × Bits) (e : ℕ × ℕ)
      → mes ≡ c + number_of_gates ops
      → All NamesOnce ops
      → HasForwardEdges c s
      → All (IsBefore idx) s.0.node_map
      → Ascends s.1
      → IsIn e (measure_edges mes (parse_all fl idx ops s).1 (parse_all fl idx ops s).0.edges)
      → IsIn e s.0.edges ⊎ IsOnWire c ops s.1 e
  unfolding parse_all
  parse_all-IsOnWire idx c mes [] s e m d h names up k =
      elim (measure_edges-entry mes s.1 s.0.edges e k) [
        | inl before ↦ inl before
        | inr (x, (entry, same)) ↦ inr (record {
          qubit = x.0;
          vertex = x.1;
          held = find-entry x s.1 up entry;
          link = inl (same ∙ ap (λ w. (x.1, w)) (omega (arith, m)));
        })
      ]
  parse_all-IsOnWire idx c mes (operator g ∷ ops) s e m d h names up k =
      let step = gate-HasForwardEdges fl idx c g s d.0 h names in
      let next = parse_gate fl idx g s in
      let inserted = insert_edges c (qubits_of g) (s.0.edges, s.1) in
      let made : (next.0.edges, next.1) ≡ inserted = gate_edges fl idx c g s h names in
      let up' : Ascends next.1 =
        subst (λ r. Ascends r.1) (sym made)
          (insert_edges-Ascends c (qubits_of g) (s.0.edges, s.1) up) in
      elim (parse_all-IsOnWire (suc idx) (suc c) mes ops next e (omega (arith, m)) d.1 step.0 step.1
        up' k) [
          | inl before ↦
              (elim (insert_edges-IsNew c (qubits_of g) (s.0.edges, s.1) e d.0
                (subst (λ r. IsIn e r.0) made before)) [
                  | inl earlier ↦ inl earlier
                  | inr new ↦ inr (new-IsOnWire c g ops s.1 e new)
                ])
          | inr later ↦ inr (
              later-IsOnWire c g ops (s.0.edges, s.1) e d.0
                (subst (λ r. IsOnWire (suc c) ops r.1 e) made later))
        ]
  parse_all-IsOnWire idx c mes (plain n ∷ ops) s e m d h names up k =
      elim (parse_all-IsOnWire idx c mes ops s e m d.1 h names up k) [
        | inl before ↦ inl before
        | inr on ↦
            inr (record { qubit = on.qubit; vertex = on.vertex; held = on.held; link = on.link })
      ]

module _ {F : Type 0} where
  -- Before the gates there are no edges, and the history has the qubits, each with its number.
  abbrev IsStart : ℕ → QuakeDag F × Bits → Type 0
  IsStart n s =
      (s.0.edges ≡ []) × (Ascends s.1 × ((q v : ℕ) → find q s.1 ≡ some v → (q < n) × (v ≡ q)))

  add_qubits-IsStart :
      (n : ℕ) (s : QuakeDag F × Bits)
      → HasForwardEdges 0 s
      → s.0.node_map ≡ []
      → s.0.edges ≡ []
      → s.1 ≡ []
      → IsStart n (add_qubits n s)
  unfolding add_qubits find
  add_qubits-IsStart zero s h e edges empty =
      (edges, (rw empty tt, λ q v found. absurd (cc (empty, found))))
  add_qubits-IsStart (suc i) s h e edges empty =
      let before = add_qubits i s in
      let start = add_qubits-IsStart i s h e edges empty in
      let ih = add_qubits-HasForwardEdges i s h e in
      let f : MlirVertex F → MlirVertex F = λ x. record x { is_qubit = true } in
      let r = change_vertex f (get_or_add_node (qubit_node i) before.0) in
      let added = new-IsAdded (qubit_node i) f before.0 (new_qubit i before.0.node_map ih.1) in
      let number : r.1 ≡ i = added.0 ∙ ih.0.0 in
      (
        added.2 ∙ start.0,
        (
          put-Ascends i r.1 before.1 start.1.0,
          λ q v found.
              let kept : (if q == i then some r.1 else find q before.1) ≡ some v =
                sym (find-put q i r.1 before.1) ∙ found in
              elim (Bool-cases (q == i)) [
                | inl same ↦ (ground (arith, same), ground (arith, same, kept, number))
                | inr other ↦
                    let below = start.1.1 q v (ground (arith, other, kept)) in
                    (omega (arith, below.0), below.1)
              ],
        ),
      )

module _ {F : Type 0} (fl : Floats F) where
  -- Each edge of the graph of a kernel whose gates name no qubit twice leads from one vertex to the
  -- next on the path of a qubit of the kernel: from the vertex of the qubit through the vertices of
  -- the gates on it, in their order, to the vertex of the measurements.
  pub parse_mlir-IsLink :
      (kernel : List (Op F)) (e : ℕ × ℕ)
      → All NamesOnce kernel
      → IsIn e (parse_mlir fl kernel).edges
      → (q : ℕ) × ((q < get_number_of_qubits kernel)
          × IsLink e q (wire q (get_number_of_qubits kernel) kernel))
  parse_mlir-IsLink kernel e d k =
      let n = get_number_of_qubits kernel in
      let start = with_qubits-HasForwardEdges kernel in
      let begin = add_qubits-IsStart n empty_dag (refl, tt, tt) refl refl refl in
      elim (parse_all-IsOnWire fl 0 n (n + number_of_gates kernel) kernel (with_qubits kernel) e
        refl d start.0 start.1 begin.1.0 (subst (IsIn e) (parse_mlir-edges fl kernel d) k)) [
          | inl before ↦ absurd (subst (IsIn e) begin.0 before)
          | inr on ↦
              let known = begin.1.1 on.qubit on.vertex on.held in
              (
                on.qubit,
                (known.0, subst (λ v. IsLink e v (wire on.qubit n kernel)) known.1 on.link),
              )
        ]
