-- ===== src/Dag/Links.antt =====
-- Where the edges come from that the loops of parse_mlir add (lib/Support/DAG/QuakeDAG.cpp).
use mqss_passes_suite.Base.{
  ℕ, ◌<◌, ◌≡◌, refl, sym, ◌∙◌, ap, subst, ltb, ◌==◌, ==_iff, ◌==ℤ◌, mem_ℤ, ℤ, pos, negsuc, true,
  false, Bool-cases, Option-cases, ◌⊎◌, inl, inr, List, [], ◌∷◌, ◌++◌, All, none, some, arith,
}
use mqss_passes_suite.Quake.Classical.{Bits, put, find}
use mqss_passes_suite.Quake.Lookup.{find-put}
use mqss_passes_suite.Dag.Graph.{find_vertex, put_vertex, insert_edges, measure_edges}
use mqss_passes_suite.Dag.Forward.{IsDuplicateFree, All-map, All-put}
use mqss_passes_suite.Dag.Wires.{IsIn, turn, turn_missing, turn_found, turn_other}

-- The keys of a map ascend.
abbrev pub Ascends : Bits → Type 0
Ascends [] = Unit
Ascends (e ∷ es) = All (λ x. e.0 < x.0) es × Ascends es

pub put-Ascends : (q v : ℕ) (es : Bits) → Ascends es → Ascends (put q v es)
unfolding put
put-Ascends q v [] h = (tt, tt)
put-Ascends q v (e ∷ es) h = elim (Bool-cases (ltb q e.0)) [
  | inl less ↦
      let before : q < e.0 = ground (arith, less) in
      rw less (
        (before, All-map (λ x. e.0 < x.0) (λ x. q < x.0) es (λ x b. omega (arith, b, before)) h.0),
        h,
      )
  | inr more ↦ (elim (Bool-cases (q == e.0)) [
    | inl same ↦
        rw (more, same) (subst (λ k. All (λ x. k < x.0) es) (sym ((==_iff q e.0).0 same)) h.0, h.1)
    | inr other ↦
        rw (more, other)
          (
            All-put (λ x. e.0 < x.0) q v es (ground (arith, more, other)) h.0,
            put-Ascends q v es h.1,
          )
  ])
]

-- An entry of a map is found.
pub find-entry : (x : ℕ × ℕ) (es : Bits) → Ascends es → IsIn x es → find x.0 es ≡ some x.1
unfolding find
find-entry x (e ∷ es) h (inl same) = ground (arith, ap (λ y. y.0) same, ap (λ y. y.1) same)
find-entry x (e ∷ es) h (inr later) =
    let above : e.0 < x.0 = entry-above e x es h.0 later in
    ground (arith, above, find-entry x es h.1 later)
  where
    entry-above : (e x : ℕ × ℕ) (es : Bits) → All (λ y. e.0 < y.0) es → IsIn x es → e.0 < x.0
    entry-above e x [] h i = absurd i
    entry-above e x (y ∷ ys) h (inl same) = subst (λ z. e.0 < z.0) (sym same) h.0
    entry-above e x (y ∷ ys) h (inr later) = entry-above e x ys h.1 later
find-entry x [] h i = absurd i

IsIn-split : (e : ℕ × ℕ) (xs ys : List (ℕ × ℕ)) → IsIn e (xs ++ ys) → IsIn e xs ⊎ IsIn e ys
IsIn-split e [] ys h = inr h
IsIn-split e (x ∷ xs) ys (inl same) = inl (inl same)
IsIn-split e (x ∷ xs) ys (inr h) = elim (IsIn-split e xs ys h) [
  | inl left ↦ inl (inr left)
  | inr right ↦ inr right
]

-- An edge to `operation` from the vertex of one of the qubits `is`.
pub record IsNew (operation : ℕ) (is : List ℤ) (history : Bits) (e : ℕ × ℕ) : Type 0 where
  pub qubit : ℕ
  pub vertex : ℕ
  pub held : find qubit history ≡ some vertex
  pub used : mem_ℤ (pos qubit) is ≡ true
  pub same : e ≡ (vertex, operation)

later_qubit :
    (operation : ℕ) (i : ℤ) (is : List ℤ) (history : Bits) (e : ℕ × ℕ)
    → IsNew operation is history e
    → IsNew operation (i ∷ is) history e
later_qubit operation i is history e n = record {
  qubit = n.qubit;
  vertex = n.vertex;
  held = n.held;
  used = ground (arith, n.used);
  same = n.same;
}

put_vertex-Ascends :
    (i : ℤ) (operation : ℕ) (history : Bits)
    → Ascends history
    → Ascends (put_vertex i operation history)
unfolding put_vertex
put_vertex-Ascends (pos p) operation history h = put-Ascends p operation history h
put_vertex-Ascends (negsuc n) operation history h = h

turn-Ascends :
    (operation : ℕ) (i : ℤ) (s : List (ℕ × ℕ) × Bits) → Ascends s.1 → Ascends (turn operation i s).1
turn-Ascends operation i s h = elim (Option-cases (find_vertex i s.1)) [
  | inl missing ↦ subst (λ r. Ascends r.1) (sym (turn_missing operation i s missing)) h
  | inr (v, held) ↦
      subst (λ r. Ascends r.1) (sym (turn_found operation i v s held))
        (put_vertex-Ascends i operation s.1 h)
]

pub insert_edges-Ascends :
    (operation : ℕ) (is : List ℤ) (s : List (ℕ × ℕ) × Bits)
    → Ascends s.1
    → Ascends (insert_edges operation is s).1
unfolding insert_edges
insert_edges-Ascends operation [] s h = h
insert_edges-Ascends operation (i ∷ is) s h =
    insert_edges-Ascends operation is (turn operation i s) (turn-Ascends operation i s h)

-- A qubit without a vertex gets none.
turn_unknown :
    (operation : ℕ) (i : ℤ) (q : ℕ) (s : List (ℕ × ℕ) × Bits)
    → find q s.1 ≡ none
    → find q (turn operation i s).1 ≡ none
unfolding find_vertex
turn_unknown operation i q s h = elim (Bool-cases (pos q ==ℤ i)) [
  | inl same ↦
      let missing : find_vertex i s.1 ≡ none =
        subst (λ j. find_vertex j s.1 ≡ none) (same_index q i same) h in
      ap (λ r. find q r.1) (turn_missing operation i s missing) ∙ h
  | inr other ↦ turn_other operation i q s other ∙ h
]
  where
    same_index : (q : ℕ) (i : ℤ) → (pos q ==ℤ i) ≡ true → pos q ≡ i
    same_index q i h = ground (arith, h)

pub insert_edges_unknown :
    (operation : ℕ) (is : List ℤ) (q : ℕ) (s : List (ℕ × ℕ) × Bits)
    → find q s.1 ≡ none
    → find q (insert_edges operation is s).1 ≡ none
unfolding insert_edges
insert_edges_unknown operation [] q s h = h
insert_edges_unknown operation (i ∷ is) q s h =
    insert_edges_unknown operation is q (turn operation i s) (turn_unknown operation i q s h)

-- The same after one turn and the rest of the loop.
after_turn :
    (operation p v : ℕ) (is : List ℤ) (s : List (ℕ × ℕ) × Bits) (e : ℕ × ℕ)
    → mem_ℤ (pos p) is ≡ false
    → find p s.1 ≡ some v
    → IsIn e (s.0 ++ (v, operation) ∷ []) ⊎ IsNew operation is (put p operation s.1) e
    → IsIn e s.0 ⊎ IsNew operation (pos p ∷ is) s.1 e
after_turn operation p v is s e d held (inl before) =
    elim (IsIn-split e s.0 ((v, operation) ∷ []) before) [
      | inl earlier ↦ inl earlier
      | inr (inl same) ↦
          inr (record { qubit = p; vertex = v; held = held; used = ground arith; same = same })
      | inr (inr missing) ↦ absurd missing
    ]
after_turn operation p v is s e d held (inr n) =
    let other : (n.qubit == p) ≡ false = elim (Bool-cases (n.qubit == p)) [
      | inl same ↦ absurd (cc (d, n.used, ap (λ k. mem_ℤ (pos k) is) ((==_iff n.qubit p).0 same)))
      | inr other ↦ other
    ] in
    inr (
      later_qubit operation (pos p) is s.1 e (record {
        qubit = n.qubit;
        vertex = n.vertex;
        held = ground (arith, other, find-put n.qubit p operation s.1, n.held);
        used = n.used;
        same = n.same;
      }))

turn-IsNew :
    (operation : ℕ) (i : ℤ) (is : List ℤ) (s : List (ℕ × ℕ) × Bits) (e : ℕ × ℕ)
    → mem_ℤ i is ≡ false
    → IsIn e (turn operation i s).0 ⊎ IsNew operation is (turn operation i s).1 e
    → IsIn e s.0 ⊎ IsNew operation (i ∷ is) s.1 e
unfolding find_vertex put_vertex
turn-IsNew operation (negsuc n) is s e d (inl before) = inl before
turn-IsNew operation (negsuc n) is s e d (inr new) =
    inr (later_qubit operation (negsuc n) is s.1 e new)
turn-IsNew operation (pos p) is s e d h = elim (Option-cases (find p s.1)) [
  | inl missing ↦ unchanged (
      subst (λ r. IsIn e r.0 ⊎ IsNew operation is r.1 e) (turn_missing operation (pos p) s missing)
        h)
  | inr (v, held) ↦
      after_turn operation p v is s e d held (
        subst (λ r. IsIn e r.0 ⊎ IsNew operation is r.1 e) (turn_found operation (pos p) v s held)
          h)
]
  where
    unchanged :
        IsIn e s.0 ⊎ IsNew operation is s.1 e → IsIn e s.0 ⊎ IsNew operation (pos p ∷ is) s.1 e
    unchanged (inl before) = inl before
    unchanged (inr new) = inr (later_qubit operation (pos p) is s.1 e new)

-- An edge after the loop was there before, or comes from a vertex of before.
pub insert_edges-IsNew :
    (operation : ℕ) (is : List ℤ) (s : List (ℕ × ℕ) × Bits) (e : ℕ × ℕ)
    → IsDuplicateFree is
    → IsIn e (insert_edges operation is s).0
    → IsIn e s.0 ⊎ IsNew operation is s.1 e
unfolding insert_edges
insert_edges-IsNew operation [] s e d h = inl h
insert_edges-IsNew operation (i ∷ is) s e d h =
    turn-IsNew operation i is s e d.0 (insert_edges-IsNew operation is (turn operation i s) e d.1 h)

pub measure_edges-entry :
    (mes : ℕ) (history : Bits) (edges : List (ℕ × ℕ)) (e : ℕ × ℕ)
    → IsIn e (measure_edges mes history edges)
    → IsIn e edges ⊎ ((x : ℕ × ℕ) × (IsIn x history × (e ≡ (x.1, mes))))
unfolding measure_edges
measure_edges-entry mes [] edges e h = inl h
measure_edges-entry mes (x ∷ xs) edges e h =
    elim (measure_edges-entry mes xs (edges ++ (x.1, mes) ∷ []) e h) [
      | inl before ↦ (elim (IsIn-split e edges ((x.1, mes) ∷ []) before) [
        | inl earlier ↦ inl earlier
        | inr (inl same) ↦ inr (x, (inl refl, same))
        | inr (inr missing) ↦ absurd missing
      ])
      | inr (y, (i, same)) ↦ inr (y, (inr i, same))
    ]
