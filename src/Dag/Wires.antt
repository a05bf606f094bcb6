-- ===== src/Dag/Wires.antt =====
-- The edges on one qubit that the loops of parse_mlir add (lib/Support/DAG/QuakeDAG.cpp).
use mqss_passes_suite.Base.{
  ℕ, ◌≡◌, refl, sym, ◌∙◌, ap, subst, ◌==◌, ==_iff, ◌==ℤ◌, mem_ℤ, ◌⊎◌, ℤ, pos, negsuc, true, false,
  if◌then◌else◌, Bool-cases, Option-cases, inl, inr, List, [], ◌∷◌, ◌++◌, none, some, arith,
}
use mqss_passes_suite.Quake.Classical.{Bits, put, find}
use mqss_passes_suite.Quake.Lookup.{find-put}
use mqss_passes_suite.Dag.Graph.{find_vertex, put_vertex, insert_edges, measure_edges}
use mqss_passes_suite.Dag.Forward.{IsDuplicateFree}

-- An edge is one of the edges.
abbrev pub IsIn : ℕ × ℕ → List (ℕ × ℕ) → Type 0
IsIn e [] = ⊥
IsIn e (x ∷ xs) = (e ≡ x) ⊎ IsIn e xs

pub IsIn-left : (e : ℕ × ℕ) (xs ys : List (ℕ × ℕ)) → IsIn e xs → IsIn e (xs ++ ys)
IsIn-left e [] ys h = absurd h
IsIn-left e (x ∷ xs) ys (inl same) = inl same
IsIn-left e (x ∷ xs) ys (inr h) = inr (IsIn-left e xs ys h)

pub IsIn-last : (e : ℕ × ℕ) (xs : List (ℕ × ℕ)) → IsIn e (xs ++ e ∷ [])
IsIn-last e [] = inl refl
IsIn-last e (x ∷ xs) = inr (IsIn-last e xs)

-- One turn of the loop.
abbrev pub turn : ℕ → ℤ → List (ℕ × ℕ) × Bits → List (ℕ × ℕ) × Bits
turn operation i s = elim (find_vertex i s.1) [
  | none ↦ s
  | some v ↦ (s.0 ++ (v, operation) ∷ [], put_vertex i operation s.1)
]

turn-cons :
    (operation : ℕ) (i : ℤ) (is : List ℤ) (s : List (ℕ × ℕ) × Bits)
    → insert_edges operation (i ∷ is) s ≡ insert_edges operation is (turn operation i s)
unfolding insert_edges
turn-cons operation i is s = refl

pub turn_missing :
    (operation : ℕ) (i : ℤ) (s : List (ℕ × ℕ) × Bits)
    → find_vertex i s.1 ≡ none
    → turn operation i s ≡ s
turn_missing operation i s h = rw (turn, h) refl

pub turn_found :
    (operation : ℕ) (i : ℤ) (v : ℕ) (s : List (ℕ × ℕ) × Bits)
    → find_vertex i s.1 ≡ some v
    → turn operation i s ≡ (s.0 ++ (v, operation) ∷ [], put_vertex i operation s.1)
turn_found operation i v s h = rw (turn, h) refl

turn-keeps :
    (operation : ℕ) (i : ℤ) (s : List (ℕ × ℕ) × Bits) (e : ℕ × ℕ)
    → IsIn e s.0
    → IsIn e (turn operation i s).0
turn-keeps operation i s e h = elim (Option-cases (find_vertex i s.1)) [
  | inl missing ↦ subst (λ r. IsIn e r.0) (sym (turn_missing operation i s missing)) h
  | inr (v, held) ↦
      subst (λ r. IsIn e r.0) (sym (turn_found operation i v s held))
        (IsIn-left e s.0 ((v, operation) ∷ []) h)
]

-- The history of a qubit other than the one of the turn.
pub turn_other :
    (operation : ℕ) (i : ℤ) (q : ℕ) (s : List (ℕ × ℕ) × Bits)
    → (pos q ==ℤ i) ≡ false
    → find q (turn operation i s).1 ≡ find q s.1
unfolding find_vertex put_vertex
turn_other operation (negsuc n) q s h = refl
turn_other operation (pos p) q s h = elim (Option-cases (find p s.1)) [
  | inl missing ↦ ap (λ r. find q r.1) (turn_missing operation (pos p) s missing)
  | inr (v, held) ↦
      ap (λ r. find q r.1) (turn_found operation (pos p) v s held)
      ∙ find-put q p operation s.1
      ∙ ap (λ b. if b then some operation else find q s.1) h
]

-- The turn of the qubit adds the edge from its last vertex, and keeps the new one.
turn_same :
    (operation q v : ℕ) (s : List (ℕ × ℕ) × Bits)
    → find q s.1 ≡ some v
    → turn operation (pos q) s ≡ (s.0 ++ (v, operation) ∷ [], put q operation s.1)
unfolding find_vertex put_vertex
turn_same operation q v s h = rw (turn, h) refl

pub insert_edges-keeps :
    (operation : ℕ) (is : List ℤ) (s : List (ℕ × ℕ) × Bits) (e : ℕ × ℕ)
    → IsIn e s.0
    → IsIn e (insert_edges operation is s).0
unfolding insert_edges
insert_edges-keeps operation [] s e h = h
insert_edges-keeps operation (i ∷ is) s e h =
    insert_edges-keeps operation is (turn operation i s) e (turn-keeps operation i s e h)

pub insert_edges_other :
    (operation : ℕ) (is : List ℤ) (q : ℕ) (s : List (ℕ × ℕ) × Bits)
    → mem_ℤ (pos q) is ≡ false
    → find q (insert_edges operation is s).1 ≡ find q s.1
unfolding insert_edges
insert_edges_other operation [] q s h = refl
insert_edges_other operation (i ∷ is) q s h =
    insert_edges_other operation is q (turn operation i s) (ground (arith, h))
    ∙ turn_other operation i q s (ground (arith, h))

first_turn :
    (operation : ℕ) (is : List ℤ) (p q v : ℕ) (s : List (ℕ × ℕ) × Bits)
    → q ≡ p
    → IsDuplicateFree (pos p ∷ is)
    → find q s.1 ≡ some v
    → IsIn (v, operation) (insert_edges operation (pos p ∷ is) s).0
      × (find q (insert_edges operation (pos p ∷ is) s).1 ≡ some operation)
unfolding insert_edges
first_turn operation is p q v s same d h =
    let next : turn operation (pos p) s ≡ (s.0 ++ (v, operation) ∷ [], put q operation s.1) =
      subst (λ r. turn operation (pos r) s ≡ (s.0 ++ (v, operation) ∷ [], put q operation s.1)) same
        (turn_same operation q v s h) in
    let after : List (ℕ × ℕ) × Bits = (s.0 ++ (v, operation) ∷ [], put q operation s.1) in
    subst
      (λ r.
        IsIn (v, operation) (insert_edges operation is r).0
        × (find q (insert_edges operation is r).1 ≡ some operation))
      (sym next)
      (
        insert_edges-keeps operation is after (v, operation) (IsIn-last (v, operation) s.0),
        insert_edges_other operation is q after
              (subst (λ r. mem_ℤ (pos r) is ≡ false) (sym same) d.0)
            ∙ find-put q q operation s.1
            ∙ ground arith,
      )

-- A qubit among those of the loop: an edge from its last vertex, and the new one is its last.
pub insert_edges_same :
    (operation : ℕ) (is : List ℤ) (q v : ℕ) (s : List (ℕ × ℕ) × Bits)
    → IsDuplicateFree is
    → mem_ℤ (pos q) is ≡ true
    → find q s.1 ≡ some v
    → IsIn (v, operation) (insert_edges operation is s).0
      × (find q (insert_edges operation is s).1 ≡ some operation)
unfolding insert_edges
insert_edges_same operation [] q v s d m h = cc
insert_edges_same operation (negsuc n ∷ is) q v s d m h =
    insert_edges_same operation is q v s d.1 m h
insert_edges_same operation (pos p ∷ is) q v s d m h = elim (Bool-cases (q == p)) [
  | inl same ↦ first_turn operation is p q v s ((==_iff q p).0 same) d h
  | inr other ↦
      insert_edges_same operation is q v (turn operation (pos p) s) d.1 (ground (arith, m, other))
        (turn_other operation (pos p) q s other ∙ h)
]

pub measure_edges-keeps :
    (mes : ℕ) (history : Bits) (edges : List (ℕ × ℕ)) (e : ℕ × ℕ)
    → IsIn e edges
    → IsIn e (measure_edges mes history edges)
unfolding measure_edges
measure_edges-keeps mes [] edges e h = h
measure_edges-keeps mes (x ∷ xs) edges e h =
    measure_edges-keeps mes xs (edges ++ (x.1, mes) ∷ []) e (IsIn-left e edges ((x.1, mes) ∷ []) h)

pub measure_edges-find :
    (mes q v : ℕ) (history : Bits) (edges : List (ℕ × ℕ))
    → find q history ≡ some v
    → IsIn (v, mes) (measure_edges mes history edges)
unfolding measure_edges find
measure_edges-find mes q v [] edges h = cc
measure_edges-find mes q v (x ∷ xs) edges h = elim (Bool-cases (q == x.0)) [
  | inl t ↦
      let held : x.1 ≡ v = ground (arith, h, t) in
      measure_edges-keeps mes xs (edges ++ (x.1, mes) ∷ []) (v, mes)
        (subst (λ w. IsIn (w, mes) (edges ++ (x.1, mes) ∷ [])) held (IsIn-last (x.1, mes) edges))
  | inr f ↦ measure_edges-find mes q v xs (edges ++ (x.1, mes) ∷ []) (ground (arith, h, f))
]
