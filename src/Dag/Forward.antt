-- ===== src/Dag/Forward.antt =====
-- The edges and vertices of the graph of a kernel (lib/Support/DAG/QuakeDAG.cpp).
use mqss_passes_suite.Base.{
  ℕ, suc, ◌<◌, ◌≤◌, ◌≡◌, refl, sym, subst, ltb, ◌==◌, ==_iff, mem_ℤ, ℤ, pos, negsuc, true, false,
  if◌then◌else◌, List, [], ◌∷◌, ◌++◌, All, All-append, none, some, Bool-cases, Option-cases, inl,
  inr, arith,
}
use mqss_passes_suite.Quake.Classical.{Bits, put, find}
use mqss_passes_suite.Dag.Graph.{find_vertex, put_vertex, insert_edges}

-- An edge of a graph with `n` vertices, from a vertex to a later one.
abbrev pub IsForward : ℕ → ℕ × ℕ → Type 0
IsForward n e = (e.0 < e.1) × (e.1 < n)

-- No index stands twice in a list.
abbrev pub IsDuplicateFree : List ℤ → Type 0
IsDuplicateFree [] = Unit
IsDuplicateFree (i ∷ is) = (mem_ℤ i is ≡ false) × IsDuplicateFree is

-- The history while the qubits `is` have still to be joined to the vertex `operation`.
abbrev pub Before : ℕ → List ℤ → ℕ × ℕ → Type 0
Before operation is e = (e.1 ≤ operation) × (mem_ℤ (pos e.0) is ≡ true → e.1 < operation)

pub All-map :
    {A : Type 0} (P Q : A → Type 0) (xs : List A) → ((x : A) → P x → Q x) → All P xs → All Q xs
All-map P Q [] k h = tt
All-map P Q (x ∷ xs) k h = (k x h.0, All-map P Q xs k h.1)

pub All-put : (P : ℕ × ℕ → Type 0) (q v : ℕ) (es : Bits) → P (q, v) → All P es → All P (put q v es)
unfolding put
All-put P q v [] h k = (h, tt)
All-put P q v (e ∷ es) h k =
    elim (ltb q e.0)
      as (λ b.
        All P (if b then (q, v) ∷ e ∷ es else if q == e.0 then (q, v) ∷ es else e ∷ put q v es)) [
          | true ↦ (h, k)
          | false ↦ (elim (q == e.0) as (λ b. All P (if b then (q, v) ∷ es else e ∷ put q v es)) [
            | true ↦ (h, k.1)
            | false ↦ (k.0, All-put P q v es h k.1)
          ])
        ]

All-find : (P : ℕ × ℕ → Type 0) (q v : ℕ) (es : Bits) → All P es → find q es ≡ some v → P (q, v)
unfolding find
All-find P q v [] h e = cc
All-find P q v (x ∷ es) h e = elim (Bool-cases (q == x.0)) [
  | inl t ↦
      let same : q ≡ x.0 = (==_iff q x.0).0 t in
      let held : x.1 ≡ v = ground (arith, e, t) in
      subst (λ k. P (k, v)) (sym same) (subst (λ w. P (x.0, w)) held h.0)
  | inr f ↦ All-find P q v es h.1 (ground (arith, e, f))
]

pub insert-append :
    (operation : ℕ) (is js : List ℤ) (s : List (ℕ × ℕ) × Bits)
    → insert_edges operation js (insert_edges operation is s) ≡ insert_edges operation (is ++ js) s
unfolding insert_edges
insert-append operation [] js s = refl
insert-append operation (i ∷ is) js s = insert-append operation is js (elim (find_vertex i s.1) [
  | none ↦ s
  | some v ↦ (s.0 ++ (v, operation) ∷ [], put_vertex i operation s.1)
])

-- The edges and the history after a loop that joins qubits to `operation`.
abbrev pub Joined : ℕ → List (ℕ × ℕ) × Bits → Type 0
Joined operation s = All (IsForward (suc operation)) s.0 × All (λ e. e.1 < suc operation) s.1

pub insert_edges-Joined :
    (operation : ℕ) (is : List ℤ) (s : List (ℕ × ℕ) × Bits)
    → IsDuplicateFree is
    → All (IsForward (suc operation)) s.0
    → All (Before operation is) s.1
    → Joined operation (insert_edges operation is s)
unfolding insert_edges find_vertex put_vertex
insert_edges-Joined operation [] s d h k =
    (h, All-map (Before operation []) (λ e. e.1 < suc operation) s.1 (λ e b. omega (arith, b.0)) k)
insert_edges-Joined operation (negsuc n ∷ is) s d h k = insert_edges-Joined operation is s d.1 h (
    All-map (Before operation (negsuc n ∷ is)) (Before operation is) s.1
      (λ e b. (b.0, λ m. b.1 (ground arith))) k)
insert_edges-Joined operation (pos q ∷ is) s d h k = elim (Option-cases (find q s.1)) [
  | inl e ↦
      rw (insert_edges, e)
        (insert_edges-Joined operation is s d.1 h (
          All-map (Before operation (pos q ∷ is)) (Before operation is) s.1
            (λ e b. (b.0, λ m. b.1 (ground arith))) k))
  | inr (v, e) ↦
      let b = All-find (Before operation (pos q ∷ is)) q v s.1 k e in
      let below : v < operation = b.1 (ground arith) in
      rw (insert_edges, e)
        (insert_edges-Joined operation is (s.0 ++ (v, operation) ∷ [], put q operation s.1) d.1
          (All-append (IsForward (suc operation)) s.0 ((v, operation) ∷ []) h
            ((below, omega arith), tt))
          (All-put (Before operation is) q operation s.1
            (omega arith, λ m. absurd (ground (arith, d.0)))
            (All-map (Before operation (pos q ∷ is)) (Before operation is) s.1
              (λ e b. (b.0, λ m. b.1 (ground arith))) k)))
]
