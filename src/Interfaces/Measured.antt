-- ===== src/Interfaces/Measured.antt =====
-- The measurements that lib/Interfaces inserts, and the vectors of qubits it allocates.
use mqss_passes_suite.Base.{
  ℕ, ◌+◌, ◌<◌, ◌≡◌, ◌==◌, ◌⊎◌, ltb, refl, ap, List, [], ◌∷◌, ◌++◌, none, some, arith, true,
  Bool-cases, inl, inr, Result,
}
use mqss_passes_suite.Quake.Query.{get_number_of_qubits}
use mqss_passes_suite.Interfaces.Qasm.{
  measured, measured_nothing, not_measured, Statement, assignment, gate_call, declaration,
  other_statement,
}
use mqss_passes_suite.Interfaces.Program.{Measurement, emplace, collect, alloca_ops, total_qubits}

-- A map has a key, behind smaller ones.
abbrev Held : ℕ → List Measurement → Type 0
Held c [] = ⊥
Held c (n ∷ ns) = (c ≡ n.0) ⊎ ((n.0 < c) × Held c ns)

Held-emplaced : (c : ℕ) (p : ℕ × ℕ) (ms : List Measurement) → Held c (emplace (c, p) ms)
unfolding emplace
Held-emplaced c p [] = inl refl
Held-emplaced c p (n ∷ ns) = elim (Bool-cases (ltb c n.0)) [
  | inl less ↦ rw less (inl refl)
  | inr other ↦ elim (Bool-cases (c == n.0)) [
    | inl same ↦ rw (other, same) (inl (ground (arith, same)))
    | inr differs ↦ rw (other, differs) (inr (ground (arith, other, differs), Held-emplaced c p ns))
  ]
]

Held-emplace : (c : ℕ) (m : Measurement) (ms : List Measurement) → Held c ms → Held c (emplace m ms)
unfolding emplace
Held-emplace c m [] h = absurd h
Held-emplace c m (n ∷ ns) h = elim (Bool-cases (ltb m.0 n.0)) [
  | inl less ↦ rw less (inr (before less h, h))
  | inr other ↦ elim (Bool-cases (m.0 == n.0)) [
    | inl same ↦ rw (other, same) h
    | inr differs ↦
        rw (other, differs)
          (elim h [ inl here ↦ inl here | inr later ↦ inr (later.0, Held-emplace c m ns later.1) ])
  ]
]
  where
    before : ltb m.0 n.0 ≡ true → (c ≡ n.0) ⊎ ((n.0 < c) × Held c ns) → m.0 < c
    before l (inl e) = ground (arith, l, e)
    before l (inr k) = ground (arith, l, k.0)

emplace-Held : (c : ℕ) (q : ℕ × ℕ) (ms : List Measurement) → Held c ms → emplace (c, q) ms ≡ ms
unfolding emplace
emplace-Held c q [] h = absurd h
emplace-Held c q (n ∷ ns) (inl here) = ground (arith, here)
emplace-Held c q (n ∷ ns) (inr later) = ground (arith, later.0, emplace-Held c q ns later.1)

module _ {F : Type 0} where
  abbrev measurement : ℕ → ℕ → ℕ → ℕ → Statement F
  measurement b c w j = assignment b (some c) (measured (record { identifier = w; index = some j }))

  collect-Held :
      (found : List Measurement) (b c w j : ℕ) (ss ts : List (Statement F))
      → Held c found
      → collect found (ss ++ measurement b c w j ∷ ts) ≡ collect found (ss ++ ts)
  unfolding collect
  collect-Held found b c w j [] ts h = ap (λ ms. collect ms ts) (emplace-Held c (w, j) found h)
  collect-Held found b c w j (gate_call g ∷ ss) ts h = collect-Held found b c w j ss ts h
  collect-Held found b c w j (declaration n t o ∷ ss) ts h = collect-Held found b c w j ss ts h
  collect-Held found b c w j (other_statement ∷ ss) ts h = collect-Held found b c w j ss ts h
  collect-Held found b c w j (assignment a none e ∷ ss) ts h = refl
  collect-Held found b c w j (assignment a (some d) measured_nothing ∷ ss) ts h = refl
  collect-Held found b c w j (assignment a (some d) not_measured ∷ ss) ts h =
      collect-Held found b c w j ss ts h
  collect-Held found b c w j (assignment a (some d) (measured q) ∷ ss) ts h =
      elim q.index
        as (λ o.
          (elim o as (λ _. Result (List Measurement)) [
            | none ↦ collect found (ss ++ measurement b c w j ∷ ts)
            | some i ↦
                collect (emplace (d, (q.identifier, i)) found) (ss ++ measurement b c w j ∷ ts)
          ])
          ≡ (elim o as (λ _. Result (List Measurement)) [
            | none ↦ collect found (ss ++ ts)
            | some i ↦ collect (emplace (d, (q.identifier, i)) found) (ss ++ ts)
          ])) [
            | none ↦ collect-Held found b c w j ss ts h
            | some i ↦
                collect-Held (emplace (d, (q.identifier, i)) found) b c w j ss ts
                  (Held-emplace c (d, (q.identifier, i)) found h)
          ]

  -- Of two measurements to the same index of any two classical registers, whatever statements
  -- stand between and behind them, the second is not inserted.
  pub second_measurement_lost :
      (found : List Measurement) (a b c v w i j : ℕ) (ss ts : List (Statement F))
      → collect found (measurement a c v i ∷ ss ++ measurement b c w j ∷ ts)
        ≡ collect found (measurement a c v i ∷ ss ++ ts)
  unfolding collect
  second_measurement_lost found a b c v w i j ss ts =
      collect-Held (emplace (c, (v, i)) found) b c w j ss ts (Held-emplaced c (v, i) found)

-- The vectors that a program allocates have as many qubits as it declares.
pub alloca_ops-total :
    (F : Type 0) (order : List (ℕ × ℕ))
    → get_number_of_qubits (alloca_ops {F = F} order) ≡ total_qubits order
unfolding alloca_ops total_qubits get_number_of_qubits
alloca_ops-total F [] = refl
alloca_ops-total F (v ∷ vs) = ap (λ n. v.1 + n) (alloca_ops-total F vs)
