-- ===== src/Dag/Print.antt =====
-- QuakeDAG::print of lib/Support/DAG/QuakeDAG.cpp.
use mqss_passes_suite.Base.{
  ℕ, zero, suc, ◌≡◌, ap, ◌==◌, ==_iff, true, false, if◌then◌else◌, Bool-cases, inl, inr, ◌⊎◌, List,
  [], ◌∷◌, Option, none, some, arith,
}
use mqss_passes_suite.Dag.Graph.{NodeName, MlirVertex, QuakeDag}
use mqss_passes_suite.Dag.Wires.{IsIn}

-- The ends of the edges that leave a vertex, in the order in which the edges were added.
unfoldable pub adjacent : ℕ → List (ℕ × ℕ) → List ℕ
adjacent v [] = []
adjacent v (e ∷ es) = let rest = adjacent v es in if e.0 == v then e.1 ∷ rest else rest

module _ {F : Type 0} where
  -- `dag[out].name`
  unfoldable pub name_of : ℕ → List (MlirVertex F) → Option NodeName
  name_of v [] = none
  name_of zero (x ∷ xs) = some x.name
  name_of (suc v) (x ∷ xs) = name_of v xs

  unfoldable pub names_of : List ℕ → List (MlirVertex F) → List (Option NodeName)
  unfolding name_of
  names_of [] xs = []
  names_of (v ∷ vs) xs = name_of v xs ∷ names_of vs xs

  -- A line for each vertex, the first of which has the number `v`: its name, and the names of the
  -- vertices at the ends of its edges.
  unfoldable pub print_from :
      ℕ → List (MlirVertex F) → QuakeDag F → List (NodeName × List (Option NodeName))
  unfolding adjacent names_of
  print_from v [] d = []
  print_from v (x ∷ xs) d =
      (x.name, names_of (adjacent v d.edges) d.vertices) ∷ print_from (suc v) xs d

  -- print
  unfoldable pub print_dag : QuakeDag F → List (NodeName × List (Option NodeName))
  unfolding print_from
  print_dag d = print_from 0 d.vertices d

-- A number is one of the list.
abbrev pub IsOne : ℕ → List ℕ → Type 0
IsOne w [] = ⊥
IsOne w (v ∷ vs) = (w ≡ v) ⊎ IsOne w vs

-- The line of a vertex shows the ends of its edges and of no others.
adjacent-IsIn :
    (v w : ℕ) (edges : List (ℕ × ℕ))
    → (IsOne w (adjacent v edges) → IsIn (v, w) edges)
      × (IsIn (v, w) edges → IsOne w (adjacent v edges))
unfolding adjacent
adjacent-IsIn v w [] = (λ h. h, λ h. h)
adjacent-IsIn v w (e ∷ es) =
    let rest = adjacent-IsIn v w es in
    elim (Bool-cases (e.0 == v)) [
      | inl same ↦ rw same (from same rest.0, to rest.1)
      | inr other ↦ rw other (λ h. inr (rest.0 h), elsewhere other rest.1)
    ]
  where
    from :
        (e.0 == v) ≡ true
        → (IsOne w (adjacent v es) → IsIn (v, w) es)
        → IsOne w (e.1 ∷ adjacent v es)
        → IsIn (v, w) (e ∷ es)
    from same h (inl last) = inl (cc ((==_iff e.0 v).0 same, last))
    from same h (inr later) = inr (h later)

    to :
        (IsIn (v, w) es → IsOne w (adjacent v es))
        → IsIn (v, w) (e ∷ es)
        → IsOne w (e.1 ∷ adjacent v es)
    to h (inl first) = inl (ap (λ x. x.1) first)
    to h (inr later) = inr (h later)

    elsewhere :
        (e.0 == v) ≡ false
        → (IsIn (v, w) es → IsOne w (adjacent v es))
        → IsIn (v, w) (e ∷ es)
        → IsOne w (adjacent v es)
    elsewhere other h (inl first) = absurd (ground (arith, other, ap (λ x. x.0) first))
    elsewhere other h (inr later) = h later
