-- ===== src/Soundness/Callback.antt =====
-- The shape that the callbacks on single-qubit gates share: test the current gate, search on its
-- target, go on with what is found.
use mqss_passes_suite.Base.{
  ℕ, Bool-cases, ◌≡◌, refl, inl, inr, if◌then◌else◌, List, [], ◌∷◌, ◌++◌, All, Option, Result, ok,
  ◌>>=◌, Post, All-append, ap, ◌∙◌, sym,
}
use mqss_passes_suite.Quake.Ops.{GateKind, Value, Gate, Op, operator}
use mqss_passes_suite.Quake.Query.{
  extract_index, first_value, Found, get_previous_operation_on_target,
}
use mqss_passes_suite.Passes.Patterns.{is_compliant}
use mqss_passes_suite.Semantics.Model.{Model}
use mqss_passes_suite.Semantics.Run.{effect, run_reversed, run_reversed-append}
use mqss_passes_suite.Soundness.Shape.{IsPlaced, IsSingle, is_compliant-IsSingle}
use mqss_passes_suite.Soundness.Search.{IsNearest, Splits, previous-IsNearest}
use mqss_passes_suite.Soundness.Walk.{Refines, Keeps, unchanged-Refines}
use mqss_passes_suite.Soundness.Pair.{
  unitary_as, IsSingle-InRegister, effect-IsSingle, rest-IsPlaced, neighbour, same_qubit,
}

pub first_of_one : {vs : List Value} {q : Value} → vs ≡ q ∷ [] → first_value vs ≡ ok q
unfolding first_value
first_of_one e = rw e

module _ {F : Type 0} (m : Model F) (r : ℕ) (W : Type 0) (k : GateKind) where
  -- What follows the search keeps the meaning, whatever was found.
  abbrev pub BodyKeeps : (List (Op F) → Gate F → Option (Found F) → Result (List (Op F))) → Type 0
  BodyKeeps body =
      (before : List (Op F)) (g : Gate F) (c : IsSingle k g)
      → All (IsPlaced r) before
      → IsPlaced r (operator g)
      → (o : Option (Found F)) → IsNearest before (extract_index c.qubit) o
      → Post W (Refines m r before (operator g)) (body before g o)

  pub search_Keeps :
      (body : List (Op F) → Gate F → Option (Found F) → Result (List (Op F)))
      → BodyKeeps body
      → Keeps m r W λ before current.
        if is_compliant k 0 1 current
        then (first_value current.targets >>= λ target.
            body before current (get_previous_operation_on_target before target))
        else ok (operator current ∷ before)
  search_Keeps body keeps before g p h = elim (Bool-cases (is_compliant k 0 1 g)) [
    | inl fits ↦
        let c = is_compliant-IsSingle k g fits in
        rw (fits, first_of_one c.targets)
          (keeps before g c p h (get_previous_operation_on_target before c.qubit)
            (previous-IsNearest before c.qubit))
    | inr other ↦ rw other (unchanged-Refines m r before g p h)
  ]

-- Two gates created from the pair, behind what stood between them.
module _ {F : Type 0} (m : Model F) (r : ℕ) (before : List (Op F)) (g : Gate F) (prev : Found F)
    (p : All (IsPlaced r) before) (h : IsPlaced r (operator g)) (k₁ k₂ : GateKind)
    (c : IsSingle k₂ g) (found : Splits before (extract_index c.qubit) prev)
    (d : IsSingle k₁ prev.gate) where
  open m use {State, apply}

  pub pair_effect :
      (s : State)
      → effect m (operator g) (run_reversed m before s)
        ≡ apply (unitary_as k₂ g) [] (c.qubit ∷ []) (
            apply
              (unitary_as k₁ prev.gate)
              []
              (c.qubit ∷ [])
              (run_reversed m (prev.between ++ prev.before) s))
  pair_effect s =
      effect-IsSingle m k₂ g c (run_reversed m before s)
      ∙ ap (apply (unitary_as k₂ g) [] (c.qubit ∷ []))
          (neighbour m r before prev _ found p k₁ d c.qubit (IsSingle-InRegister c h) refl s)

  -- New gates in place of the two keep the meaning, if they act on the qubit as the two do.
  pub pair_Refines :
      (new : List (Op F))
      → All (IsPlaced r) new
      → ((x : State)
          → run_reversed m new x
            ≡ apply
                (unitary_as k₂ g)
                []
                (c.qubit ∷ [])
                (apply (unitary_as k₁ prev.gate) [] (c.qubit ∷ []) x))
      → Refines m r before (operator g) (new ++ (prev.between ++ prev.before))
  pair_Refines new placed law = (
    All-append (IsPlaced r) new (prev.between ++ prev.before) placed
        (rest-IsPlaced m r before prev _ found p),
    λ s.
        run_reversed-append m new (prev.between ++ prev.before) s
        ∙ law (run_reversed m (prev.between ++ prev.before) s)
        ∙ sym (pair_effect s),
  )

  pub prev_qubit : d.qubit ≡ c.qubit
  prev_qubit = same_qubit m r before prev _ found p k₁ d c.qubit (IsSingle-InRegister c h) refl
