-- ===== src/Soundness/Pair.antt =====
-- A gate and the nearest gate before it on its qubit, both on that qubit alone.
use mqss_passes_suite.Base.{
  ℕ, ==ℤ_iff, ◌≡◌, refl, sym, ap, ◌∙◌, true, List, [], ◌∷◌, ◌++◌, All, All-append, All-split, arith,
  subst,
}
use mqss_passes_suite.Quake.Ops.{GateKind, Value, Gate, Op, operator}
use mqss_passes_suite.Quake.Query.{extract_index, any_index, on_qubit, Found}
use mqss_passes_suite.Passes.Patterns.{create_from}
use mqss_passes_suite.Semantics.Model.{Model, Unitary, unitary}
use mqss_passes_suite.Semantics.Run.{effect, run_reversed, run_reversed-append}
use mqss_passes_suite.Soundness.Shape.{InRegister, IsPlaced, IsSingle, eq_of_index}
use mqss_passes_suite.Soundness.Search.{Splits, IsClear, run_reversed_comm}

module _ {F : Type 0} where
  -- The unitary of a gate, once its class is known.
  abbrev pub unitary_as : GateKind → Gate F → Unitary F
  unitary_as k g = unitary k g.is_adj g.parameters

  pub single-IsPlaced :
      (r : ℕ) (t k : GateKind) (g : Gate F) → IsPlaced r (operator g) → IsPlaced r (create_from t g)
  unfolding create_from
  single-IsPlaced r t k g h = h

  pub index_of_hit :
      {k : GateKind} {g : Gate F} (i : _) (c : IsSingle k g)
      → on_qubit i g ≡ true
      → extract_index c.qubit ≡ i
  unfolding on_qubit any_index
  index_of_hit i c h = ground (arith, c.targets, c.controls, ==ℤ_iff i (extract_index c.qubit))

  pub IsSingle-InRegister :
      {r : ℕ} {k : GateKind} {g : Gate F} (c : IsSingle k g)
      → IsPlaced r (operator g)
      → InRegister r c.qubit
  IsSingle-InRegister {r} c h = (rw c.targets at h.1).0

module _ {F : Type 0} (m : Model F) where
  open m use {State, apply}

  pub effect-IsSingle :
      (k : GateKind) (g : Gate F) (c : IsSingle k g) (s : State)
      → effect m (operator g) s ≡ apply (unitary_as k g) [] (c.qubit ∷ []) s
  unfolding effect
  effect-IsSingle k g c s = cc (c.kind, c.controls, c.targets)

  pub effect-create_from :
      (t k : GateKind) (g : Gate F) (c : IsSingle k g) (s : State)
      → effect m (create_from t g) s ≡ apply (unitary_as t g) [] (c.qubit ∷ []) s
  unfolding create_from
  effect-create_from t k g c s =
      effect-IsSingle t (record g { kind = t })
        (record { kind = refl; qubit = c.qubit; controls = c.controls; targets = c.targets }) s

module _ {F : Type 0} (m : Model F) (r : ℕ) (before : List (Op F)) (prev : Found F) where
  open m use {State, apply}

  module _ (i : _) (found : Splits before i prev) (placed : All (IsPlaced r) before) where
    IsPlaced-parts :
        All (IsPlaced r) prev.between × All (IsPlaced r) (operator prev.gate ∷ prev.before)
    IsPlaced-parts =
        All-split (IsPlaced r) prev.between (operator prev.gate ∷ prev.before)
          (subst (All (IsPlaced r)) found.parts placed)

    pub prev-IsPlaced : IsPlaced r (operator prev.gate)
    prev-IsPlaced = IsPlaced-parts.1.0

    pub between-IsPlaced : All (IsPlaced r) prev.between
    between-IsPlaced = IsPlaced-parts.0

    pub before-IsPlaced : All (IsPlaced r) prev.before
    before-IsPlaced = IsPlaced-parts.1.1

    pub rest-IsPlaced : All (IsPlaced r) (prev.between ++ prev.before)
    rest-IsPlaced =
        All-append (IsPlaced r) prev.between prev.before IsPlaced-parts.0 IsPlaced-parts.1.1

    -- The state before the current gate, with the earlier gate in its place.
    pub run_reversed_at :
        (s : State)
        → run_reversed m before s
          ≡ run_reversed m prev.between
              (effect m (operator prev.gate) (run_reversed m prev.before s))
    unfolding run_reversed
    run_reversed_at s =
        ap (λ (t : List (Op F)). run_reversed m t s) found.parts
        ∙ run_reversed-append m prev.between (operator prev.gate ∷ prev.before) s

    -- A single-qubit gate that stands just before the operations between, or just after them.
    pub pass_between :
        (q : Value) (u : Unitary F) (s : State)
        → extract_index q ≡ i
        → run_reversed m prev.between (apply u [] (q ∷ []) (run_reversed m prev.before s))
          ≡ apply u [] (q ∷ []) (run_reversed m (prev.between ++ prev.before) s)
    pass_between q u s e =
        sym (
          run_reversed_comm m r u q prev.between (run_reversed m prev.before s) IsPlaced-parts.0
            (subst (λ j. All (IsClear j) prev.between) (sym e) found.clear))
        ∙ ap (apply u [] (q ∷ [])) (sym (run_reversed-append m prev.between prev.before s))

    module _ (k₁ : GateKind) (p : IsSingle k₁ prev.gate) (q : Value) (qr : InRegister r q)
        (e : extract_index q ≡ i) where
      pub same_qubit : p.qubit ≡ q
      same_qubit =
          eq_of_index p.qubit q (IsSingle-InRegister p prev-IsPlaced) qr
            (index_of_hit i p found.hit ∙ sym e)

      -- The earlier gate stands at the end of what is before the current one.
      pub neighbour :
          (s : State)
          → run_reversed m before s
            ≡ apply
                (unitary_as k₁ prev.gate)
                []
                (q ∷ [])
                (run_reversed m (prev.between ++ prev.before) s)
      neighbour s =
          run_reversed_at s
          ∙ ap (run_reversed m prev.between) (
              effect-IsSingle m k₁ prev.gate p (run_reversed m prev.before s)
              ∙ ap (λ v. apply (unitary_as k₁ prev.gate) [] (v ∷ []) (run_reversed m prev.before s))
                  same_qubit)
          ∙ pass_between q (unitary_as k₁ prev.gate) s e
