-- ===== src/Soundness/NullHandle.antt =====
-- Where the switch passes, and HXHToZ and HZHToX, read a gate through a null handle.
use mqss_passes_suite.Base.{
  Bool-cases, Option-cases, ◌≡◌, ◌≢◌, ◌↔◌, inl, inr, true, false, List, [], ◌∷◌, Option, none, some,
  fault, null_gate, arith,
}
use mqss_passes_suite.Quake.Ops.{GateKind, Value, Gate, Op, isa, h_op}
use mqss_passes_suite.Quake.Query.{Found, get_previous_operation_on_target}
use mqss_passes_suite.Passes.Patterns.{is_compliant, switch_found, pattern_switch}
use mqss_passes_suite.Passes.Transforms.{replace_third, replace_second, replace_conjugated}
use mqss_passes_suite.Soundness.Shape.{is_compliant-IsSingle}
use mqss_passes_suite.Soundness.Callback.{first_of_one}

module _ {F : Type 0} where
  -- The current gate is a plain `k₂` whose nearest gate before it on its qubit is no `k₁`.
  pub record WrongNeighbour (k₁ k₂ : GateKind) (before : List (Op F)) (g : Gate F) : Type 0 where
    pub current : is_compliant k₂ 0 1 g ≡ true
    pub qubit : Value
    pub target : g.targets ≡ qubit ∷ []
    pub prev : Found F
    pub nearest : get_previous_operation_on_target before qubit ≡ some prev
    pub other : isa k₁ prev.gate ≡ false

  module _ (k₁ k₂ k₃ k₄ : GateKind) (before : List (Op F)) (g : Gate F) where
    switch_found-none :
        (o : Option (Found F)) → o ≡ none → switch_found k₁ k₃ k₄ before g o ≢ fault null_gate
    unfolding switch_found
    switch_found-none o e = rw e (λ h. cc)

    switch_found-some :
        (o : Option (Found F)) (prev : Found F)
        → o ≡ some prev
        → switch_found k₁ k₃ k₄ before g o ≡ fault null_gate
        → isa k₁ prev.gate ≡ false
    unfolding switch_found
    switch_found-some o prev e h = elim (Bool-cases (isa k₁ prev.gate)) [
      | inl same ↦ absurd (ground (arith, h, e, same))
      | inr other ↦ other
    ]

    null_from :
        pattern_switch k₁ k₂ k₃ k₄ before g ≡ fault null_gate → WrongNeighbour k₁ k₂ before g
    unfolding pattern_switch
    null_from h = elim (Bool-cases (is_compliant k₂ 0 1 g)) [
      | inl fits ↦
          let c = is_compliant-IsSingle k₂ g fits in
          let h' : switch_found k₁ k₃ k₄ before g (get_previous_operation_on_target before c.qubit)
              ≡ fault null_gate =
            rw (fits, first_of_one c.targets) at h in
          elim (Option-cases (get_previous_operation_on_target before c.qubit)) [
            | inl e ↦ absurd (switch_found-none _ e h')
            | inr (prev, e) ↦ record {
              current = fits;
              qubit = c.qubit;
              target = c.targets;
              prev = prev;
              nearest = e;
              other = switch_found-some _ prev e h';
            }
          ]
      | inr other ↦ absurd (ground (arith, h, other))
    ]

    null_to : WrongNeighbour k₁ k₂ before g → pattern_switch k₁ k₂ k₃ k₄ before g ≡ fault null_gate
    unfolding pattern_switch switch_found
    null_to w = rw (w.current, first_of_one w.target, w.nearest, w.other)

    -- patternSwitch reads a null handle exactly where the current gate is a plain gate of its
    -- second class and the nearest gate before it on its qubit is not of its first class.
    pub pattern_switch-null :
        (pattern_switch k₁ k₂ k₃ k₄ before g ≡ fault null_gate) ↔ WrongNeighbour k₁ k₂ before g
    pattern_switch-null = (null_from, null_to)

  -- The current gate is a plain Hadamard gate, the nearest gate before it on its qubit is a plain
  -- `k`, and the nearest before that is no Hadamard gate.
  pub record WrongThird (k : GateKind) (before : List (Op F)) (g : Gate F) : Type 0 where
    pub current : is_compliant h_op 0 1 g ≡ true
    pub qubit : Value
    pub target : g.targets ≡ qubit ∷ []
    pub prev : Found F
    pub nearest : get_previous_operation_on_target before qubit ≡ some prev
    pub middle : is_compliant k 0 1 prev.gate ≡ true
    pub prev_prev : Found F
    pub second : get_previous_operation_on_target prev.before qubit ≡ some prev_prev
    pub other : isa h_op prev_prev.gate ≡ false

  module _ (k new : GateKind) (before : List (Op F)) (g : Gate F) where
    replace_third-none :
        (prev : Found F) (o : Option (Found F))
        → o ≡ none
        → replace_third new before g prev o ≢ fault null_gate
    unfolding replace_third
    replace_third-none prev o e = rw e (λ h. cc)

    replace_third-some :
        (prev : Found F) (o : Option (Found F)) (pp : Found F)
        → o ≡ some pp
        → replace_third new before g prev o ≡ fault null_gate
        → isa h_op pp.gate ≡ false
    unfolding replace_third
    replace_third-some prev o pp e h = elim (Bool-cases (isa h_op pp.gate)) [
      | inl same ↦ absurd (ground (arith, h, e, same))
      | inr other ↦ other
    ]

    replace_second-none :
        (o : Option (Found F)) → o ≡ none → replace_second k new before g o ≢ fault null_gate
    unfolding replace_second
    replace_second-none o e = rw e (λ h. cc)

    replace_second-some :
        (q : Value) (t : g.targets ≡ q ∷ []) (o : Option (Found F)) (prev : Found F)
        → o ≡ some prev
        → replace_second k new before g o ≡ fault null_gate
        → (is_compliant k 0 1 prev.gate ≡ true)
          × (replace_third new before g prev (get_previous_operation_on_target prev.before q)
              ≡ fault null_gate)
    unfolding replace_second
    replace_second-some q t o prev e h = elim (Bool-cases (is_compliant k 0 1 prev.gate)) [
      | inl fits ↦ (fits, rw (e, fits, first_of_one t) at h)
      | inr other ↦ absurd (ground (arith, h, e, other))
    ]

    third_from : replace_conjugated k new before g ≡ fault null_gate → WrongThird k before g
    unfolding replace_conjugated
    third_from h = elim (Bool-cases (is_compliant h_op 0 1 g)) [
      | inr other ↦ absurd (ground (arith, h, other))
      | inl fits ↦
          let c = is_compliant-IsSingle h_op g fits in
          let h' : replace_second k new before g (get_previous_operation_on_target before c.qubit)
              ≡ fault null_gate =
            rw (fits, first_of_one c.targets) at h in
          elim (Option-cases (get_previous_operation_on_target before c.qubit)) [
            | inl e ↦ absurd (replace_second-none _ e h')
            | inr (prev, e) ↦
                let (mid, h'') = replace_second-some c.qubit c.targets _ prev e h' in
                elim (Option-cases (get_previous_operation_on_target prev.before c.qubit)) [
                  | inl e' ↦ absurd (replace_third-none prev _ e' h'')
                  | inr (pp, e') ↦ record {
                    current = fits;
                    qubit = c.qubit;
                    target = c.targets;
                    prev = prev;
                    nearest = e;
                    middle = mid;
                    prev_prev = pp;
                    second = e';
                    other = replace_third-some prev _ pp e' h'';
                  }
                ]
          ]
    ]

    third_to : WrongThird k before g → replace_conjugated k new before g ≡ fault null_gate
    unfolding replace_conjugated replace_second replace_third
    third_to w = rw (
      w.current,
      first_of_one w.target,
      w.nearest,
      w.middle,
      first_of_one w.target,
      w.second,
      w.other,
    )

    -- HXHToZ and HZHToX read a null handle exactly where the current gate is a plain Hadamard
    -- gate, the nearest gate before it on its qubit is a plain gate of the middle class, and the
    -- nearest one before that is no Hadamard gate.
    pub replace_conjugated-null :
        (replace_conjugated k new before g ≡ fault null_gate) ↔ WrongThird k before g
    replace_conjugated-null = (third_from, third_to)
