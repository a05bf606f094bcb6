-- ===== src/Soundness/Switch.antt =====
-- patternSwitch against the meaning of a kernel, for each of the passes that call it.
use mqss_passes_suite.Base.{
  ℕ, Bool-cases, ◌≡◌, inl, inr, ◌&&◌, ◌==◌, List, [], ◌∷◌, ◌++◌, All, none, some, length, ◌∙◌, sym,
  Bool,
}
use mqss_passes_suite.Quake.Ops.{
  GateKind, Value, Parameter, Gate, Op, operator, isa, x_op, y_op, z_op, h_op,
}
use mqss_passes_suite.Quake.Query.{extract_index, Found}
use mqss_passes_suite.Passes.Patterns.{is_compliant, create_from, switch_found, pattern_switch}
use mqss_passes_suite.Semantics.Laws.{x_h, z_h}
use mqss_passes_suite.Semantics.Model.{Model, unitary}
use mqss_passes_suite.Semantics.Run.{effect, run_reversed}
use mqss_passes_suite.Soundness.Shape.{IsPlaced, IsSingle, is_compliant-IsSingle}
use mqss_passes_suite.Soundness.Search.{Splits}
use mqss_passes_suite.Soundness.Walk.{Refines, Keeps, unchanged-Refines}
use mqss_passes_suite.Soundness.Pair.{effect-create_from, prev-IsPlaced}
use mqss_passes_suite.Soundness.Callback.{BodyKeeps, search_Keeps, pair_Refines, prev_qubit}

module _ {F : Type 0} (m : Model F) where
  open m use {State, apply}

  -- `k₁` and then `k₂` on a qubit is `k₃` and then `k₄`, whatever the flags and parameters say.
  abbrev pub Switches : GateKind → GateKind → GateKind → GateKind → Type 0
  Switches k₁ k₂ k₃ k₄ =
      (a b : Bool) (ps qs : List (Parameter F)) (q : Value) (s : State)
      → apply (unitary k₂ a ps) [] (q ∷ []) (apply (unitary k₁ b qs) [] (q ∷ []) s)
        ≡ apply (unitary k₄ b qs) [] (q ∷ []) (apply (unitary k₃ a ps) [] (q ∷ []) s)

module _ {F : Type 0} (m : Model F) (r : ℕ) (k₁ k₂ k₃ k₄ : GateKind)
    (law : Switches m k₁ k₂ k₃ k₄) where
  open m use {State, apply}

  switched-Refines :
      (before : List (Op F)) (g : Gate F) (c : IsSingle k₂ g)
      → All (IsPlaced r) before
      → IsPlaced r (operator g)
      → (prev : Found F) → Splits before (extract_index c.qubit) prev
      → IsSingle k₁ prev.gate
      → Refines m r before
          (operator g)
          (create_from k₄ prev.gate ∷ create_from k₃ g ∷ (prev.between ++ prev.before))
  unfolding run_reversed create_from
  switched-Refines before g c p h prev found d =
      pair_Refines m r before g prev p h k₁ k₂ c found d
        (create_from k₄ prev.gate ∷ create_from k₃ g ∷ [])
        (prev-IsPlaced m r before prev _ found p, (h, tt))
        λ x.
          effect-create_from m k₄ k₁ prev.gate d (effect m (create_from k₃ g) x)
          ∙ cc (
            prev_qubit m r before g prev p h k₁ k₂ c found d,
            effect-create_from m k₃ k₂ g c x,
            law g.is_adj prev.gate.is_adj g.parameters prev.gate.parameters c.qubit x,
          )

  switch_found-BodyKeeps : BodyKeeps m r (Unit {0}) k₂ (switch_found k₁ k₃ k₄)
  unfolding switch_found is_compliant
  switch_found-BodyKeeps before g c p h none near = unchanged-Refines m r before g p h
  switch_found-BodyKeeps before g c p h (some prev) near = elim (Bool-cases (isa k₁ prev.gate)) [
    | inl same ↦
        elim (Bool-cases (length prev.gate.controls == 0 && length prev.gate.targets == 1)) [
          | inl one ↦
              rw (same, one)
                (switched-Refines before g c p h prev near
                  (is_compliant-IsSingle k₁ prev.gate (rw (same, one))))
          | inr other ↦ rw (same, other) (unchanged-Refines m r before g p h)
        ]
    | inr other ↦ rw other tt
  ]

  -- A switch keeps the meaning wherever it does not read a null handle.
  pub pattern_switch-Keeps : Keeps m r (Unit {0}) (pattern_switch k₁ k₂ k₃ k₄)
  unfolding pattern_switch
  pattern_switch-Keeps =
      search_Keeps m r (Unit {0}) k₂ (switch_found k₁ k₃ k₄) switch_found-BodyKeeps

-- The three switches of a Pauli gate before a Hadamard gate.
module _ {F : Type 0} (m : Model F) where
  pub x_h-Switches : Switches m x_op h_op h_op z_op
  unfolding unitary
  x_h-Switches a b ps qs q s = sym (z_h m q s)

  pub y_h-Switches : Switches m y_op h_op h_op y_op
  unfolding unitary
  y_h-Switches a b ps qs q s = m.h_y q s

  pub z_h-Switches : Switches m z_op h_op h_op x_op
  unfolding unitary
  z_h-Switches a b ps qs q s = sym (x_h m q s)

  -- And of a Hadamard gate before a Pauli gate.
  pub h_x-Switches : Switches m h_op x_op z_op h_op
  unfolding unitary
  h_x-Switches a b ps qs q s = x_h m q s

  pub h_y-Switches : Switches m h_op y_op y_op h_op
  unfolding unitary
  h_y-Switches a b ps qs q s = sym (m.h_y q s)

  pub h_z-Switches : Switches m h_op z_op x_op h_op
  unfolding unitary
  h_z-Switches a b ps qs q s = z_h m q s
