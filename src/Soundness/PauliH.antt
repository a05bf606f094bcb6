-- ===== src/Soundness/PauliH.antt =====
-- SwitchPauliH, SAdjToS and SToSAdj against the meaning of a kernel.
use mqss_passes_suite.Base.{
  ℕ, Bool-cases, ◌≡◌, inl, inr, true, not, ◌&&◌, if◌then◌else◌, ◌==◌, List, [], ◌∷◌, All, Option,
  none, some, length, ok, ◌∙◌, arith, Bool,
}
use mqss_passes_suite.Quake.Ops.{GateKind, Gate, Op, operator, isa, x_op, y_op, z_op, h_op, s_op}
use mqss_passes_suite.Quake.Query.{extract_index, Found}
use mqss_passes_suite.Passes.Patterns.{is_compliant, create_from}
use mqss_passes_suite.Passes.Transforms.{
  move_behind, switched_pauli, switch_pauli_to, switch_pauli_found, switch_pauli_h_operation,
}
use mqss_passes_suite.Passes.Decompositions.{join_found, join_z}
use mqss_passes_suite.Semantics.Model.{Model}
use mqss_passes_suite.Semantics.Run.{effect, run_reversed}
use mqss_passes_suite.Soundness.Shape.{IsPlaced, IsSingle, is_compliant-IsSingle}
use mqss_passes_suite.Soundness.Search.{Splits}
use mqss_passes_suite.Soundness.Walk.{Refines, Keeps, unchanged-Refines}
use mqss_passes_suite.Soundness.Pair.{
  unitary_as, effect-create_from, effect-IsSingle, prev-IsPlaced,
}
use mqss_passes_suite.Soundness.Callback.{BodyKeeps, search_Keeps, pair_Refines, prev_qubit}
use mqss_passes_suite.Soundness.Switch.{Switches, x_h-Switches, y_h-Switches, z_h-Switches}

module _ {F : Type 0} (m : Model F) (r : ℕ) where
  -- The gate that goes behind is the one that the switch asks for.
  abbrev IsSwitched : Gate F → Option GateKind → Type 0
  IsSwitched g none = Unit
  IsSwitched g (some t) = (k : GateKind) × (isa k g ≡ true) × Switches m k h_op h_op t

  switched_pauli-IsSwitched : (g : Gate F) → IsSwitched g (switched_pauli g)
  unfolding switched_pauli
  switched_pauli-IsSwitched g = elim (Bool-cases (isa x_op g)) [
    | inl x ↦ rw x (x_op, x, x_h-Switches m)
    | inr not_x ↦ elim (Bool-cases (isa y_op g)) [
      | inl y ↦ rw (not_x, y) (y_op, y, y_h-Switches m)
      | inr not_y ↦ elim (Bool-cases (isa z_op g)) [
        | inl z ↦ rw (not_x, not_y, z) (z_op, z, z_h-Switches m)
        | inr not_z ↦ rw (not_x, not_y, not_z) tt
      ]
    ]
  ]

  move_behind-Refines :
      (k t : GateKind) (before : List (Op F)) (g : Gate F) (c : IsSingle h_op g)
      → All (IsPlaced r) before
      → IsPlaced r (operator g)
      → (prev : Found F) → Splits before (extract_index c.qubit) prev
      → IsSingle k prev.gate
      → Switches m k h_op h_op t
      → Refines m r before (operator g) (move_behind t g prev)
  unfolding run_reversed move_behind
  move_behind-Refines k t before g c p h prev found d law =
      pair_Refines m r before g prev p h k h_op c found d
        (create_from t prev.gate ∷ operator g ∷ [])
        (prev-IsPlaced m r before prev _ found p, (h, tt))
        λ x.
          effect-create_from m t k prev.gate d (effect m (operator g) x)
          ∙ cc (
            prev_qubit m r before g prev p h k h_op c found d,
            effect-IsSingle m h_op g c x,
            law g.is_adj prev.gate.is_adj g.parameters prev.gate.parameters c.qubit x,
          )

  switch_pauli_to-Refines :
      (before : List (Op F)) (g : Gate F) (c : IsSingle h_op g)
      → All (IsPlaced r) before
      → IsPlaced r (operator g)
      → (prev : Found F) → Splits before (extract_index c.qubit) prev
      → (o : Option GateKind) → IsSwitched prev.gate o
      → Refines m r before (operator g) (switch_pauli_to before g prev o)
  unfolding switch_pauli_to is_compliant
  switch_pauli_to-Refines before g c p h prev found none w = unchanged-Refines m r before g p h
  switch_pauli_to-Refines before g c p h prev found (some t) (k, same, law) =
      elim (Bool-cases (length prev.gate.controls == 0 && length prev.gate.targets == 1)) [
        | inl one ↦ rw one (
            move_behind-Refines k t before g c p h prev found
              (is_compliant-IsSingle k prev.gate (rw (same, one))) law)
        | inr other ↦ rw other (unchanged-Refines m r before g p h)
      ]

  switch_pauli_found-BodyKeeps :
      BodyKeeps m r ⊥ h_op (λ before g o. ok (switch_pauli_found before g o))
  unfolding switch_pauli_found
  switch_pauli_found-BodyKeeps before g c p h none near = unchanged-Refines m r before g p h
  switch_pauli_found-BodyKeeps before g c p h (some prev) near =
      switch_pauli_to-Refines before g c p h prev near (switched_pauli prev.gate)
        (switched_pauli-IsSwitched prev.gate)

  pub switch_pauli_h-Keeps : Keeps m r ⊥ switch_pauli_h_operation
  unfolding switch_pauli_h_operation
  switch_pauli_h-Keeps =
      search_Keeps m r ⊥ h_op (λ before g o. ok (switch_pauli_found before g o))
        switch_pauli_found-BodyKeeps

  joined_effect :
      (adj : Bool) (g g₁ : Gate F) (c : IsSingle z_op g) (d : IsSingle s_op g₁)
      → d.qubit ≡ c.qubit
      → g₁.is_adj ≡ adj
      → (x : m.State)
      → run_reversed m (operator (record g₁ { kind = s_op; is_adj = not adj }) ∷ []) x
        ≡ m.apply
            (unitary_as z_op g)
            []
            (c.qubit ∷ [])
            (m.apply (unitary_as s_op g₁) [] (c.qubit ∷ []) x)
  unfolding run_reversed effect
  joined_effect adj g g₁ c d e a x = cc (d.controls, d.targets, e, a, m.z_s adj c.qubit x)

  sought : (adj b : Bool) → (if adj then b else not b) ≡ true → b ≡ adj
  sought adj b e = ground arith

  -- Z joins an S gate, adjoint or not.
  join_found-BodyKeeps :
      (adj : Bool) → BodyKeeps m r ⊥ z_op (λ before g o. ok (join_found adj before g o))
  unfolding join_found
  join_found-BodyKeeps adj before g c p h none near = unchanged-Refines m r before g p h
  join_found-BodyKeeps adj before g c p h (some prev) near =
      elim (Bool-cases (
        is_compliant s_op 0 1 prev.gate
        && (if adj then prev.gate.is_adj else not prev.gate.is_adj))) [
          | inl both ↦
              let d = is_compliant-IsSingle s_op prev.gate (ground arith) in
              rw both (
                pair_Refines m r before g prev p h s_op z_op c near d
                  (operator (record prev.gate { kind = s_op; is_adj = not adj }) ∷ [])
                  (prev-IsPlaced m r before prev _ near p, tt)
                  (joined_effect adj g prev.gate c d
                    (prev_qubit m r before g prev p h s_op z_op c near d)
                    (sought adj prev.gate.is_adj (ground arith))))
          | inr other ↦ rw other (unchanged-Refines m r before g p h)
        ]

  pub join_z-Keeps : (adj : Bool) → Keeps m r ⊥ (join_z adj)
  unfolding join_z
  join_z-Keeps adj =
      search_Keeps m r ⊥ z_op (λ before g o. ok (join_found adj before g o))
        (join_found-BodyKeeps adj)
