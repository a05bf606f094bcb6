-- ===== src/Soundness/Commute.antt =====
-- CommuteZCx, CommuteRxCx and CommuteXCx against the meaning of a kernel. What they move is the
-- single-qubit gate.
use mqss_passes_suite.Base.{
  ℕ, ◌==ℤ◌, ==ℤ_iff, Bool-cases, ◌≡◌, ◌≢◌, refl, inl, inr, true, false, List, [], ◌∷◌, ◌++◌, All,
  Option, none, some, Post, ap, ◌∙◌, sym, Bool,
}
use mqss_passes_suite.Quake.Ops.{GateKind, Value, Gate, Op, operator, x_op, z_op, rx_op, Parameter}
use mqss_passes_suite.Quake.Query.{extract_index, Found, get_previous_operation_on_target}
use mqss_passes_suite.Passes.Patterns.{is_compliant, create_from, commute_found, commute_operation}
use mqss_passes_suite.Passes.Transforms.{
  move_behind, commute_z_c_not_found, commute_z_c_not, commute_rx_cx, commute_x_cx,
}
use mqss_passes_suite.Semantics.Model.{Model, unitary}
use mqss_passes_suite.Semantics.Run.{effect, run_reversed}
use mqss_passes_suite.Semantics.Laws.{on, controlled, cx_x, cx_z}
use mqss_passes_suite.Soundness.Shape.{
  InRegister, IsPlaced, IsSingle, IsControlled, is_compliant-IsSingle, is_compliant-IsControlled,
}
use mqss_passes_suite.Soundness.Search.{IsNearest, Splits, previous-IsNearest}
use mqss_passes_suite.Soundness.Walk.{Refines, Keeps, unchanged-Refines}
use mqss_passes_suite.Soundness.Pair.{
  neighbour, rest-IsPlaced, prev-IsPlaced, same_qubit, effect-create_from,
}
use mqss_passes_suite.Soundness.Control.{
  control-InRegister, target-InRegister, control-ne-target, effect-IsControlled,
}
use mqss_passes_suite.Soundness.Callback.{first_of_one}

module _ {F : Type 0} (m : Model F) (r : ℕ) (k : GateKind) where
  -- A gate of class `k` on `q` passes the controlled X of `c` and `t`.
  abbrev Passes : Value → Value → Value → Type 0
  Passes q c t =
      (adj : Bool) (ps : List (Parameter F)) (s : m.State)
      → controlled m (unitary x_op false []) c t (on m (unitary k adj ps) q s)
        ≡ on m (unitary k adj ps) q (controlled m (unitary x_op false []) c t s)

  module _ (before : List (Op F)) (g : Gate F) (c : IsControlled x_op g)
      (p : All (IsPlaced r) before) (h : IsPlaced r (operator g)) (q : Value) (qr : InRegister r q)
      (prev : Found F) (found : Splits before (extract_index q) prev)
      (d : IsSingle k prev.gate) where
    moved-Refines :
        Passes q c.control c.target
        → (g' : Gate F) → g' ≡ g
        → Refines m r before
            (operator g)
            (create_from k prev.gate ∷ operator g' ∷ (prev.between ++ prev.before))
    unfolding run_reversed create_from unitary
    moved-Refines law g' same = rw same (
      (prev-IsPlaced m r before prev _ found p, (h, rest-IsPlaced m r before prev _ found p)),
      λ s.
          let x = run_reversed m (prev.between ++ prev.before) s in
          effect-create_from m k k prev.gate d (effect m (operator g) x)
          ∙ cc (
            same_qubit m r before prev _ found p k d q qr refl,
            effect-IsControlled m x_op g c x,
            effect-IsControlled m x_op g c (run_reversed m before s),
            neighbour m r before prev _ found p k d q qr refl s,
            law prev.gate.is_adj prev.gate.parameters x,
          ),
    )

    -- The target of the earlier gate, as `targets[0]` reads it.
    same_index : (v : Value) → q ≡ v → (extract_index d.qubit ==ℤ extract_index v) ≡ true
    same_index v e =
        (==ℤ_iff _ _).1 (ap extract_index (same_qubit m r before prev _ found p k d q qr refl ∙ e))

  module _ (law : (c t : Value) → c ≢ t → Passes t c t) where
    commute_found-Keeps :
        (before : List (Op F)) (g : Gate F) (c : IsControlled x_op g)
        → All (IsPlaced r) before
        → IsPlaced r (operator g)
        → (o : Option (Found F)) → IsNearest before (extract_index c.target) o
        → Post ⊥ (Refines m r before (operator g)) (commute_found k x_op 0 1 before g o)
    unfolding commute_found
    commute_found-Keeps before g c p h none near = unchanged-Refines m r before g p h
    commute_found-Keeps before g c p h (some prev) near =
        elim (Bool-cases (is_compliant k 0 1 prev.gate)) [
          | inl fits ↦
              let d = is_compliant-IsSingle k prev.gate fits in
              let t = target-InRegister c h in
              rw
                (
                  fits,
                  first_of_one d.targets,
                  first_of_one c.targets,
                  same_index before g c p h c.target t prev near d c.target refl,
                )
                (moved-Refines before g c p h c.target t prev near d
                  (law c.control c.target (control-ne-target c h.2)) (record g { kind = x_op })
                  (ap (λ j. record g { kind = j }) (sym c.kind)))
          | inr other ↦ rw other (unchanged-Refines m r before g p h)
        ]

    pub commute_operation-Keeps : Keeps m r ⊥ (commute_operation k x_op 0 1 1 1)
    unfolding commute_operation
    commute_operation-Keeps before g p h = elim (Bool-cases (is_compliant x_op 1 1 g)) [
      | inl fits ↦
          let c = is_compliant-IsControlled x_op g fits in
          rw (fits, first_of_one c.targets)
            (commute_found-Keeps before g c p h (get_previous_operation_on_target before c.target)
              (previous-IsNearest before c.target))
      | inr other ↦ rw other (unchanged-Refines m r before g p h)
    ]

module _ {F : Type 0} (m : Model F) (r : ℕ) where
  pub commute_x_cx-Keeps : Keeps m r ⊥ commute_x_cx
  unfolding commute_x_cx unitary
  commute_x_cx-Keeps = commute_operation-Keeps m r x_op (λ c t ne adj ps s. cx_x m c t ne s)

  pub commute_rx_cx-Keeps : Keeps m r ⊥ commute_rx_cx
  unfolding commute_rx_cx unitary
  commute_rx_cx-Keeps =
      commute_operation-Keeps m r rx_op (λ c t ne adj ps s. m.cx_rx adj ps c t s ne)

  commute_z_c_not_found-Keeps :
      (before : List (Op F)) (g : Gate F) (c : IsControlled x_op g)
      → All (IsPlaced r) before
      → IsPlaced r (operator g)
      → (o : Option (Found F)) → IsNearest before (extract_index c.control) o
      → Post ⊥ (Refines m r before (operator g)) (commute_z_c_not_found before g o)
  unfolding commute_z_c_not_found move_behind unitary
  commute_z_c_not_found-Keeps before g c p h none near = unchanged-Refines m r before g p h
  commute_z_c_not_found-Keeps before g c p h (some prev) near =
      elim (Bool-cases (is_compliant z_op 0 1 prev.gate)) [
        | inl fits ↦
            let d = is_compliant-IsSingle z_op prev.gate fits in
            let q = control-InRegister c h in
            rw
              (
                fits,
                first_of_one d.targets,
                first_of_one c.controls,
                same_index m r z_op before g c p h c.control q prev near d c.control refl,
              )
              (moved-Refines m r z_op before g c p h c.control q prev near d
                (λ adj ps s. cx_z m c.control c.target (control-ne-target c h.2) s) g refl)
        | inr other ↦ rw other (unchanged-Refines m r before g p h)
      ]

  pub commute_z_c_not-Keeps : Keeps m r ⊥ commute_z_c_not
  unfolding commute_z_c_not
  commute_z_c_not-Keeps before g p h = elim (Bool-cases (is_compliant x_op 1 1 g)) [
    | inl fits ↦
        let c = is_compliant-IsControlled x_op g fits in
        rw (fits, first_of_one c.controls)
          (commute_z_c_not_found-Keeps before g c p h
            (get_previous_operation_on_target before c.control)
            (previous-IsNearest before c.control))
    | inr other ↦ rw other (unchanged-Refines m r before g p h)
  ]
