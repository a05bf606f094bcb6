-- ===== src/Soundness/Cancel.antt =====
-- patternCancellation: what it erases, against the meaning of a kernel.
use mqss_passes_suite.Base.{
  ◌>>=◌, subst, ℕ, ==ℤ_iff, Bool-cases, ◌≡◌, inl, inr, true, List, [], ◌∷◌, ◌++◌, All, none, some,
  ok, Post, sym, arith, Bool,
}
use mqss_passes_suite.Quake.Ops.{GateKind, Value, Gate, Op, operator, x_op}
use mqss_passes_suite.Quake.Query.{
  extract_index, Found, get_previous_operation_on_target, get_indices_of_value_range,
}
use mqss_passes_suite.Passes.Patterns.{
  is_compliant, same_indices, sort_descending, equal, settle, cancels, cancel_found,
  pattern_cancellation,
}
use mqss_passes_suite.Passes.Transforms.{cancellation_double_cx}
use mqss_passes_suite.Semantics.Model.{Model, Unitary, unitary, pauli_x}
use mqss_passes_suite.Semantics.Run.{run_reversed, run_reversed-append}
use mqss_passes_suite.Semantics.Laws.{on, cx_cx}
use mqss_passes_suite.Soundness.Shape.{
  IsPlaced, IsControlled, is_compliant-IsSingle, is_compliant-IsControlled, eq_of_index,
}
use mqss_passes_suite.Soundness.Search.{
  IsNearest, IsClear, Splits, previous-IsNearest, run_reversed_comm_controlled,
}
use mqss_passes_suite.Soundness.Walk.{Refines, Keeps, unchanged-Refines}
use mqss_passes_suite.Soundness.Pair.{
  rest-IsPlaced, prev-IsPlaced, between-IsPlaced, run_reversed_at,
}
use mqss_passes_suite.Soundness.Control.{
  control-InRegister, target-InRegister, control-ne-target, effect-IsControlled,
}
use mqss_passes_suite.Soundness.Callback.{BodyKeeps, pair_Refines, first_of_one}

cancels-is_compliant :
    {F : Type 0} (k : GateKind) (n : ℕ) (g prev : Gate F)
    → cancels k n 1 g prev ≡ true
    → is_compliant k n 1 prev ≡ true
unfolding cancels
cancels-is_compliant k n g prev h = ground arith

cancels-controls :
    {F : Type 0} (g prev : Gate F)
    → cancels x_op 1 1 g prev ≡ true
    → same_indices g.controls prev.controls ≡ true
unfolding cancels
cancels-controls g prev h = ground arith

cancels-targets :
    {F : Type 0} (g prev : Gate F)
    → cancels x_op 1 1 g prev ≡ true
    → same_indices g.targets prev.targets ≡ true
unfolding cancels
cancels-targets g prev h = ground arith

-- A plain gate and its equal before it, of a class that is its own inverse.
module _ {F : Type 0} (m : Model F) (r : ℕ) (k : GateKind) where
  abbrev pub SelfInverse : Type 0
  SelfInverse =
      (a b : Bool) (ps qs : _) (q : Value) (s : m.State)
      → on m (unitary k a ps) q (on m (unitary k b qs) q s) ≡ s

  module _ (law : SelfInverse) where
    cancel_found-BodyKeeps :
        BodyKeeps m r ⊥ k (λ before g o. ok (settle g (cancel_found k 0 1 before g o)))
    unfolding cancel_found settle
    cancel_found-BodyKeeps before g c p h none near = unchanged-Refines m r before g p h
    cancel_found-BodyKeeps before g c p h (some prev) near =
        elim (Bool-cases (cancels k 0 1 g prev.gate)) [
          | inl all ↦ rw all (
              pair_Refines m r before g prev p h k k c near
                (is_compliant-IsSingle k prev.gate (cancels-is_compliant k 0 g prev.gate all)) [] tt
                (unfold run_reversed in
                  λ x.
                    sym
                      (law g.is_adj prev.gate.is_adj g.parameters prev.gate.parameters c.qubit x)))
          | inr other ↦ rw other (unchanged-Refines m r before g p h)
        ]

    -- One call of the template for the plain gates of the class.
    pub plain_cancellation-Keeps :
        Keeps m r ⊥
          λ before g. pattern_cancellation k k 0 1 0 1 before g >>= λ left. ok (settle g left)
    unfolding pattern_cancellation
    plain_cancellation-Keeps before g p h = elim (Bool-cases (is_compliant k 0 1 g)) [
      | inl fits ↦
          let c = is_compliant-IsSingle k g fits in
          rw (fits, first_of_one c.targets)
            (cancel_found-BodyKeeps before g c p h (get_previous_operation_on_target before c.qubit)
              (previous-IsNearest before c.qubit))
      | inr other ↦ rw other (unfold settle in unchanged-Refines m r before g p h)
    ]

-- The same for two controlled X gates, if what stands between them leaves the control alone.
module _ {F : Type 0} (m : Model F) (r : ℕ) (before : List (Op F)) (g : Gate F)
    (c : IsControlled x_op g) (p : All (IsPlaced r) before) (h : IsPlaced r (operator g))
    (prev : Found F) (d : IsControlled x_op prev.gate)
    (found : Splits before (extract_index c.target) prev) (same_control : d.control ≡ c.control)
    (same_target : d.target ≡ c.target)
    (free : All (IsClear (extract_index c.control)) prev.between) where
  pub cx_pair_Refines : Refines m r before (operator g) (prev.between ++ prev.before)
  unfolding unitary
  cx_pair_Refines = (
    rest-IsPlaced m r before prev _ found p,
    λ s.
        let x = run_reversed m prev.before s in
        let u : Unitary F = pauli_x in
        cc (
          effect-IsControlled m x_op g c (run_reversed m before s),
          run_reversed_at m r before prev _ found p s,
          effect-IsControlled m x_op prev.gate d x,
          same_control,
          same_target,
          run_reversed_comm_controlled m r u c.control c.target prev.between
              (m.apply u (c.control ∷ []) (c.target ∷ []) x)
              (between-IsPlaced m r before prev _ found p) free found.clear,
          cx_cx m c.control c.target (control-ne-target c h.2) x,
          run_reversed-append m prev.between prev.before s,
        ),
  )

same_index_of_one :
    (v w : Value) (vs ws : List Value)
    → vs ≡ v ∷ []
    → ws ≡ w ∷ []
    → same_indices vs ws ≡ true
    → extract_index v ≡ extract_index w
unfolding same_indices sort_descending equal get_indices_of_value_range
same_index_of_one v w vs ws e f h =
    (==ℤ_iff (extract_index v) (extract_index w)).0 (ground (arith, rw (e, f) at h))

module _ {F : Type 0} (m : Model F) (r : ℕ) (before : List (Op F)) (g : Gate F)
    (c : IsControlled x_op g) (p : All (IsPlaced r) before) (h : IsPlaced r (operator g))
    (prev : Found F) where
  settled-Refines :
      Splits before (extract_index c.target) prev
      → All (IsClear (extract_index c.control)) prev.between
      → Refines m r before (operator g) (settle g (cancel_found x_op 1 1 before g (some prev)))
  unfolding cancel_found settle
  settled-Refines found free = elim (Bool-cases (cancels x_op 1 1 g prev.gate)) [
    | inl all ↦
        let d =
          is_compliant-IsControlled x_op prev.gate (cancels-is_compliant x_op 1 g prev.gate all) in
        let hp = prev-IsPlaced m r before prev _ found p in
        rw all (
          cx_pair_Refines m r before g c p h prev d found
            (sym (
              eq_of_index c.control d.control (control-InRegister c h) (control-InRegister d hp) (
                same_index_of_one c.control d.control g.controls prev.gate.controls c.controls
                  d.controls (cancels-controls g prev.gate all))))
            (sym (
              eq_of_index c.target d.target (target-InRegister c h) (target-InRegister d hp) (
                same_index_of_one c.target d.target g.targets prev.gate.targets c.targets d.targets
                  (cancels-targets g prev.gate all))))
            free)
    | inr other ↦ rw other (unchanged-Refines m r before g p h)
  ]

  -- A call of CancellationDoubleCx returns, and keeps the meaning of the kernel up to the current
  -- controlled X, if no gate between that gate and the nearest one before it on its target is on
  -- its control. The operations are on one register, with no measurement among them.
  pub cancellation_double_cx_sound :
      is_compliant x_op 1 1 g ≡ true
      → get_previous_operation_on_target before c.target ≡ some prev
      → All (IsClear (extract_index c.control)) prev.between
      → Post ⊥ (Refines m r before (operator g)) (cancellation_double_cx before g)
  unfolding cancellation_double_cx pattern_cancellation
  cancellation_double_cx_sound fits nearest free =
      rw (fits, first_of_one c.targets, nearest)
        (settled-Refines
          (subst (IsNearest before (extract_index c.target)) nearest
            (previous-IsNearest before c.target))
          free)
