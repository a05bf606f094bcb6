-- ===== src/Soundness/Conjugate.antt =====
-- HXHToZ and HZHToX against the meaning of a kernel.
use mqss_passes_suite.Base.{
  ℕ, Bool-cases, ◌≡◌, refl, inl, inr, false, ◌&&◌, ◌==◌, List, [], ◌∷◌, ◌++◌, All, All-append,
  Option, none, some, length, Post, ap, ◌∙◌, Bool,
}
use mqss_passes_suite.Quake.Ops.{GateKind, Value, Gate, Op, operator, isa, x_op, z_op, h_op}
use mqss_passes_suite.Quake.Query.{extract_index, Found, get_previous_operation_on_target}
use mqss_passes_suite.Passes.Patterns.{is_compliant}
use mqss_passes_suite.Passes.Transforms.{replace_third, replace_second, replace_conjugated}
use mqss_passes_suite.Semantics.Model.{Model, unitary}
use mqss_passes_suite.Semantics.Run.{effect, run_reversed, run_reversed-append}
use mqss_passes_suite.Semantics.Laws.{on, z_h}
use mqss_passes_suite.Soundness.Shape.{IsPlaced, IsSingle, is_compliant-IsSingle}
use mqss_passes_suite.Soundness.Search.{IsNearest, Splits, previous-IsNearest, run_reversed_comm}
use mqss_passes_suite.Soundness.Walk.{Refines, Keeps, unchanged-Refines}
use mqss_passes_suite.Soundness.Pair.{
  neighbour, between-IsPlaced, before-IsPlaced, rest-IsPlaced, IsSingle-InRegister, unitary_as,
}
use mqss_passes_suite.Soundness.Callback.{BodyKeeps, search_Keeps, pair_effect, first_of_one}

module _ {F : Type 0} (m : Model F) (k new : GateKind) where
  -- A gate of class `k` between two Hadamard gates acts as the new gate.
  abbrev pub Conjugates : Type 0
  Conjugates =
      (a b c : Bool) (ps qs rs : _) (q : Value) (s : m.State)
      → on m (unitary h_op a ps) q (on m (unitary k b qs) q (on m (unitary h_op c rs) q s))
        ≡ on m (unitary new false []) q s

module _ {F : Type 0} (m : Model F) (r : ℕ) (k new : GateKind) where
  open m use {State, apply}

  -- The gate created for the pattern.
  abbrev replacement : Gate F → Gate F
  replacement g = record {
    kind = new;
    is_adj = false;
    parameters = [];
    controls = g.controls;
    targets = g.targets;
  }

  module _ (law : Conjugates m k new) (before : List (Op F)) (g : Gate F) (c : IsSingle h_op g)
      (p : All (IsPlaced r) before) (h : IsPlaced r (operator g)) (prev : Found F)
      (near : Splits before (extract_index c.qubit) prev) (d : IsSingle k prev.gate) where
    replaced-Refines :
        (prev_prev : Found F)
        → Splits prev.before (extract_index c.qubit) prev_prev
        → IsSingle h_op prev_prev.gate
        → Refines m r before
            (operator g)
            (operator (replacement g) ∷ (prev.between ++ (prev_prev.between ++ prev_prev.before)))
    unfolding run_reversed effect
    replaced-Refines pp found e =
        let pb = before-IsPlaced m r before prev _ near p in
        let pl = between-IsPlaced m r before prev _ near p in
        let rest = pp.between ++ pp.before in
        (
          (
            h,
            All-append (IsPlaced r) prev.between rest pl
                (rest-IsPlaced m r prev.before pp _ found pb),
          ),
          λ s. cc (
            c.controls,
            c.targets,
            run_reversed-append m prev.between rest s,
            run_reversed-append m prev.between prev.before s,
            pair_effect m r before g prev p h k h_op c near d s,
            neighbour m r prev.before pp _ found pb h_op e c.qubit (IsSingle-InRegister c h) refl s,
            run_reversed_comm m r (unitary_as h_op pp.gate) c.qubit prev.between
                (run_reversed m rest s) pl near.clear,
            law g.is_adj prev.gate.is_adj pp.gate.is_adj g.parameters prev.gate.parameters
                pp.gate.parameters c.qubit (run_reversed m prev.between (run_reversed m rest s)),
          ),
        )

    replace_third-Keeps :
        (o : Option (Found F))
        → IsNearest prev.before (extract_index c.qubit) o
        → Post (Unit {0}) (Refines m r before (operator g)) (replace_third new before g prev o)
    unfolding replace_third is_compliant
    replace_third-Keeps none found = unchanged-Refines m r before g p h
    replace_third-Keeps (some pp) found = elim (Bool-cases (isa h_op pp.gate)) [
      | inl same ↦ elim (Bool-cases (length pp.gate.controls == 0 && length pp.gate.targets == 1)) [
        | inl one ↦
            rw (same, one)
              (replaced-Refines pp found (is_compliant-IsSingle h_op pp.gate (rw (same, one))))
        | inr other ↦ rw (same, other) (unchanged-Refines m r before g p h)
      ]
      | inr other ↦ rw other tt
    ]

  module _ (law : Conjugates m k new) where
    replace_second-BodyKeeps : BodyKeeps m r (Unit {0}) h_op (replace_second k new)
    unfolding replace_second
    replace_second-BodyKeeps before g c p h none near = unchanged-Refines m r before g p h
    replace_second-BodyKeeps before g c p h (some prev) near =
        elim (Bool-cases (is_compliant k 0 1 prev.gate)) [
          | inl fits ↦
              rw (fits, first_of_one c.targets)
                (replace_third-Keeps law before g c p h prev near
                  (is_compliant-IsSingle k prev.gate fits)
                  (get_previous_operation_on_target prev.before c.qubit)
                  (previous-IsNearest prev.before c.qubit))
          | inr other ↦ rw other (unchanged-Refines m r before g p h)
        ]

    pub replace_conjugated-Keeps : Keeps m r (Unit {0}) (replace_conjugated k new)
    unfolding replace_conjugated
    replace_conjugated-Keeps =
        search_Keeps m r (Unit {0}) h_op (replace_second k new) replace_second-BodyKeeps

module _ {F : Type 0} (m : Model F) where
  pub x-Conjugates : Conjugates m x_op z_op
  unfolding unitary
  x-Conjugates a b c ps qs rs q s = m.h_x_h q s

  pub z-Conjugates : Conjugates m z_op x_op
  unfolding unitary
  z-Conjugates a b c ps qs rs q s = ap (on m _ q) (z_h m q s) ∙ m.h_h q (on m _ q s)
