-- ===== src/Passes/Patterns.antt =====
-- include/Support/Transforms: the templates that cancel, commute and switch two operations.
use mqss_passes_suite.Base.{
  ℕ, ℤ, ltb_ℤ, ◌==ℤ◌, ◌==◌, Bool, true, false, ◌&&◌, if◌then◌else◌, List, [], ◌∷◌, ◌++◌, length,
  Option, none, some, Result, ok, fault, null_gate, ◌>>=◌,
}
use mqss_passes_suite.Quake.Ops.{GateKind, Value, Gate, Op, operator, isa}
use mqss_passes_suite.Quake.Query.{
  extract_index, get_indices_of_value_range, first_value, Found, get_previous_operation_on_target,
}

-- `std::sort(…, std::greater<int>())`, by insertion.
unfoldable pub insert_descending : ℤ → List ℤ → List ℤ
insert_descending a [] = a ∷ []
insert_descending a (b ∷ bs) = if ltb_ℤ a b then b ∷ insert_descending a bs else a ∷ b ∷ bs

unfoldable pub sort_descending : List ℤ → List ℤ
unfolding insert_descending
sort_descending [] = []
sort_descending (a ∷ as') = insert_descending a (sort_descending as')

-- `std::equal` of two vectors of one size.
unfoldable pub equal : List ℤ → List ℤ → Bool
equal [] [] = true
equal (a ∷ as') (b ∷ bs) = a ==ℤ b && equal as' bs
equal _ _ = false

-- The same number of values, and the same indices up to order.
unfoldable pub same_indices : List Value → List Value → Bool
unfolding sort_descending equal get_indices_of_value_range
same_indices curr prev =
    length curr == length prev
    && equal (sort_descending (get_indices_of_value_range curr))
        (sort_descending (get_indices_of_value_range prev))

-- What a template leaves: the list of the operations before the current one, which is still in
-- the block or has been erased.
pub data Outcome (F : Type 0) : Type 0 where
  kept : List (Op F) → Outcome F
  erased : List (Op F) → Outcome F

module _ {F : Type 0} where
  -- The cast to the operation's class, and the test on its numbers of controls and targets.
  unfoldable pub is_compliant : GateKind → ℕ → ℕ → Gate F → Bool
  unfolding isa
  is_compliant k ctrls tgts g = isa k g && length g.controls == ctrls && length g.targets == tgts

  -- The earlier gate is of its class, with the controls and targets of the current one.
  unfoldable pub cancels : GateKind → ℕ → ℕ → Gate F → Gate F → Bool
  unfolding is_compliant same_indices
  cancels t1 ctrls1 tgts1 current prev =
      is_compliant t1 ctrls1 tgts1 prev
      && (same_indices current.controls prev.controls && same_indices current.targets prev.targets)

  unfoldable pub cancel_found :
      GateKind → ℕ → ℕ → List (Op F) → Gate F → Option (Found F) → Outcome F
  cancel_found t1 ctrls1 tgts1 before current none = kept before
  cancel_found t1 ctrls1 tgts1 before current (some prev) =
      if cancels t1 ctrls1 tgts1 current prev.gate
      then erased (prev.between ++ prev.before)
      else kept before

  -- patternCancellation<T1, T2>
  unfoldable pub pattern_cancellation :
      GateKind → GateKind → ℕ → ℕ → ℕ → ℕ → List (Op F) → Gate F → Result (Outcome F)
  unfolding is_compliant cancel_found first_value get_previous_operation_on_target
  pattern_cancellation t1 t2 ctrls1 tgts1 ctrls2 tgts2 before current =
      if is_compliant t2 ctrls2 tgts2 current
      then (first_value current.targets >>= λ target. ok (
          cancel_found t1 ctrls1 tgts1 before current
            (get_previous_operation_on_target before target)))
      else ok (kept before)

  -- The block after a callback that only calls the template once.
  unfoldable pub settle : Gate F → Outcome F → List (Op F)
  settle current (kept before) = operator current ∷ before
  settle current (erased before) = before

  -- `rewriter.create<T>(op.getLoc(), op.isAdj(), op.getParameters(), op.getControls(),
  -- op.getTargets())`
  unfoldable pub create_from : GateKind → Gate F → Op F
  create_from t g = operator (record g { kind = t })

  -- The test on the two targets, and the two clones in reverse order.
  unfoldable pub commute_found :
      GateKind → GateKind → ℕ → ℕ → List (Op F) → Gate F → Option (Found F) → Result (List (Op F))
  unfolding is_compliant create_from first_value extract_index
  commute_found t1 t2 ctrls1 tgts1 before current none = ok (operator current ∷ before)
  commute_found t1 t2 ctrls1 tgts1 before current (some prev) =
      if is_compliant t1 ctrls1 tgts1 prev.gate
      then (first_value prev.gate.targets >>= λ target_prev.
          first_value current.targets >>= λ target_curr. ok (
            if extract_index target_prev ==ℤ extract_index target_curr
            then create_from t1 prev.gate ∷ create_from t2 current ∷ (prev.between ++ prev.before)
            else operator current ∷ before))
      else ok (operator current ∷ before)

  -- commuteOperation<T1, T2>
  unfoldable pub commute_operation :
      GateKind → GateKind → ℕ → ℕ → ℕ → ℕ → List (Op F) → Gate F → Result (List (Op F))
  unfolding is_compliant commute_found first_value get_previous_operation_on_target
  commute_operation t1 t2 ctrls1 tgts1 ctrls2 tgts2 before current =
      if is_compliant t2 ctrls2 tgts2 current
      then (first_value current.targets >>= λ target.
          commute_found t1 t2 ctrls1 tgts1 before current
            (get_previous_operation_on_target before target))
      else ok (operator current ∷ before)

  -- `dyn_cast<T1>(prevOp)` is not tested: on another class the handle is null.
  unfoldable pub switch_found :
      GateKind
      → GateKind
      → GateKind
      → List (Op F)
      → Gate F
      → Option (Found F)
      → Result (List (Op F))
  unfolding isa create_from
  switch_found t1 t3 t4 before current none = ok (operator current ∷ before)
  switch_found t1 t3 t4 before current (some prev) =
      if isa t1 prev.gate
      then ok (
          if length prev.gate.controls == 0 && length prev.gate.targets == 1
          then create_from t4 prev.gate ∷ create_from t3 current ∷ (prev.between ++ prev.before)
          else operator current ∷ before)
      else fault null_gate

  -- patternSwitch<T1, T2, T3, T4>
  unfoldable pub pattern_switch :
      GateKind → GateKind → GateKind → GateKind → List (Op F) → Gate F → Result (List (Op F))
  unfolding is_compliant switch_found first_value get_previous_operation_on_target
  pattern_switch t1 t2 t3 t4 before current =
      if is_compliant t2 0 1 current
      then (first_value current.targets >>= λ target.
          switch_found t1 t3 t4 before current (get_previous_operation_on_target before target))
      else ok (operator current ∷ before)
