-- ===== src/Passes/Transforms.antt =====
-- lib/Passes/Transforms: the passes that cancel, commute, switch and replace gates. A pass is
-- given by its callback; `operations_on_quantum_kernel` of `Walk` runs it.
use mqss_passes_suite.Base.{
  ℕ, ◌==ℤ◌, ◌==◌, false, ◌&&◌, if◌then◌else◌, List, [], ◌∷◌, ◌++◌, length, Option, none, some,
  Result, ok, fault, null_gate, use_after_erase, ◌>>=◌,
}
use mqss_passes_suite.Quake.Ops.{GateKind, x_op, y_op, z_op, h_op, rx_op, Gate, Op, operator, isa}
use mqss_passes_suite.Quake.Query.{
  extract_index, first_value, Found, get_previous_operation_on_target,
}
use mqss_passes_suite.Passes.Patterns.{
  is_compliant, create_from, Outcome, kept, erased, settle, pattern_cancellation, commute_operation,
  pattern_switch,
}

-- The passes that call patternSwitch.
pub data SwitchPass : Type 0 where
  h_x h_y h_z x_h y_h z_h : SwitchPass

module _ {F : Type 0} where
  -- CancellationDoubleCx
  unfoldable pub cancellation_double_cx : List (Op F) → Gate F → Result (List (Op F))
  unfolding pattern_cancellation settle
  cancellation_double_cx before current =
      pattern_cancellation x_op x_op 1 1 1 1 before current >>= λ left. ok (settle current left)

  -- One call of the template in a callback that makes several: it reads the operation again,
  -- which the calls before it may have erased.
  unfoldable pub and_then : GateKind → ℕ → Gate F → Result (Outcome F) → Result (Outcome F)
  and_then t ctrls current (ok (kept before)) =
      pattern_cancellation t t ctrls 1 ctrls 1 before current
  and_then t ctrls current (ok (erased before)) = fault use_after_erase
  and_then t ctrls current (fault e) = fault e

  -- The eight calls of ReductionPattern (CancellationDoubleGate.cpp).
  unfoldable pub reductions : List (Op F) → Gate F → Result (Outcome F)
  unfolding and_then
  reductions before current =
      let after_cx = pattern_cancellation x_op x_op 1 1 1 1 before current in
      let after_x = and_then x_op 0 current after_cx in
      let after_cy = and_then y_op 1 current after_x in
      let after_y = and_then y_op 0 current after_cy in
      let after_cz = and_then z_op 1 current after_y in
      let after_z = and_then z_op 0 current after_cz in
      let after_ch = and_then h_op 1 current after_z in and_then h_op 0 current after_ch

  -- ReductionPattern
  unfoldable pub reduction_pattern : List (Op F) → Gate F → Result (List (Op F))
  unfolding reductions settle
  reduction_pattern before current = reductions before current >>= λ left. ok (settle current left)

  -- CommuteCxRx, CommuteCxX, CommuteRxCx, CommuteXCx
  unfoldable pub commute_cx_rx : List (Op F) → Gate F → Result (List (Op F))
  unfolding commute_operation
  commute_cx_rx = commute_operation x_op rx_op 1 1 0 1

  unfoldable pub commute_cx_x : List (Op F) → Gate F → Result (List (Op F))
  unfolding commute_operation
  commute_cx_x = commute_operation x_op x_op 1 1 0 1

  unfoldable pub commute_rx_cx : List (Op F) → Gate F → Result (List (Op F))
  unfolding commute_operation
  commute_rx_cx = commute_operation rx_op x_op 0 1 1 1

  unfoldable pub commute_x_cx : List (Op F) → Gate F → Result (List (Op F))
  unfolding commute_operation
  commute_x_cx = commute_operation x_op x_op 0 1 1 1

  -- SwitchHX, SwitchHY, SwitchHZ, SwitchXH, SwitchYH, SwitchZH
  unfoldable pub switch_h_x : List (Op F) → Gate F → Result (List (Op F))
  unfolding pattern_switch
  switch_h_x = pattern_switch h_op x_op z_op h_op

  unfoldable pub switch_h_y : List (Op F) → Gate F → Result (List (Op F))
  unfolding pattern_switch
  switch_h_y = pattern_switch h_op y_op y_op h_op

  unfoldable pub switch_h_z : List (Op F) → Gate F → Result (List (Op F))
  unfolding pattern_switch
  switch_h_z = pattern_switch h_op z_op x_op h_op

  unfoldable pub switch_x_h : List (Op F) → Gate F → Result (List (Op F))
  unfolding pattern_switch
  switch_x_h = pattern_switch x_op h_op h_op z_op

  unfoldable pub switch_y_h : List (Op F) → Gate F → Result (List (Op F))
  unfolding pattern_switch
  switch_y_h = pattern_switch y_op h_op h_op y_op

  unfoldable pub switch_z_h : List (Op F) → Gate F → Result (List (Op F))
  unfolding pattern_switch
  switch_z_h = pattern_switch z_op h_op h_op x_op

  -- The six of them by name.
  unfoldable pub switch_callback : SwitchPass → List (Op F) → Gate F → Result (List (Op F))
  unfolding switch_h_x switch_h_y switch_h_z switch_x_h switch_y_h switch_z_h
  switch_callback h_x = switch_h_x
  switch_callback h_y = switch_h_y
  switch_callback h_z = switch_h_z
  switch_callback x_h = switch_x_h
  switch_callback y_h = switch_y_h
  switch_callback z_h = switch_z_h

  -- The clone of the earlier gate behind the current one, which stays; the earlier one is erased.
  unfoldable pub move_behind : GateKind → Gate F → Found F → List (Op F)
  unfolding create_from
  move_behind t current prev =
      create_from t prev.gate ∷ operator current ∷ (prev.between ++ prev.before)

  unfoldable pub commute_c_not_z_found :
      List (Op F) → Gate F → Option (Found F) → Result (List (Op F))
  unfolding is_compliant first_value extract_index move_behind
  commute_c_not_z_found before current none = ok (operator current ∷ before)
  commute_c_not_z_found before current (some prev) =
      if is_compliant x_op 1 1 prev.gate
      then (first_value prev.gate.controls >>= λ control_prev.
          first_value current.targets >>= λ target_curr. ok (
            if extract_index target_curr ==ℤ extract_index control_prev
            then move_behind x_op current prev
            else operator current ∷ before))
      else ok (operator current ∷ before)

  -- commuteCNotZ
  unfoldable pub commute_c_not_z : List (Op F) → Gate F → Result (List (Op F))
  unfolding is_compliant first_value commute_c_not_z_found get_previous_operation_on_target
  commute_c_not_z before current =
      if is_compliant z_op 0 1 current
      then (first_value current.targets >>= λ target.
          commute_c_not_z_found before current (get_previous_operation_on_target before target))
      else ok (operator current ∷ before)

  unfoldable pub commute_z_c_not_found :
      List (Op F) → Gate F → Option (Found F) → Result (List (Op F))
  unfolding is_compliant first_value extract_index move_behind
  commute_z_c_not_found before current none = ok (operator current ∷ before)
  commute_z_c_not_found before current (some prev) =
      if is_compliant z_op 0 1 prev.gate
      then (first_value prev.gate.targets >>= λ target_prev.
          first_value current.controls >>= λ control_curr. ok (
            if extract_index target_prev ==ℤ extract_index control_curr
            then move_behind z_op current prev
            else operator current ∷ before))
      else ok (operator current ∷ before)

  -- commuteZCNot
  unfoldable pub commute_z_c_not : List (Op F) → Gate F → Result (List (Op F))
  unfolding is_compliant first_value commute_z_c_not_found get_previous_operation_on_target
  commute_z_c_not before current =
      if is_compliant x_op 1 1 current
      then (first_value current.controls >>= λ control.
          commute_z_c_not_found before current (get_previous_operation_on_target before control))
      else ok (operator current ∷ before)

  -- The Pauli gate that goes behind the Hadamard gate for the one before it.
  unfoldable pub switched_pauli : Gate F → Option GateKind
  unfolding isa
  switched_pauli g =
      if isa x_op g
      then some z_op
      else if isa y_op g
      then some y_op
      else if isa z_op g
      then some x_op
      else none

  unfoldable pub switch_pauli_to : List (Op F) → Gate F → Found F → Option GateKind → List (Op F)
  unfolding move_behind
  switch_pauli_to before current prev none = operator current ∷ before
  switch_pauli_to before current prev (some t) =
      if length prev.gate.controls == 0 && length prev.gate.targets == 1
      then move_behind t current prev
      else operator current ∷ before

  unfoldable pub switch_pauli_found : List (Op F) → Gate F → Option (Found F) → List (Op F)
  unfolding switched_pauli switch_pauli_to
  switch_pauli_found before current none = operator current ∷ before
  switch_pauli_found before current (some prev) =
      switch_pauli_to before current prev (switched_pauli prev.gate)

  -- SwitchPauliHOperation
  unfoldable pub switch_pauli_h_operation : List (Op F) → Gate F → Result (List (Op F))
  unfolding is_compliant first_value switch_pauli_found get_previous_operation_on_target
  switch_pauli_h_operation before current =
      if is_compliant h_op 0 1 current
      then (first_value current.targets >>= λ target.
          ok (switch_pauli_found before current (get_previous_operation_on_target before target)))
      else ok (operator current ∷ before)

  -- The third gate of the pattern: its class is not tested before its controls are read.
  unfoldable pub replace_third :
      GateKind → List (Op F) → Gate F → Found F → Option (Found F) → Result (List (Op F))
  unfolding isa
  replace_third new before current prev none = ok (operator current ∷ before)
  replace_third new before current prev (some prev_prev) =
      if isa h_op prev_prev.gate
      then ok (
          if length prev_prev.gate.controls == 0 && length prev_prev.gate.targets == 1
          then operator (record {
            kind = new;
            is_adj = false;
            parameters = [];
            controls = current.controls;
            targets = current.targets;
          })
            ∷ (prev.between ++ (prev_prev.between ++ prev_prev.before))
          else operator current ∷ before)
      else fault null_gate

  unfoldable pub replace_second :
      GateKind → GateKind → List (Op F) → Gate F → Option (Found F) → Result (List (Op F))
  unfolding is_compliant first_value replace_third get_previous_operation_on_target
  replace_second middle new before current none = ok (operator current ∷ before)
  replace_second middle new before current (some prev) =
      if is_compliant middle 0 1 prev.gate
      then (first_value current.targets >>= λ target.
          replace_third new before current prev
            (get_previous_operation_on_target prev.before target))
      else ok (operator current ∷ before)

  unfoldable pub replace_conjugated :
      GateKind → GateKind → List (Op F) → Gate F → Result (List (Op F))
  unfolding is_compliant first_value replace_second get_previous_operation_on_target
  replace_conjugated middle new before current =
      if is_compliant h_op 0 1 current
      then (first_value current.targets >>= λ target.
          replace_second middle new before current (get_previous_operation_on_target before target))
      else ok (operator current ∷ before)

  -- ReplaceHXHToZ and ReplaceHZHToX
  unfoldable pub replace_h_x_h_to_z : List (Op F) → Gate F → Result (List (Op F))
  unfolding replace_conjugated
  replace_h_x_h_to_z = replace_conjugated x_op z_op

  unfoldable pub replace_h_z_h_to_x : List (Op F) → Gate F → Result (List (Op F))
  unfolding replace_conjugated
  replace_h_z_h_to_x = replace_conjugated z_op x_op
