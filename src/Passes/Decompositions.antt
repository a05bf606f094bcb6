-- ===== src/Passes/Decompositions.antt =====
-- lib/Passes/Decompositions: the passes that replace a controlled gate by Hadamard gates and
-- another controlled gate, and those that join a Z gate to an S gate.
use mqss_passes_suite.Base.{
  Bool, true, false, ◌&&◌, not, if◌then◌else◌, List, [], ◌∷◌, ◌++◌, Option, none, some, Result, ok,
  ◌>>=◌,
}
use mqss_passes_suite.Quake.Ops.{GateKind, x_op, z_op, h_op, s_op, Value, Gate, Op, operator}
use mqss_passes_suite.Quake.Query.{first_value, Found, get_previous_operation_on_target}
use mqss_passes_suite.Passes.Patterns.{is_compliant}

module _ {F : Type 0} where
  -- `rewriter.create<T>(loc, target)` and `rewriter.create<T>(loc, control, target)`
  abbrev pub create : GateKind → List Value → Value → Op F
  create t controls target = operator (record {
    kind = t;
    is_adj = false;
    parameters = [];
    controls = controls;
    targets = target ∷ [];
  })

  -- CxToHCzHPattern: the new gates stand behind the current one, in the order of their creation.
  unfoldable pub cx_to_h_cz_h_pattern : List (Op F) → Gate F → Result (List (Op F))
  unfolding is_compliant first_value
  cx_to_h_cz_h_pattern before cx =
      if is_compliant x_op 1 1 cx
      then (first_value cx.controls >>= λ control. first_value cx.targets >>= λ target. ok (
          create h_op [] target
          ∷ create z_op (target ∷ []) control
          ∷ create h_op [] target
          ∷ before))
      else ok (operator cx ∷ before)

  -- ReplaceCzToHCxH
  unfoldable pub replace_cz_to_h_cx_h : List (Op F) → Gate F → Result (List (Op F))
  unfolding is_compliant first_value
  replace_cz_to_h_cx_h before cz =
      if is_compliant z_op 1 1 cz
      then (first_value cz.controls >>= λ control. first_value cz.targets >>= λ target. ok (
          create h_op [] target
          ∷ create x_op (control ∷ []) target
          ∷ create h_op [] target
          ∷ before))
      else ok (operator cz ∷ before)

  -- ReverseCNot
  unfoldable pub reverse_c_not : List (Op F) → Gate F → Result (List (Op F))
  unfolding is_compliant first_value
  reverse_c_not before cx =
      if is_compliant x_op 1 1 cx
      then (first_value cx.controls >>= λ control. first_value cx.targets >>= λ target. ok (
          create h_op [] control
          ∷ create h_op [] target
          ∷ create x_op (target ∷ []) control
          ∷ create h_op [] control
          ∷ create h_op [] target
          ∷ before))
      else ok (operator cx ∷ before)

  unfoldable pub join_found : Bool → List (Op F) → Gate F → Option (Found F) → List (Op F)
  unfolding is_compliant
  join_found adj before current none = operator current ∷ before
  join_found adj before current (some prev) =
      if is_compliant s_op 0 1 prev.gate && (if adj then prev.gate.is_adj else not prev.gate.is_adj)
      then operator (record prev.gate { kind = s_op; is_adj = not adj })
        ∷ (prev.between ++ prev.before)
      else operator current ∷ before

  -- A Z gate with the S gate before it: `adj` says which S gate is looked for.
  unfoldable pub join_z : Bool → List (Op F) → Gate F → Result (List (Op F))
  unfolding is_compliant first_value join_found get_previous_operation_on_target
  join_z adj before current =
      if is_compliant z_op 0 1 current
      then (first_value current.targets >>= λ target.
          ok (join_found adj before current (get_previous_operation_on_target before target)))
      else ok (operator current ∷ before)

  -- ReplaceSAdjZToS and ReplaceSZToSAdj
  unfoldable pub replace_s_adj_z_to_s : List (Op F) → Gate F → Result (List (Op F))
  unfolding join_z
  replace_s_adj_z_to_s = join_z true

  unfoldable pub replace_s_z_to_s_adj : List (Op F) → Gate F → Result (List (Op F))
  unfolding join_z
  replace_s_z_to_s_adj = join_z false
