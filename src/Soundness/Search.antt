-- ===== src/Soundness/Search.antt =====
-- What getPreviousOperationOnTarget and getNextOperationOnTarget find, and what the operations
-- that the search passes over do to the state.
use mqss_passes_suite.Base.{
  ℕ, ℤ, Bool-cases, ◌≡◌, refl, ap, sym, ◌∙◌, inl, inr, true, false, List, [], ◌∷◌, ◌++◌, All,
  Option, none, some, arith,
}
use mqss_passes_suite.Quake.Ops.{Value, Gate, measure, apply_op, Op, operator, plain}
use mqss_passes_suite.Quake.Query.{
  extract_index, on_qubit, Found, skip, get_previous_operation_on_target,
  get_next_operation_on_target,
}
use mqss_passes_suite.Semantics.Model.{Model, Unitary, Apart}
use mqss_passes_suite.Semantics.Run.{effect, effect_plain, run_reversed}
use mqss_passes_suite.Soundness.Shape.{IsPlaced, IsQuiet, ne_of_index}

module _ {F : Type 0} where
  -- The operation is no gate on the qubit of this index.
  abbrev pub IsClear : ℤ → Op F → Type 0
  IsClear i (operator g) = on_qubit i g ≡ false
  IsClear i (plain n) = Unit

  -- The nearest gate on the qubit, with clear operations before it in the search.
  pub record Splits (before : List (Op F)) (i : ℤ) (r : Found F) : Type 0 where
    pub parts : before ≡ r.between ++ operator r.gate ∷ r.before
    pub clear : All (IsClear i) r.between
    pub hit : on_qubit i r.gate ≡ true

  abbrev pub IsNearest : List (Op F) → ℤ → Option (Found F) → Type 0
  IsNearest before i none = All (IsClear i) before
  IsNearest before i (some r) = Splits before i r

  skip-IsNearest :
      (op : Op F) (ops : List (Op F)) (i : ℤ) (o : Option (Found F))
      → IsClear i op
      → IsNearest ops i o
      → IsNearest (op ∷ ops) i (skip op o)
  skip-IsNearest op ops i none c h = (c, h)
  skip-IsNearest op ops i (some r) c h = record {
    parts = ap (λ (t : List (Op F)). op ∷ t) h.parts;
    clear = (c, h.clear);
    hit = h.hit;
  }

  -- getPreviousOperationOnTarget finds the nearest gate before that has the index of the qubit
  -- among its operands and splits the block there, or finds none where no gate has.
  pub previous-IsNearest :
      (before : List (Op F)) (q : Value)
      → IsNearest before (extract_index q) (get_previous_operation_on_target before q)
  unfolding get_previous_operation_on_target
  previous-IsNearest [] q = tt
  previous-IsNearest (plain n ∷ ops) q =
      skip-IsNearest (plain n) ops _ _ tt (previous-IsNearest ops q)
  previous-IsNearest (operator g ∷ ops) q =
      let rest = previous-IsNearest ops q in
      elim (Bool-cases (on_qubit (extract_index q) g)) [
        | inl hit ↦ rw hit (record { parts = refl; clear = tt; hit = hit })
        | inr miss ↦ rw miss (skip-IsNearest (operator g) ops _ _ miss rest)
      ]

-- The gate that a search found.
abbrev pub gate_of : {F : Type 0} → Option (Found F) → Option (Gate F)
gate_of none = none
gate_of (some r) = some r.gate

gate_of-skip : {F : Type 0} (op : Op F) (o : Option (Found F)) → gate_of (skip op o) ≡ gate_of o
gate_of-skip op none = refl
gate_of-skip op (some r) = refl

-- getNextOperationOnTarget finds in the operations after the current one the gate that
-- getPreviousOperationOnTarget finds in them in the opposite order.
pub next-previous :
    {F : Type 0} (ops : List (Op F)) (q : Value)
    → get_next_operation_on_target ops q ≡ gate_of (get_previous_operation_on_target ops q)
unfolding get_next_operation_on_target get_previous_operation_on_target
next-previous [] q = refl
next-previous (plain n ∷ ops) q = next-previous ops q ∙ sym (gate_of-skip (plain n) _)
next-previous (operator g ∷ ops) q = elim (Bool-cases (on_qubit (extract_index q) g)) [
  | inl hit ↦ rw hit refl
  | inr miss ↦ rw miss (next-previous ops q ∙ sym (gate_of-skip (operator g) _))
]

-- An operation that a gate on these controls and targets passes.
abbrev IsApart : {F : Type 0} → List Value → List Value → Op F → Type 0
IsApart cs ts (operator g) =
    Apart cs g.controls × Apart cs g.targets × Apart ts g.controls × Apart ts g.targets
IsApart cs ts (plain n) = IsQuiet n

module _ {F : Type 0} (m : Model F) (u : Unitary F) (cs ts : List Value) where
  open m use {State, apply, commute}

  effect_comm :
      (op : Op F) (s : State)
      → IsApart cs ts op
      → apply u cs ts (effect m op s) ≡ effect m op (apply u cs ts s)
  unfolding effect
  effect_comm (operator g) s h = commute u _ cs ts g.controls g.targets s h.0 h.1 h.2 h.3
  effect_comm (plain (measure os)) s h = absurd h
  effect_comm (plain (apply_op vs)) s h = absurd h
  effect_comm (plain _) s h = unfold effect_plain in refl

  run_reversed_comm_apart :
      (ops : List (Op F)) (s : State)
      → All (IsApart cs ts) ops
      → apply u cs ts (run_reversed m ops s) ≡ run_reversed m ops (apply u cs ts s)
  unfolding run_reversed
  run_reversed_comm_apart [] s h = refl
  run_reversed_comm_apart (op ∷ ops) s h =
      effect_comm op (run_reversed m ops s) h.0
      ∙ ap (effect m op) (run_reversed_comm_apart ops s h.1)

module _ {F : Type 0} (r : ℕ) where
  clear-IsApart :
      (q : Value) (op : Op F)
      → IsPlaced r op
      → IsClear (extract_index q) op
      → IsApart [] (q ∷ []) op
  unfolding on_qubit
  clear-IsApart q (operator g) h c = (
    tt,
    tt,
    (ne_of_index _ q g.controls refl (ground arith), tt),
    (ne_of_index _ q g.targets refl (ground arith), tt),
  )
  clear-IsApart q (plain n) h c = h

  both-IsApart :
      (c t : Value) (op : Op F)
      → IsApart [] (c ∷ []) op
      → IsApart [] (t ∷ []) op
      → IsApart (c ∷ []) (t ∷ []) op
  both-IsApart c t (operator g) h k = (h.2, h.3, k.2, k.3)
  both-IsApart c t (plain n) h k = h

  All-clear :
      (q : Value) (ops : List (Op F))
      → All (IsPlaced r) ops
      → All (IsClear (extract_index q)) ops
      → All (IsApart [] (q ∷ [])) ops
  All-clear q [] h c = tt
  All-clear q (op ∷ ops) h c = (clear-IsApart q op h.0 c.0, All-clear q ops h.1 c.1)

  All-clear_both :
      (c t : Value) (ops : List (Op F))
      → All (IsApart [] (c ∷ [])) ops
      → All (IsApart [] (t ∷ [])) ops
      → All (IsApart (c ∷ []) (t ∷ [])) ops
  All-clear_both c t [] h k = tt
  All-clear_both c t (op ∷ ops) h k = (both-IsApart c t op h.0 k.0, All-clear_both c t ops h.1 k.1)

module _ {F : Type 0} (m : Model F) where
  open m use {State, apply}

  -- A gate on one qubit passes all operations that are clear of the qubit.
  pub run_reversed_comm :
      (r : ℕ) (u : Unitary F) (q : Value) (ops : List (Op F)) (s : State)
      → All (IsPlaced r) ops
      → All (IsClear (extract_index q)) ops
      → apply u [] (q ∷ []) (run_reversed m ops s) ≡ run_reversed m ops (apply u [] (q ∷ []) s)
  run_reversed_comm r u q ops s h c =
      run_reversed_comm_apart m u [] (q ∷ []) ops s (All-clear r q ops h c)

  -- And a controlled gate those that are clear of both of its qubits.
  pub run_reversed_comm_controlled :
      (r : ℕ) (u : Unitary F) (c t : Value) (ops : List (Op F)) (s : State)
      → All (IsPlaced r) ops
      → All (IsClear (extract_index c)) ops
      → All (IsClear (extract_index t)) ops
      → apply u (c ∷ []) (t ∷ []) (run_reversed m ops s)
        ≡ run_reversed m ops (apply u (c ∷ []) (t ∷ []) s)
  run_reversed_comm_controlled r u c t ops s h k l =
      run_reversed_comm_apart m u (c ∷ []) (t ∷ []) ops s
        (All-clear_both r c t ops (All-clear r c ops h k) (All-clear r t ops h l))
