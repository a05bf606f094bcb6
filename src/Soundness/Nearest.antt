-- ===== src/Soundness/Nearest.antt =====
-- getPreviousOperationOnTarget against the operands of the gates
-- (lib/Support/CodeGen/Quake/QuakeOperations.cpp).
use mqss_passes_suite.Base.{
  ℤ, ==ℤ_iff, ◌==ℤ◌, ◌≡◌, sym, true, Bool-cases, ◌⊎◌, inl, inr, List, [], ◌∷◌, ◌++◌, All, Option,
  none, some, arith,
}
use mqss_passes_suite.Quake.Ops.{Value, Gate, Op, operator, plain}
use mqss_passes_suite.Quake.Query.{
  extract_index, any_index, on_qubit, Found, get_previous_operation_on_target,
}
use mqss_passes_suite.Soundness.Search.{IsClear, IsNearest, previous-IsNearest}

-- One of the values has an index.
abbrev pub HasIndex : ℤ → List Value → Type 0
HasIndex i [] = ⊥
HasIndex i (v ∷ vs) = (extract_index v ≡ i) ⊎ HasIndex i vs

any_index-HasIndex :
    (i : ℤ) (vs : List Value)
    → (any_index i vs ≡ true → HasIndex i vs) × (HasIndex i vs → any_index i vs ≡ true)
unfolding any_index
any_index-HasIndex i [] = (λ h. ground (arith, h), λ h. absurd h)
any_index-HasIndex i (v ∷ vs) =
    let rest = any_index-HasIndex i vs in
    elim (Bool-cases (i ==ℤ extract_index v)) [
      | inl same ↦
          (λ h. inl (sym ((==ℤ_iff i (extract_index v)).0 same)), λ h. ground (arith, same))
      | inr other ↦ (
        λ h. inr (rest.0 (ground (arith, other, h))),
        λ h. elim h [
          | inl same ↦ absurd (ground (arith, other, ==ℤ_iff i (extract_index v), sym same))
          | inr later ↦ ground (arith, rest.1 later)
        ],
      )
    ]

module _ {F : Type 0} where
  -- An operation that is a gate, and has an index among its targets or its controls.
  abbrev pub ActsOn : ℤ → Op F → Type 0
  ActsOn i (operator g) = HasIndex i g.targets ⊎ HasIndex i g.controls
  ActsOn i (plain n) = ⊥

  -- The first operation of a list that acts on the index, with what stands on both sides of it.
  abbrev pub IsFirst : List (Op F) → ℤ → Option (Found F) → Type 0
  IsFirst before i none = All (λ op. ¬ ActsOn i op) before
  IsFirst before i (some r) =
      (before ≡ r.between ++ operator r.gate ∷ r.before)
      × All (λ op. ¬ ActsOn i op) r.between
      × ActsOn i (operator r.gate)

  hit-ActsOn : (i : ℤ) (g : Gate F) → on_qubit i g ≡ true → ActsOn i (operator g)
  unfolding on_qubit
  hit-ActsOn i g h = elim (Bool-cases (any_index i g.targets)) [
    | inl target ↦ inl ((any_index-HasIndex i g.targets).0 target)
    | inr other ↦ inr ((any_index-HasIndex i g.controls).0 (ground (arith, h, other)))
  ]

  clear-ActsOn : (i : ℤ) (op : Op F) → IsClear i op → ¬ ActsOn i op
  unfolding on_qubit
  clear-ActsOn i (operator g) h (inl target) =
      ground (arith, h, (any_index-HasIndex i g.targets).1 target)
  clear-ActsOn i (operator g) h (inr control) =
      ground (arith, h, (any_index-HasIndex i g.controls).1 control)
  clear-ActsOn i (plain n) h a = a

  idle_lem : (i : ℤ) (ops : List (Op F)) → All (IsClear i) ops → All (λ op. ¬ ActsOn i op) ops
  idle_lem i [] h = tt
  idle_lem i (op ∷ ops) h = (clear-ActsOn i op h.0, idle_lem i ops h.1)

  nearest-IsFirst :
      (before : List (Op F)) (i : ℤ) (o : Option (Found F))
      → IsNearest before i o
      → IsFirst before i o
  nearest-IsFirst before i none h = idle_lem i before h
  nearest-IsFirst before i (some r) h =
      (h.parts, idle_lem i r.between h.clear, hit-ActsOn i r.gate h.hit)

  -- getPreviousOperationOnTarget finds the nearest gate before that has an operand, target or
  -- control, with the index of the qubit, and splits the block there, or finds none where no gate
  -- has one.
  pub previous-IsFirst :
      (before : List (Op F)) (q : Value)
      → IsFirst before (extract_index q) (get_previous_operation_on_target before q)
  previous-IsFirst before q =
      nearest-IsFirst before (extract_index q) (get_previous_operation_on_target before q)
        (previous-IsNearest before q)
