-- ===== src/Soundness/Shape.antt =====
-- What the tests of the callbacks on one gate say (`is_compliant` and the comparison of indices).
use mqss_passes_suite.Base.{
  ℕ, ==ℤ_iff, ◌≡◌, ◌≢◌, refl, ap, true, false, ◌==◌, List, [], ◌∷◌, length, All, arith, ℤ,
}
use mqss_passes_suite.Quake.Ops.{
  GateKind, Value, extract_ref, Gate, isa_sound, NonGate, measure, apply_op, Op, operator, plain,
}
use mqss_passes_suite.Quake.Query.{extract_index, any_index}
use mqss_passes_suite.Passes.Patterns.{is_compliant}
use mqss_passes_suite.Semantics.Model.{Apart}

-- The qubits of a kernel that allocates one vector, `r`.
pub data InRegister (r : ℕ) : Value → Type 0 where
  at_index : (i : ℕ) → InRegister r (extract_ref r i)

-- A measurement or a call stops the passes' moves; other operations do not.
abbrev pub IsQuiet : {F : Type 0} → NonGate F → Type 0
IsQuiet (measure os) = ⊥
IsQuiet (apply_op vs) = ⊥
IsQuiet _ = Unit

-- An operation whose qubits are in the register, its controls apart from its targets.
abbrev pub IsPlaced : {F : Type 0} → ℕ → Op F → Type 0
IsPlaced r (operator g) =
    All (InRegister r) g.controls × All (InRegister r) g.targets × Apart g.controls g.targets
IsPlaced r (plain n) = IsQuiet n

-- In one register the index tells the qubits apart.
pub eq_of_index :
    {r : ℕ} (p q : Value)
    → InRegister r p
    → InRegister r q
    → extract_index p ≡ extract_index q
    → p ≡ q
unfolding extract_index
eq_of_index _ _ (at_index i) (at_index j) h = cc

-- Values with other indices are other values, in any register.
pub ne_of_index :
    (i : ℤ) (q : Value) (vs : List Value)
    → extract_index q ≡ i
    → any_index i vs ≡ false
    → All (λ v. q ≢ v) vs
unfolding any_index
ne_of_index i q [] e h = tt
ne_of_index i q (v ∷ vs) e h = (
  λ p. ground (arith, ==ℤ_iff i (extract_index v), ap extract_index p),
  ne_of_index i q vs e (ground arith),
)

only : (vs : List Value) → (length vs == 1) ≡ true → (v : Value) × (vs ≡ v ∷ [])
only [] h = cc
only (v ∷ []) h = (v, refl)
only (v ∷ w ∷ vs) h = absurd (ground arith)

empty : (vs : List Value) → (length vs == 0) ≡ true → vs ≡ []
empty [] h = refl
empty (v ∷ vs) h = absurd (ground arith)

module _ {F : Type 0} where
  pub record IsSingle (k : GateKind) (g : Gate F) : Type 0 where
    pub kind : g.kind ≡ k
    pub qubit : Value
    pub controls : g.controls ≡ []
    pub targets : g.targets ≡ qubit ∷ []

  pub record IsControlled (k : GateKind) (g : Gate F) : Type 0 where
    pub kind : g.kind ≡ k
    pub control : Value
    pub target : Value
    pub controls : g.controls ≡ control ∷ []
    pub targets : g.targets ≡ target ∷ []

  pub is_compliant-IsSingle :
      (k : GateKind) (g : Gate F) → is_compliant k 0 1 g ≡ true → IsSingle k g
  unfolding is_compliant
  is_compliant-IsSingle k g h =
      let (q, e) = only g.targets (ground arith) in
      record {
        kind = isa_sound k g (ground arith);
        qubit = q;
        controls = empty g.controls (ground arith);
        targets = e;
      }

  pub is_compliant-IsControlled :
      (k : GateKind) (g : Gate F) → is_compliant k 1 1 g ≡ true → IsControlled k g
  unfolding is_compliant
  is_compliant-IsControlled k g h =
      let (c, d) = only g.controls (ground arith) in
      let (t, e) = only g.targets (ground arith) in
      record {
        kind = isa_sound k g (ground arith);
        control = c;
        target = t;
        controls = d;
        targets = e;
      }
