-- ===== src/LinAlg/Lookup.antt =====
-- The function of a module that a `func.call` names, and what a call of it must be
-- (lib/Interfaces/InlineGatesToArithLinAlg.cpp).
use mqss_passes_suite.Base.{
  ap, sym, subst, ◌∙◌, ◌≡◌, ◌==◌, ==_iff, Bool, true, false, Bool-cases, inl, inr, ◌&&◌, ◌||◌,
  if◌then◌else◌, List, [], ◌∷◌, All, arith, ℕ, refl, Option,
}
use mqss_passes_suite.Quake.Ops.{GateKind, same_kind, same_kind_sound}
use mqss_passes_suite.LinAlg.Tensors.{
  Name, Instruction, constant_complex, constant_double, empty, call, mul, generic_mul, matvec,
  matmul, ValueType, TensorValue,
}
use mqss_passes_suite.LinAlg.Convert.{Declaration, same_text, same_name, has_func}
use mqss_passes_suite.LinAlg.Declared.{
  argument_of, matrix_of, IsArgument, IsProper, IsDeclared, Calls,
}

-- A module has a function of a name, and an argument and a result fit the type of the first one.
abbrev pub Accepts : List Declaration → Name → Option TensorValue → ValueType → Type 0
Accepts [] name v t = ⊥
Accepts (d ∷ ds) name v t =
    if same_name d.name name
    then IsArgument d.argument v × (t ≡ d.result_type)
    else Accepts ds name v t

module _ {F : Type 0} where
  -- A call fits the type of the function that it names.
  abbrev pub IsTypedCall : List Declaration → Instruction F → Type 0
  IsTypedCall ds (call name v t) = Accepts ds name v t
  IsTypedCall ds i = Unit

both : (a b : Bool) → (a && b) ≡ true → (a ≡ true) × (b ≡ true)
both true b e = (refl, e)
both false b e = cc

same_name_sound :
    (a b : Name) → same_name a b ≡ true → (a.gate_name ≡ b.gate_name) × (a.qubits ≡ b.qubits)
unfolding same_name
same_name_sound a b e =
    let rest =
      same_text a.control_string b.control_string && same_text a.target_string b.target_string in
    let k = both (same_kind a.gate_name b.gate_name) (a.qubits == b.qubits && rest) e in
    (
      same_kind_sound a.gate_name b.gate_name k.0,
      (==_iff a.qubits b.qubits).0 (both (a.qubits == b.qubits) rest k.1).0,
    )

other : (a b : Bool) → a ≡ false → (a || b) ≡ true → b ≡ true
other a b n e = ground arith

IsDeclared-Accepts :
    (arity : GateKind → ℕ) (ds : List Declaration) (name : Name) (v : Option TensorValue)
    (t : ValueType)
    → All (IsProper arity) ds
    → has_func ds name ≡ true
    → IsArgument (argument_of (arity name.gate_name)) v
    → t ≡ matrix_of name.qubits
    → Accepts ds name v t
unfolding has_func
IsDeclared-Accepts arity [] name v t p h a r = cc
IsDeclared-Accepts arity (d ∷ ds) name v t p h a r = elim (Bool-cases (same_name d.name name)) [
  | inl e ↦
      let same = same_name_sound d.name name e in
      rw e (
        subst (λ o. IsArgument o v) (sym (ap (λ k. argument_of (arity k)) same.0) ∙ sym p.0.0) a,
        r ∙ sym (p.0.1 ∙ ap matrix_of same.1),
      )
  | inr n ↦ rw n (
      IsDeclared-Accepts arity ds name v t p.1
        (other (same_name d.name name) (has_func ds name) n h) a r)
]

module _ {F : Type 0} where
  pub Calls-IsTypedCall :
      (arity : GateKind → ℕ) (ds : List Declaration) (is : List (Instruction F))
      → All (IsProper arity) ds
      → Calls arity ds is
      → All (IsTypedCall ds) is
  Calls-IsTypedCall arity ds [] p h = tt
  Calls-IsTypedCall arity ds (i ∷ is) p h = (typed i h.0, Calls-IsTypedCall arity ds is p h.1)
    where
      typed : (i : Instruction F) → IsDeclared arity ds i → IsTypedCall ds i
      typed (constant_complex s vs) k = tt
      typed (constant_double vs) k = tt
      typed (empty s) k = tt
      typed (call name v t) k = IsDeclared-Accepts arity ds name v t p k.0 k.1 k.2
      typed (mul a b) k = tt
      typed (generic_mul a b c s) k = tt
      typed (matvec a b c s) k = tt
      typed (matmul a b c s) k = tt
