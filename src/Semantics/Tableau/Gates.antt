-- ===== src/Semantics/Tableau/Gates.antt =====
-- The Clifford gates on Pauli strings, and the model. A gate that no law names is the identity
-- here, and so is one with other numbers of qubits.
use mqss_passes_suite.Base.{
  ◌≡◌, ◌≢◌, refl, subst, false, ◌&&◌, not, List, [], ◌∷◌, All, Option, none, some,
}
use mqss_passes_suite.Quake.Ops.{Value}
use mqss_passes_suite.Semantics.Model.{
  Unitary, pauli_x, pauli_y, pauli_z, hadamard, phase_s, general, Apart,
}
use mqss_passes_suite.Semantics.Tableau.Local.{
  xor, Tableau, One, Two, local_two, one, local_two_comm,
}

-- The image of the string at the qubit, and whether the sign changes.
abbrev pub single_bits : {F : Type 0} → Unitary F → One
single_bits pauli_x (x, z) = ((x, z), z)
single_bits pauli_y (x, z) = ((x, z), xor x z)
single_bits pauli_z (x, z) = ((x, z), x)
single_bits hadamard (x, z) = ((z, x), x && z)
single_bits (phase_s adj) (x, z) = ((x, xor z x), x && xor adj z)
single_bits (general k adj ps) (x, z) = ((x, z), false)

abbrev pub controlled_bits : {F : Type 0} → Unitary F → Two
controlled_bits pauli_x (x, z) (x', z') =
    ((x, xor z z'), (xor x' x, z'), x && (z' && not (xor x' z)))
controlled_bits pauli_z (x, z) (x', z') = ((x, xor z x'), (x', xor z' x), x && (x' && xor z z'))
controlled_bits _ a b = (a, b, false)

abbrev pub bits_by : {F : Type 0} → List Value → Unitary F → Two
bits_by [] u = one (single_bits u)
bits_by (c ∷ cs) u = controlled_bits u

abbrev pub qubits : List Value → List Value → Option (Value × Value)
qubits [] (q ∷ []) = some (q, q)
qubits (c ∷ []) (t ∷ []) = some (c, t)
qubits _ _ = none

abbrev pub act : Option (Value × Value) → Two → Tableau → Tableau
act none f s = s
act (some (c, t)) f s = local_two f c t s

abbrev pub tableau_apply : {F : Type 0} → Unitary F → List Value → List Value → Tableau → Tableau
tableau_apply u cs ts s = act (qubits cs ts) (bits_by cs u) s

qubits_within :
    (P : Value → Type 0) (cs ts : List Value) (c t : Value)
    → All P cs
    → All P ts
    → qubits cs ts ≡ some (c, t)
    → P c × P t
qubits_within P [] [] c t h k e = cc
qubits_within P [] (q ∷ []) c t h k e =
    let a : q ≡ c = cc in let b : q ≡ t = cc in (subst P a k.0, subst P b k.0)
qubits_within P [] (q ∷ r ∷ rs) c t h k e = cc
qubits_within P (p ∷ []) [] c t h k e = cc
qubits_within P (p ∷ []) (q ∷ []) c t h k e =
    let a : p ≡ c = cc in let b : q ≡ t = cc in (subst P a h.0, subst P b k.0)
qubits_within P (p ∷ []) (q ∷ r ∷ rs) c t h k e = cc
qubits_within P (p ∷ p' ∷ ps) ts c t h k e = cc

act_comm :
    (o o' : Option (Value × Value)) (f g : Two) (s : Tableau)
    → ((c t d u : Value) → o ≡ some (c, t) → o' ≡ some (d, u) → (c ≢ d × c ≢ u) × (t ≢ d × t ≢ u))
    → act o f (act o' g s) ≡ act o' g (act o f s)
act_comm none o' f g s h = refl
act_comm (some (c, t)) none f g s h = refl
act_comm (some (c, t)) (some (d, u)) f g s h =
    let apart = h c t d u refl refl in
    local_two_comm c t d u apart.0.0 apart.0.1 apart.1.0 apart.1.1 f g s

module _ {F : Type 0} where
  pub tableau_commute :
      (u v : Unitary F) (cs ts ds us : List Value) (s : Tableau)
      → Apart cs ds
      → Apart cs us
      → Apart ts ds
      → Apart ts us
      → tableau_apply u cs ts (tableau_apply v ds us s)
        ≡ tableau_apply v ds us (tableau_apply u cs ts s)
  tableau_commute u v cs ts ds us s cd cu td tu =
      act_comm (qubits cs ts) (qubits ds us) (bits_by cs u) (bits_by ds v) s λ c t d w e e'.
        let to_d = qubits_within (λ q. All (λ r. q ≢ r) ds) cs ts c t cd td e in
        let to_u = qubits_within (λ q. All (λ r. q ≢ r) us) cs ts c t cu tu e in
        (
          qubits_within (λ r. c ≢ r) ds us d w to_d.0 to_u.0 e',
          qubits_within (λ r. t ≢ r) ds us d w to_d.1 to_u.1 e',
        )
