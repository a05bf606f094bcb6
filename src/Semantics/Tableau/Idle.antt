-- ===== src/Semantics/Tableau/Idle.antt =====
-- The gates that leave Pauli strings alone.
use mqss_passes_suite.Base.{◌≡◌, refl, fun_ext, Bool, true, false, List, [], ◌∷◌, arith}
use mqss_passes_suite.Quake.Ops.{GateKind, Value, Parameter}
use mqss_passes_suite.Semantics.Model.{general}
use mqss_passes_suite.Semantics.Tableau.Local.{
  Bits, Tableau, update, xor, write, local_two, same_value_iff,
}
use mqss_passes_suite.Semantics.Tableau.Gates.{tableau_apply}

update_same : (f : Value → Bits) (q : Value) → update (update f q (f q)) q (f q) ≡ f
update_same f q = fun_ext λ v. ground (arith, same_value_iff v q)

xor_right_id : (b : Bool) → xor b false ≡ b
xor_right_id true = refl
xor_right_id false = refl

-- A gate without laws and without controls.
pub general_idle :
    {F : Type 0} (k : GateKind) (adj : Bool) (ps : List (Parameter F)) (ts : List Value)
    (s : Tableau)
    → tableau_apply (general k adj ps) [] ts s ≡ s
unfolding local_two write
general_idle k adj ps [] s = refl
general_idle k adj ps (q ∷ []) s =
    λ i. record { bits = update_same s.bits q i; sign = xor_right_id s.sign i }
general_idle k adj ps (q ∷ r ∷ rs) s = refl
