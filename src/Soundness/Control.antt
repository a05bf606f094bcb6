-- ===== src/Soundness/Control.antt =====
-- A gate with one control and one target.
use mqss_passes_suite.Base.{ℕ, ◌≡◌, ◌≢◌, [], ◌∷◌, All, subst}
use mqss_passes_suite.Quake.Ops.{GateKind, Gate, operator}
use mqss_passes_suite.Semantics.Model.{Model, Apart}
use mqss_passes_suite.Semantics.Run.{effect}
use mqss_passes_suite.Soundness.Shape.{InRegister, IsPlaced, IsControlled}
use mqss_passes_suite.Soundness.Pair.{unitary_as}

module _ {F : Type 0} {r : ℕ} {k : GateKind} {g : Gate F} (c : IsControlled k g)
    (h : IsPlaced r (operator g)) where
  pub control-InRegister : InRegister r c.control
  control-InRegister = (subst (All (InRegister r)) c.controls h.0).0

  pub target-InRegister : InRegister r c.target
  target-InRegister = (subst (All (InRegister r)) c.targets h.1).0

pub control-ne-target :
    {F : Type 0} {k : GateKind} {g : Gate F} (c : IsControlled k g)
    → Apart g.controls g.targets
    → c.control ≢ c.target
control-ne-target {g} c h =
    (subst (Apart (c.control ∷ [])) c.targets (subst (λ cs. Apart cs g.targets) c.controls h)).0.0

pub effect-IsControlled :
    {F : Type 0} (m : Model F) (k : GateKind) (g : Gate F) (c : IsControlled k g) (s : m.State)
    → effect m (operator g) s ≡ m.apply (unitary_as k g) (c.control ∷ []) (c.target ∷ []) s
unfolding effect
effect-IsControlled m k g c s = cc (c.kind, c.controls, c.targets)
