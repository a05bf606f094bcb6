-- ===== src/Soundness/Turns.antt =====
-- Rotations by angles that differ by full turns, for CancellationNullRotation and
-- NormalizeArgAngle of lib/Passes/Transforms.
use mqss_passes_suite.Base.{
  pos, Bool, false, ◌&&◌, ◌||◌, arith, ◌≡◌, ◌∙◌, true, Bool-cases, inl, inr, List, [], ◌∷◌, map,
}
use mqss_passes_suite.Quake.Ops.{
  GateKind, rx_op, ry_op, rz_op, isa, isa_sound, computed, Parameter, constant, Gate, Op, operator,
  plain,
}
use mqss_passes_suite.Quake.Floats.{Floats, extract_double_argument_value}
use mqss_passes_suite.Passes.Rotations.{
  double_pi, check_double_pi_multiplies, is_null, is_rotation, all_null, normalized,
}
use mqss_passes_suite.Semantics.Model.{Model}
use mqss_passes_suite.Semantics.Run.{effect}

-- The classes of rotations about an axis.
abbrev pub IsTurn : GateKind → Type 0
IsTurn rx_op = Unit
IsTurn ry_op = Unit
IsTurn rz_op = Unit
IsTurn k = ⊥

third : (a b c : Bool) → a ≡ false → b ≡ false → (a || (b || c)) ≡ true → c ≡ true
third a b c ea eb e = ground arith

module _ {F : Type 0} where
  -- One angle, known at compile time.
  abbrev pub IsAngle : List (Parameter F) → Type 0
  IsAngle (constant a ∷ []) = Unit
  IsAngle _ = ⊥

  -- A rotation has no controls, and one angle that is a constant.
  abbrev pub IsSimple : Op F → Type 0
  IsSimple (operator g) = IsTurn g.kind → (g.controls ≡ []) × IsAngle g.parameters
  IsSimple (plain n) = Unit

  -- A gate with another angle.
  abbrev pub turned : Gate F → F → Op F
  turned g a = operator (record g { parameters = constant a ∷ [] })

-- When two angles are of the same turn: they differ by full turns, or by the rounding to `float`.
-- The laws are those of real numbers; for floating-point numbers they say that the relation does
-- not tell apart what rounding confuses.
pub record Angles {F : Type 0} (fl : Floats F) (Same : F → F → Type 0) : Type 0 where
  pub symmetric : (a b : F) → Same a b → Same b a
  pub transitive : (a b c : F) → Same a b → Same b c → Same a c
  pub rounded : (a : F) → Same (fl.narrow a) a
  pub zero : (a : F) → fl.equal a (fl.of_int (pos 0)) ≡ true → Same a (fl.of_int (pos 0))
  pub full_turns :
      (a : F)
      → fl.equal (fl.fmod a (fl.multiply (fl.of_int (pos 2)) fl.pi)) (fl.of_int (pos 0)) ≡ true
      → Same a (fl.of_int (pos 0))
  pub fewer_turns :
      (a b : F)
      → Same (fl.subtract a (fl.multiply (fl.multiply (fl.floor b) (fl.of_int (pos 2))) fl.pi)) a

module _ {F : Type 0} (fl : Floats F) (m : Model F) (Same : F → F → Type 0) where
  -- A rotation without controls does the same by two angles that are the same.
  abbrev pub Respects : Type 0
  Respects =
      (g : Gate F)
      → IsTurn g.kind
      → g.controls ≡ []
      → (a b : F) → Same a b
      → (s : m.State) → effect m (turned g a) s ≡ effect m (turned g b) s

module _ {F : Type 0} (fl : Floats F) (m : Model F) where
  -- A rotation without controls by the angle zero does nothing.
  abbrev pub Rests : Type 0
  Rests =
      (g : Gate F)
      → IsTurn g.kind
      → g.controls ≡ []
      → (s : m.State) → effect m (turned g (fl.of_int (pos 0))) s ≡ s

module _ {F : Type 0} where
  pub is_rotation-IsTurn : (g : Gate F) → is_rotation g ≡ true → IsTurn g.kind
  unfolding is_rotation
  is_rotation-IsTurn g e = elim (Bool-cases (isa rx_op g)) [
    | inl x ↦ rw (isa_sound rx_op g x) tt
    | inr other_x ↦ elim (Bool-cases (isa ry_op g)) [
      | inl y ↦ rw (isa_sound ry_op g y) tt
      | inr other_y ↦
          rw (isa_sound rz_op g (third (isa rx_op g) (isa ry_op g) (isa rz_op g) other_x other_y e))
            tt
    ]
  ]

module _ {F : Type 0} (fl : Floats F) (m : Model F) (Same : F → F → Type 0)
    (angles : Angles fl Same) (respects : Respects fl m Same) where
  null-zero : (a : F) → is_null fl (constant a) ≡ true → Same a (fl.of_int (pos 0))
  unfolding is_null check_double_pi_multiplies double_pi extract_double_argument_value
  null-zero a e =
      let zero = fl.of_int (pos 0) in
      let r = fl.narrow a in
      angles.transitive a r zero (angles.symmetric r a (angles.rounded a))
        elim (Bool-cases (check_double_pi_multiplies fl r)) [
          | inl full ↦ angles.full_turns r full
          | inr other ↦
              angles.zero r (second (check_double_pi_multiplies fl r) (fl.equal r zero) other e)
        ]
    where
      second : (a b : Bool) → a ≡ false → (a || b) ≡ true → b ≡ true
      second a b ea e = ground arith

  normalized-Same : (a : F) → Same (normalized fl (constant a)) a
  unfolding normalized double_pi extract_double_argument_value
  normalized-Same a =
      let r = fl.narrow a in
      let double_pi = fl.multiply (fl.of_int (pos 2)) fl.pi in
      angles.transitive (normalized fl (constant a)) r a
        (angles.fewer_turns r (fl.divide r double_pi)) (angles.rounded a)

  -- A rotation by angles that the code takes for full turns does nothing.
  pub null-Rests :
      (g : Gate F) (ps : List (Parameter F))
      → Rests fl m
      → IsTurn g.kind
      → g.controls ≡ []
      → IsAngle ps
      → all_null fl ps ≡ true
      → (s : m.State) → effect m (operator (record g { parameters = ps })) s ≡ s
  unfolding all_null
  null-Rests g [] rests t c h e s = absurd h
  null-Rests g (constant a ∷ []) rests t c h e s =
      respects g t c a (fl.of_int (pos 0)) (null-zero a (first (is_null fl (constant a)) e)) s
      ∙ rests g t c s
    where
      first : (a : Bool) → (a && true) ≡ true → a ≡ true
      first a e = ground arith
  null-Rests g (constant a ∷ p ∷ ps) rests t c h e s = absurd h
  null-Rests g (computed n ∷ ps) rests t c h e s = absurd h

  -- A rotation by the normalized angles does the same.
  pub normalized-Respects :
      (g : Gate F) (ps : List (Parameter F))
      → IsTurn g.kind
      → g.controls ≡ []
      → IsAngle ps
      → (s : m.State)
      → effect m (operator (record g { parameters = map (λ p. constant (normalized fl p)) ps })) s
        ≡ effect m (operator (record g { parameters = ps })) s
  normalized-Respects g [] t c h s = absurd h
  normalized-Respects g (constant a ∷ []) t c h s =
      respects g t c (normalized fl (constant a)) a (normalized-Same a) s
  normalized-Respects g (constant a ∷ p ∷ ps) t c h s = absurd h
  normalized-Respects g (computed n ∷ ps) t c h s = absurd h
