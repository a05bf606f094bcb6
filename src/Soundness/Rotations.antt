-- ===== src/Soundness/Rotations.antt =====
-- CancellationNullRotation and NormalizeArgAngle on a whole kernel. What a rotation by full turns
-- does is the model's, so it is a hypothesis; a state is taken up to a global phase, which a
-- control would turn into more than that, and so the rotations have no controls.
use mqss_passes_suite.Base.{◌≡◌, List, Result, Post}
use mqss_passes_suite.Quake.Ops.{Gate, Op, operator}
use mqss_passes_suite.Quake.Floats.{Floats}
use mqss_passes_suite.Semantics.Model.{Model}
use mqss_passes_suite.Semantics.Run.{effect, run_reversed}
use mqss_passes_suite.Soundness.Turns.{IsSimple}

module _ {F : Type 0} (fl : Floats F) (m : Model F) where
  -- One call keeps the meaning.
  abbrev Step : (List (Op F) → Gate F → Result (List (Op F))) → Type 0
  Step h =
      (before : List (Op F)) (g : Gate F)
      → IsSimple (operator g)
      → Post ⊥
          (λ done.
            (s : m.State) → run_reversed m done s ≡ effect m (operator g) (run_reversed m before s))
          (h before g)
