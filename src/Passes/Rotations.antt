-- ===== src/Passes/Rotations.antt =====
-- lib/Passes/Transforms/CancellationNullRotation.cpp and
-- lib/Passes/Transforms/NormalizeArgAngle.cpp.
use mqss_passes_suite.Base.{
  pos, Bool, true, ◌&&◌, ◌||◌, if◌then◌else◌, List, [], ◌∷◌, ◌++◌, map, Result, ok, ◌>>=◌,
}
use mqss_passes_suite.Quake.Ops.{
  rx_op, ry_op, rz_op, Parameter, constant, Gate, Op, operator, plain, isa,
}
use mqss_passes_suite.Quake.Floats.{Floats, extract_double_argument_value, create_float_value}
use mqss_passes_suite.Passes.Walk.{on_gates, operations_on_quantum_kernel}

module _ {F : Type 0} where
  unfoldable pub is_rotation : Gate F → Bool
  unfolding isa
  is_rotation g = isa rx_op g || (isa ry_op g || isa rz_op g)

module _ {F : Type 0} (fl : Floats F) where
  -- `2 * pi`
  unfoldable pub double_pi : F
  double_pi = fl.multiply (fl.of_int (pos 2)) fl.pi

  -- checkDoublePiMultiplies
  unfoldable pub check_double_pi_multiplies : F → Bool
  unfolding double_pi
  check_double_pi_multiplies angle = fl.equal (fl.fmod angle double_pi) (fl.of_int (pos 0))

  -- The test on one parameter, for a gate that stays `deleteGate`.
  unfoldable pub is_null : Parameter F → Bool
  unfolding check_double_pi_multiplies extract_double_argument_value
  is_null p =
      let param = extract_double_argument_value fl p in
      check_double_pi_multiplies param || fl.equal param (fl.of_int (pos 0))

  unfoldable pub all_null : List (Parameter F) → Bool
  unfolding is_null
  all_null [] = true
  all_null (p ∷ ps) = is_null p && all_null ps

  -- nullRotationCancellation
  unfoldable pub null_rotation_cancellation : List (Op F) → Gate F → Result (List (Op F))
  unfolding is_rotation all_null
  null_rotation_cancellation before g =
      if is_rotation g
      then (if all_null g.parameters then ok before else ok (operator g ∷ before))
      else ok (operator g ∷ before)

  -- The angle that normalizeAngleOfRotations computes for a parameter.
  unfoldable pub normalized : Parameter F → F
  unfolding double_pi extract_double_argument_value
  normalized p =
      let param = extract_double_argument_value fl p in
      let turns = fl.floor (fl.divide param double_pi) in
      fl.subtract param (fl.multiply (fl.multiply turns (fl.of_int (pos 2))) fl.pi)

  -- normalizeAngleOfRotations: the gate that replaces a gate.
  unfoldable pub normalize_angle_of_rotations : List (Op F) → Gate F → Result (List (Op F))
  unfolding is_rotation normalized
  normalize_angle_of_rotations before g =
      if is_rotation g
      then ok (
          operator (record g { parameters = map (λ p. constant (normalized p)) g.parameters })
          ∷ before)
      else ok (operator g ∷ before)

  -- The constants that the calls on a kernel create. The builder stands before the first operation
  -- of the kernel, and each call gets a copy of it.
  unfoldable pub new_constants : List (Op F) → List (Op F)
  unfolding is_rotation normalized
  new_constants [] = []
  new_constants (operator g ∷ ops) =
      let rest = new_constants ops in
      if is_rotation g
      then map (λ p. create_float_value fl (normalized p)) g.parameters ++ rest
      else rest
  new_constants (plain n ∷ ops) = new_constants ops

  -- NormalizeArgAngle::operationsOnQuantumKernel
  unfoldable pub normalize_kernel : List (Op F) → Result (List (Op F))
  unfolding new_constants normalize_angle_of_rotations operations_on_quantum_kernel
  normalize_kernel kernel =
      operations_on_quantum_kernel (on_gates normalize_angle_of_rotations) kernel >>= λ done.
      ok (new_constants kernel ++ done)
