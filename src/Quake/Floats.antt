-- ===== src/Quake/Floats.antt =====
-- Floating-point arithmetic, which the sources take from C++: its operations are parameters. Of
-- lib/Support/CodeGen/Quake/QuakeOperations.cpp, the functions on constants and parameters.
use mqss_passes_suite.Base.{ℤ, negsuc, Bool, List, map}
use mqss_passes_suite.Quake.Ops.{Parameter, constant, computed, Op, plain, arith_constant}

-- `narrow` is a `double` converted to `float` and back, `equal` is `==`.
pub record Floats (F : Type 0) : Type 0 where
  pub add : F → F → F
  pub subtract : F → F → F
  pub multiply : F → F → F
  pub divide : F → F → F
  pub negate : F → F
  pub of_int : ℤ → F
  pub narrow : F → F
  pub floor : F → F
  pub fmod : F → F → F
  pub equal : F → F → Bool
  pub pi : F
  pub half_pi : F
  pub quarter_pi : F

module _ {F : Type 0} (fl : Floats F) where
  -- createFloatValue
  abbrev pub create_float_value : F → Op F
  create_float_value a = plain (arith_constant a)

  -- extractDoubleArgumentValue, on the operation that defines a parameter.
  unfoldable pub extract_double_argument_value : Parameter F → F
  extract_double_argument_value (constant a) = fl.narrow a
  extract_double_argument_value (computed n) = fl.of_int (negsuc 0)

  -- getParametersValues
  unfoldable pub get_parameters_values : List (Parameter F) → List F
  unfolding extract_double_argument_value
  get_parameters_values array = map extract_double_argument_value array
