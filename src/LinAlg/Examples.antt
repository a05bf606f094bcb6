-- ===== src/LinAlg/Examples.antt =====
-- Runs of lib/Passes/CodeGen/QuakeToLinAlg.cpp on small modules.
use mqss_passes_suite.Base.{
  arith, ℕ, ◌+◌, ◌/◌, ◌%◌, ◌≡◌, refl, ltb, ℤ, pos, negsuc, true, false, if◌then◌else◌, List, [],
  ◌∷◌, All, Post,
}
use mqss_passes_suite.Quake.Ops.{x_op, Gate, extract_ref}
use mqss_passes_suite.Quake.Examples.{numbers, bell}
use mqss_passes_suite.Quake.Query.{get_number_of_qubits}
use mqss_passes_suite.LinAlg.Convert.{function_name, ModuleFunction, quake_to_lin_alg}
use mqss_passes_suite.LinAlg.Declared.{IsDistinct}
use mqss_passes_suite.LinAlg.Module.{
  IsTypedFunction, AllTypedCalls, IsSmall, quake_to_lin_alg-IsTypedFunction,
}

-- The decimal digits of a number below 100, as characters.
abbrev decimal : ℤ → List ℕ
decimal (pos n) = if ltb n 10 then (n + 48) ∷ [] else (n / 10 + 48) ∷ (n % 10 + 48) ∷ []
decimal (negsuc n) = 45 ∷ (n + 49) ∷ []

abbrev bell_module : List (ModuleFunction ℕ)
bell_module =
    record { is_cudaq_kernel = true; body = bell }
    ∷ record { is_cudaq_kernel = false; body = bell }
    ∷ record { is_cudaq_kernel = true; body = bell }
    ∷ []

bell-IsSmall : IsSmall (λ k. 0) (record { is_cudaq_kernel = true; body = bell })
unfolding get_number_of_qubits
bell-IsSmall e = ((tt, (refl, (refl, (tt, (tt, tt))))), omega arith)

IsTypedFunction-example :
    Post ⊥
      (λ r. All IsTypedFunction r.0 × AllTypedCalls r.1 r.0 × IsDistinct r.1)
      (quake_to_lin_alg numbers decimal bell_module [])
IsTypedFunction-example =
    quake_to_lin_alg-IsTypedFunction (λ k. 0) numbers decimal bell_module []
      (bell-IsSmall, ((λ e. cc), (bell-IsSmall, tt))) tt tt

-- A controlled X on qubit 0 with two controls.
abbrev ccx_gate : ℕ → ℕ → Gate ℕ
ccx_gate c d = record {
  kind = x_op;
  is_adj = false;
  parameters = [];
  controls = extract_ref 0 c ∷ extract_ref 0 d ∷ [];
  targets = extract_ref 0 0 ∷ [];
}

-- The controls 1 and 12 give the name that 11 and 2 give.
names_collide :
    function_name numbers decimal 20 (ccx_gate 1 12)
    ≡ function_name numbers decimal 20 (ccx_gate 11 2)
unfolding function_name
names_collide = refl
