-- ===== src/LinAlg/Module.antt =====
-- The functions that lib/Passes/CodeGen/QuakeToLinAlg.cpp makes of the kernels of a module.
use mqss_passes_suite.Base.{
  true, ◌<◌, ℕ, ◌^◌, ◌≡◌, ℤ, Bool-cases, inl, inr, List, [], ◌∷◌, All, ok, Post, Post-bind,
  Post-map, Post-both, ◌>>=◌,
}
use mqss_passes_suite.Quake.Floats.{Floats}
use mqss_passes_suite.Quake.Query.{get_number_of_qubits}
use mqss_passes_suite.LinAlg.Tensors.{complex_f64, tensor, TensorValue}
use mqss_passes_suite.LinAlg.Convert.{
  Declaration, Builder, convert_quake_to_lin_alg, ModuleFunction, GpuFunction, quake_to_lin_alg,
}
use mqss_passes_suite.LinAlg.Typed.{IsValue, AllTyped, Holds, convert_quake_to_lin_alg-Holds}
use mqss_passes_suite.Quake.Ops.{GateKind}
use mqss_passes_suite.LinAlg.Lookup.{IsTypedCall, Calls-IsTypedCall}
use mqss_passes_suite.LinAlg.Declared.{
  Keeps, IsDistinct, IsProper, HasArity, Calls, Calls-later, Grows, convert_quake_to_lin_alg-Grows,
}

module _ {F : Type 0} where
  -- A function whose instructions are well typed, and which returns one of their results, of its
  -- result type.
  abbrev pub IsTypedFunction : GpuFunction F → Type 0
  IsTypedFunction f =
      AllTyped f.instructions
      × (IsValue f.instructions f.returned × (f.returned.value_type ≡ f.result_type))

  -- The calls in the functions fit the functions of the table that they name.
  abbrev pub AllTypedCalls : List Declaration → List (GpuFunction F) → Type 0
  AllTypedCalls ds fs = All (λ f. All (IsTypedCall ds) f.instructions) fs

  -- A kernel has fewer than 31 qubits, and each of its gates has as many parameters as `arity`
  -- says of its class.
  abbrev pub IsSmall : (GateKind → ℕ) → ModuleFunction F → Type 0
  IsSmall arity f =
      f.is_cudaq_kernel ≡ true → All (HasArity arity) f.body × (get_number_of_qubits f.body < 31)

  abbrev gpu_function : ℕ → TensorValue × Builder F → GpuFunction F
  gpu_function n r = record {
    result_type = tensor complex_f64 (2 ^ n ∷ []);
    instructions = r.1.emitted;
    returned = r.0;
  }

module _ {F : Type 0} (arity : GateKind → ℕ) where
  -- The functions call functions of the table only.
  abbrev AllCalls : List Declaration → List (GpuFunction F) → Type 0
  AllCalls ds fs = All (λ f. Calls arity ds f.instructions) fs

  AllCalls-AllTypedCalls :
      (ds : List Declaration) (fs : List (GpuFunction F))
      → All (IsProper arity) ds
      → AllCalls ds fs
      → AllTypedCalls ds fs
  AllCalls-AllTypedCalls ds [] p h = tt
  AllCalls-AllTypedCalls ds (f ∷ fs) p h =
      (Calls-IsTypedCall arity ds f.instructions p h.0, AllCalls-AllTypedCalls ds fs p h.1)

  AllCalls-later :
      (ds ds' : List Declaration) (fs : List (GpuFunction F))
      → Keeps ds ds'
      → AllCalls ds fs
      → AllCalls ds' fs
  AllCalls-later ds ds' [] k h = tt
  AllCalls-later ds ds' (f ∷ fs) k h =
      (Calls-later arity ds ds' f.instructions k h.0, AllCalls-later ds ds' fs k h.1)

  -- What the pass leaves, started with `ds`.
  abbrev Leaves : List Declaration → List (GpuFunction F) × List Declaration → Type 0
  Leaves ds r =
      All IsTypedFunction r.0
      × Keeps ds r.1
      × AllCalls r.1 r.0
      × (IsDistinct ds → IsDistinct r.1)
      × (All (IsProper arity) ds → All (IsProper arity) r.1)

module _ {F : Type 0} (arity : GateKind → ℕ) (fl : Floats F) (to_string : ℤ → List ℕ) where
  -- The function of a kernel before those of the later ones.
  kernel-Leaves :
      (n : ℕ) (fs : List (ModuleFunction F)) (ds : List Declaration) (r : TensorValue × Builder F)
      → Holds (tensor complex_f64 (2 ^ n ∷ [])) r
      → Grows arity ds r
      → Post ⊥ (Leaves arity r.1.declared) (quake_to_lin_alg fl to_string fs r.1.declared)
      → Post ⊥ (Leaves arity ds) (
          quake_to_lin_alg fl to_string fs r.1.declared >>= λ rest.
          ok (gpu_function n r ∷ rest.0, rest.1))
  kernel-Leaves n fs ds r h g rest =
      Post-bind ⊥ (Leaves arity r.1.declared) (Leaves arity ds)
        (quake_to_lin_alg fl to_string fs r.1.declared)
        (λ rest. ok (gpu_function n r ∷ rest.0, rest.1)) rest
        λ l k. (
          (h, k.0),
          (λ a e. k.1 a (g.0 a e)),
          (Calls-later arity r.1.declared l.1 r.1.emitted k.1 g.1, k.2),
          (λ d. k.3 (g.2 d)),
          (λ d. k.4 (g.3 d)),
        )

  quake_to_lin_alg-Leaves :
      (fs : List (ModuleFunction F)) (ds : List Declaration)
      → All (IsSmall arity) fs
      → Post ⊥ (Leaves arity ds) (quake_to_lin_alg fl to_string fs ds)
  unfolding quake_to_lin_alg
  quake_to_lin_alg-Leaves [] ds small = (tt, (λ a h. h), tt, (λ h. h), (λ h. h))
  quake_to_lin_alg-Leaves (f ∷ fs) ds small = elim (Bool-cases f.is_cudaq_kernel) [
    | inr h ↦ rw h (quake_to_lin_alg-Leaves fs ds small.1)
    | inl h ↦
        let n = get_number_of_qubits f.body in
        let converted = convert_quake_to_lin_alg fl to_string n f.body ds in
        rw h (
          Post-bind ⊥ (λ r. Holds (tensor complex_f64 (2 ^ n ∷ [])) r × Grows arity ds r)
            (Leaves arity ds) converted
            (λ r. quake_to_lin_alg fl to_string fs r.1.declared >>= λ rest.
              ok (gpu_function n r ∷ rest.0, rest.1))
            (Post-both (Holds (tensor complex_f64 (2 ^ n ∷ []))) (Grows arity ds) converted
              (convert_quake_to_lin_alg-Holds fl to_string n f.body ds (small.0 h).1)
              (convert_quake_to_lin_alg-Grows arity fl to_string n f.body ds (small.0 h).0))
            λ r k.
              kernel-Leaves n fs ds r k.0 k.1 (quake_to_lin_alg-Leaves fs r.1.declared small.1))
  ]

  -- On a module whose kernels have fewer than 31 qubits and, gate by gate, the number of parameters
  -- that the class of the gate has, QuakeToLinAlg returns, if the functions that it finds fit the
  -- gates of their names, and no two of them have one name. The functions that it makes have
  -- instructions that are well typed, and return a result of theirs of the result type
  -- `tensor<2^n x complex<f64>>`. Each call in them names a function that the module has at the
  -- end, with the argument and the result of that function, and no two functions have one name.
  pub quake_to_lin_alg-IsTypedFunction :
      (fs : List (ModuleFunction F)) (ds : List Declaration)
      → All (IsSmall arity) fs
      → All (IsProper arity) ds
      → IsDistinct ds
      → Post ⊥
          (λ r. All IsTypedFunction r.0 × AllTypedCalls r.1 r.0 × IsDistinct r.1)
          (quake_to_lin_alg fl to_string fs ds)
  quake_to_lin_alg-IsTypedFunction fs ds small proper distinct =
      Post-map ⊥ (Leaves arity ds)
        (λ r. All IsTypedFunction r.0 × AllTypedCalls r.1 r.0 × IsDistinct r.1)
        (quake_to_lin_alg fl to_string fs ds)
        (λ r h. (h.0, AllCalls-AllTypedCalls arity r.1 r.0 (h.4 proper) h.2, h.3 distinct))
        (quake_to_lin_alg-Leaves fs ds small)
