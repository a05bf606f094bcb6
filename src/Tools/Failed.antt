-- ===== src/Tools/Failed.antt =====
-- Failed runs of a pass in tools/qasm-to-quake.cpp and tools/quake-to-tikz.cpp.
use mqss_passes_suite.Base.{◌≡◌, refl, ap, Bool, Option, none, some}
use mqss_passes_suite.Tools.Texts.{Text, bytes}
use mqss_passes_suite.Tools.Files.{
  World, Run, goes_on, returns, throws, aborts, ◌▷◌, Machine, Options, check_help, check_output,
  extract_mlir_context, read_module, write_output,
}
use mqss_passes_suite.Tools.Main.{
  read_qasm, get_kernel_name, get_empty_quake_kernel, qasm_to_quake, quake_to_tikz,
}

-- What a run of a pass leaves, without the report on whether it failed.
abbrev pub left : {A : Type 0} → Option (A × Bool) → Option A
left none = none
left (some r) = some r.0

same_rest :
    {A B : Type 0} (r : Run A) (f g : A → World → Run B)
    → ((a : A) (w : World) → f a w ≡ g a w)
    → (r ▷ f) ≡ (r ▷ g)
same_rest (goes_on a w) f g h = h a w
same_rest (returns c w) f g h = refl
same_rest (throws e w) f g h = refl
same_rest (aborts w) f g h = refl

module _ {M : Type 0} (m : Machine M) where
  same_end :
      {A : Type 0} (to_text : A → Text) (output : Text) (w : World) (x y : Option (A × Bool))
      → left x ≡ left y
      → (elim x as (λ _. Run Unit) [
        | none ↦ aborts w
        | some r ↦ write_output m output (to_text r.0) w
      ])
        ≡ (elim y as (λ _. Run Unit) [
          | none ↦ aborts w
          | some r ↦ write_output m output (to_text r.0) w
        ])
  same_end to_text output w none none h = refl
  same_end to_text output w none (some r) h = absurd (cc h)
  same_end to_text output w (some r) none h = absurd (cc h)
  same_end to_text output w (some r) (some q) h =
      ap (λ a. write_output m output (to_text a) w) (cc h)

  -- Whether the run of the pass failed makes no difference to qasm-to-quake and quake-to-tikz: with
  -- two runs that leave the same, or both stop the program, they end alike on all options and
  -- files, with the same files, exit code and messages.
  pub failed_run_ignored :
      (run run' : Text → M → Option (M × Bool)) (draw draw' : M → Option (Text × Bool))
      (to_text : M → Text) (o : Options) (w : World)
      → ((program : Text) (parsed : M) → left (run program parsed) ≡ left (run' program parsed))
      → ((parsed : M) → left (draw parsed) ≡ left (draw' parsed))
      → (qasm_to_quake m run to_text o w ≡ qasm_to_quake m run' to_text o w)
        × (quake_to_tikz m draw o w ≡ quake_to_tikz m draw' o w)
  unfolding qasm_to_quake quake_to_tikz
  failed_run_ignored run run' draw draw' to_text o w h k = (
    same_rest (check_help o w) _ _ (λ _ w1. same_rest (read_qasm o.input w1) _ _ (λ source w2.
        same_rest (check_output (bytes ".qke") o.output w2) _ _ (λ output w3.
          same_rest (get_kernel_name source.0 w3) _ _ (λ name w4.
            same_rest
              (extract_mlir_context m (get_empty_quake_kernel m name (bytes "_function")) w4) _ _
              (λ parsed w5.
                same_end to_text output w5 (run source.1 parsed) (run' source.1 parsed)
                  (h source.1 parsed)))))),
    same_rest (check_help o w) _ _ (λ _ w1. same_rest (read_module m o.input w1) _ _ (λ text w2.
        same_rest (check_output (bytes ".tikz") o.output w2) _ _ (λ output w3.
          same_rest (extract_mlir_context m text w3) _ _
            (λ parsed w4. same_end (λ t. t) output w4 (draw parsed) (draw' parsed) (k parsed))))),
  )
