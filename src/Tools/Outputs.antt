-- ===== src/Tools/Outputs.antt =====
-- How the tools of tools/ end, and the files they leave.
use mqss_passes_suite.Base.{
  Option, sym, List, subst, ◌≡◌, refl, Bool, true, false, not, ◌&&◌, if◌then◌else◌, Bool-cases, inl,
  inr, some, arith,
}
use mqss_passes_suite.Tools.Texts.{Text, bytes, same_text, has_extension}
use mqss_passes_suite.Tools.Files.{
  aborts, World, Run, goes_on, returns, throws, Machine, Options, check_help, check_output,
}
use mqss_passes_suite.Tools.Stages.{
  is_named, IsRefusal, next_part, refuse, refuse_later, check_help-IsRefusal, check_help-GoesOn,
  read_qasm-IsRefusal, read_qasm-GoesOn, check_output-IsRefusal, check_output_lem,
  extract_mlir_context_lem, write_output_lem, lowered_files, IsLowered, read_module-cpp,
  without_intermediates,
}
use mqss_passes_suite.Tools.Selected.{Selected, kernels-Selected}
use mqss_passes_suite.Tools.Main.{
  read_qasm, qasm_to_quake, FuncOp, get_cudaq_kernels_as_string, cpp_to_only_quake,
}

-- `main` returns 0, the output has a content, and no other file has changed.
abbrev pub IsWritten : World → Text → Text → Run Unit → Type 0
IsWritten w output content (goes_on _ v) = ⊥
IsWritten w output content (returns c v) =
    (c ≡ 0) × ((p : Text) → v.files p ≡ (if same_text p output then some content else w.files p))
IsWritten w output content (throws e v) = ⊥
IsWritten w output content (aborts v) = ⊥

abbrev pub accepts_qasm : Options → Bool
accepts_qasm o =
    not o.help && (is_named (bytes ".qasm") o.input && is_named (bytes ".qke") o.output)

module _ {M : Type 0} (m : Machine M) (run : Text → M → Option (M × Bool))
    (to_text : M → Text) where
  -- Without an input named *.qasm and an output named *.qke, and when help is asked for,
  -- qasm-to-quake returns 1 and changes no file.
  pub qasm_to_quake-IsRefusal :
      (o : Options) (w : World)
      → accepts_qasm o ≡ false
      → IsRefusal w (qasm_to_quake m run to_text o w)
  unfolding qasm_to_quake
  qasm_to_quake-IsRefusal o w h = elim (Bool-cases o.help) [
    | inl asked ↦ refuse w (check_help o w) _ (check_help-IsRefusal o w asked)
    | inr unasked ↦ refuse_later w (check_help o w) _ (check_help-GoesOn o w unasked) (λ _ v same.
        elim (Bool-cases (is_named (bytes ".qasm") o.input)) [
          | inl named ↦
              refuse_later v (read_qasm o.input v) _ (read_qasm-GoesOn o.input v named)
                (λ _ u same'. refuse u (check_output (bytes ".qke") o.output u) _ (
                  check_output-IsRefusal (bytes ".qke") o.output u
                    (ground (arith, h, unasked, named))))
          | inr unnamed ↦ refuse v (read_qasm o.input v) _ (read_qasm-IsRefusal o.input v unnamed)
        ])
  ]

module _ {M : Type 0} (m : Machine M) where
  -- For a C++ program named *.cpp and an output named *.qke that opens for writing, where both
  -- commands return 0 and the module they make is parsed, cpp-to-only-quake returns 0 and writes to
  -- the output, in their order, the texts of the functions of that module with the attribute
  -- "cudaq-kernel", a line break behind each, and of no others. The other files are those that the
  -- commands left, less the two that the tool removes.
  pub cpp_to_only_quake-IsWritten :
      (functions : M → List FuncOp) (input output text : Text) (parsed : M) (w : World)
      → has_extension input (bytes ".cpp") ≡ true
      → has_extension output (bytes ".qke") ≡ true
      → IsLowered m input w.files
      → lowered_files m input w.files (bytes "./kernel.qke") ≡ some text
      → m.parse_source_string text ≡ some parsed
      → m.opens_for_writing output (without_intermediates (lowered_files m input w.files)) ≡ true
      → (content : Text) × (Selected (functions parsed) content
          × IsWritten
              (record w { files = without_intermediates (lowered_files m input w.files) })
              output
              content
              (cpp_to_only_quake m functions
                (record { help = false; input = some input; output = some output })
                w))
  unfolding cpp_to_only_quake check_help
  cpp_to_only_quake-IsWritten functions input output text parsed w i o c t p u =
      let content = get_cudaq_kernels_as_string (functions parsed) in
      let left = without_intermediates (lowered_files m input w.files) in
      let P = IsWritten (record w { files = left }) output content in
      (
        content,
        (
          kernels-Selected (functions parsed),
          next_part P _ _ _ _ (read_module-cpp m input text w i c t) (
              next_part P _ _ _ _ (check_output_lem (bytes ".qke") output _ o) (
                next_part P _ _ _ _ (extract_mlir_context_lem m text parsed _ p)
                  (subst P (sym (write_output_lem m output content _ u)) (refl, λ p. refl)))),
        ),
      )
