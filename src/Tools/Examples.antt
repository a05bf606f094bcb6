-- ===== src/Tools/Examples.antt =====
-- Runs of the tools of tools/ on a machine whose modules are texts.
use mqss_passes_suite.Base.{
  Option, All, pos, List, ◌≡◌, refl, Bool, true, false, if◌then◌else◌, [], ◌∷◌, none, some,
}
use mqss_passes_suite.Tools.Texts.{
  is_separator, Text, bytes, same_text, has_extension, file_name_from, match_name,
  without_separators,
}
use mqss_passes_suite.Tools.Files.{change_file, World, Machine, Options}
use mqss_passes_suite.Tools.Stages.{IsRefusal, lowered_files, without_intermediates}
use mqss_passes_suite.Tools.Main.{qasm_to_quake, quake_to_tikz, FuncOp, cpp_to_only_quake}
use mqss_passes_suite.Tools.Names.{stem, match_name-All}
use mqss_passes_suite.Tools.Selected.{Selected}
use mqss_passes_suite.Tools.Failed.{failed_run_ignored}
use mqss_passes_suite.Tools.Outputs.{
  IsWritten, qasm_to_quake-IsRefusal, cpp_to_only_quake-IsWritten,
}

-- Every command returns 0 and writes `./kernel.qke`; every text is a module.
abbrev machine : Machine Text
machine = record {
  system = λ command files. (pos 0, change_file (bytes "./kernel.qke") (some command) files);
  opens_for_writing = λ path files. true;
  parse_source_string = λ text. some text;
  regex_replace = λ text pattern format. format;
}

abbrev disk : World
disk = record {
  files = λ p. if same_text p (bytes "in.qke") then some (bytes "module") else none;
  printed = [];
}

-- The pass fails, and leaves the program as the module.
abbrev failing : Text → Text → Option (Text × Bool)
failing program parsed = some (program, true)

abbrev two_functions : Text → List FuncOp
two_functions parsed =
    (record { attributes = bytes "cudaq-kernel" ∷ []; text = bytes "kernel" })
    ∷ (record { attributes = []; text = bytes "main" })
    ∷ []

kernel_name : match_name (file_name_from [] (bytes "dir/my-qft_4_.qasm")) ≡ some (bytes "my-qft_4")
unfolding match_name file_name_from
kernel_name = refl

kernel_name_bare : without_separators (bytes "my-qft_4") ≡ bytes "myqft4"
unfolding without_separators
kernel_name_bare = refl

abbrev wrong_output : Options
wrong_output = record { help = false; input = some (bytes "a.qasm"); output = some (bytes "a.txt") }

abbrev right_options : Options
right_options = record {
  help = false;
  input = some (bytes "a.qasm");
  output = some (bytes "a.qke");
}

IsRefusal-example : IsRefusal disk (qasm_to_quake machine failing (λ t. t) wrong_output disk)
unfolding has_extension
IsRefusal-example = qasm_to_quake-IsRefusal machine failing (λ t. t) wrong_output disk refl

IsWritten-cpp_example :
    (content : Text) × (Selected (two_functions []) content
      × IsWritten
          (record disk {
            files = without_intermediates (lowered_files machine (bytes "a.cpp") disk.files);
          })
          (bytes "a.qke")
          content
          (cpp_to_only_quake machine two_functions
            (record { help = false; input = some (bytes "a.cpp"); output = some (bytes "a.qke") })
            disk))
unfolding has_extension
IsWritten-cpp_example =
    cpp_to_only_quake-IsWritten machine two_functions (bytes "a.cpp") (bytes "a.qke")
      (bytes "cudaq-opt --canonicalize --unrolling-pipeline o.qke -o ./kernel.qke")
      (bytes "cudaq-opt --canonicalize --unrolling-pipeline o.qke -o ./kernel.qke") disk refl refl
      (refl, refl) refl refl refl

abbrev succeeding : Text → Text → Option (Text × Bool)
succeeding program parsed = some (program, false)

failed_example :
    (qasm_to_quake machine failing (λ t. t) right_options disk
      ≡ qasm_to_quake machine succeeding (λ t. t) right_options disk)
    × (quake_to_tikz machine (λ t. some (t, true)) right_options disk
        ≡ quake_to_tikz machine (λ t. some (t, false)) right_options disk)
failed_example =
    failed_run_ignored machine failing succeeding (λ t. some (t, true)) (λ t. some (t, false))
      (λ t. t) right_options disk (λ program parsed. refl) (λ parsed. refl)

kernel_name_example :
    (without_separators (bytes "my-qft_4") ≡ without_separators (stem (bytes "my-qft_4_.qasm")))
    × All (λ c. is_separator c ≡ false) (without_separators (bytes "my-qft_4"))
unfolding match_name
kernel_name_example = match_name-All (bytes "my-qft_4_.qasm") (bytes "my-qft_4") refl
