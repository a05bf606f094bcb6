-- ===== src/Tools/Main.antt =====
-- The `main` of the tools: tools/qasm-to-quake.cpp, tools/cpp-to-only-quake.cpp and
-- tools/quake-to-tikz.cpp.
use mqss_passes_suite.Base.{
  Bool, false, ◌||◌, if◌then◌else◌, List, [], ◌∷◌, ◌++◌, Option, none, some,
}
use mqss_passes_suite.Tools.Texts.{
  Text, bytes, same_text, has_extension, file_name_from, match_name, without_separators,
}
use mqss_passes_suite.Tools.Files.{
  aborts, World, print, input_not_set, input_file, input_invalid, kernel_is, fatal_error, Run,
  goes_on, returns, throws, ◌▷◌, Machine, Options, check_help, check_output, extract_mlir_context,
  read_module, write_output,
}

-- What the stream of a file gives, which is nothing if there is no such file.
abbrev pub contents : Option Text → Text
contents none = []
contents (some content) = content

-- The option `input` of qasm-to-quake: the name and the program.
unfoldable pub read_qasm : Option Text → World → Run (Text × Text)
read_qasm none w = returns 1 (print input_not_set w)
read_qasm (some input) w =
    if has_extension input (bytes ".qasm")
    then goes_on (input, contents (w.files input)) (print (input_file input) w)
    else returns 1 (print (input_invalid input) w)

-- The name of the kernel.
unfoldable pub get_kernel_name : Text → World → Run Text
unfolding match_name
get_kernel_name input w = elim (match_name (file_name_from [] input)) [
  | none ↦ throws fatal_error w
  | some group ↦ goes_on (without_separators group) (print (kernel_is (without_separators group)) w)
]

-- templateEmptyQuake
unfoldable template_empty_quake : Text
template_empty_quake =
    bytes "module attributes {  llvm.data_layout = "
    ++ (bytes "\"e-m:e-p270:32:32-p271:32:32-p272:64:64-i64:64-f80:128-n8:16:32:64-S128\", "
        ++ (bytes "  llvm.triple = \"x86_64-unknown-linux-gnu\", "
            ++ (bytes "  quake.mangled_name_map = {__nvqpp__mlirgen__KERNELNAME = \"FUNCTIONNAME\"}"
                ++ (bytes "} {  func.func @__nvqpp__mlirgen__KERNELNAME() attributes "
                    ++ (bytes "{\"cudaq-entrypoint\", \"cudaq-kernel\"} {   return  }"
                        ++ bytes
                            "  func.func @FUNCTIONNAME(%arg0: !cc.ptr<i8>) {    return  }}")))))

module _ {M : Type 0} (m : Machine M) where
  unfoldable pub get_empty_quake_kernel : Text → Text → Text
  unfolding template_empty_quake
  get_empty_quake_kernel kernel_name function_name =
      m.regex_replace (m.regex_replace template_empty_quake (bytes "KERNELNAME") kernel_name)
        (bytes "FUNCTIONNAME") function_name

  -- `main` of qasm-to-quake. `run` is the pass manager with QASM3ToQuake on a program and a
  -- module: the module after it, and whether the run failed, or none where an assertion of the pass
  -- stops the program. `to_text` prints a module.
  unfoldable pub qasm_to_quake :
      (Text → M → Option (M × Bool)) → (M → Text) → Options → World → Run Unit
  qasm_to_quake run to_text o w = check_help o w ▷ λ _ w1. read_qasm o.input w1 ▷ λ source w2.
      check_output (bytes ".qke") o.output w2 ▷ λ output w3.
      get_kernel_name source.0 w3 ▷ λ name w4.
      extract_mlir_context m (get_empty_quake_kernel name (bytes "_function")) w4 ▷ λ parsed w5.
      elim (run source.1 parsed) [
        | none ↦ aborts w5
        | some r ↦ write_output m output (to_text r.0) w5
      ]

  -- `main` of quake-to-tikz. `run` is the pass manager with QuakeToTikz: what the pass wrote, and
  -- whether the run failed, or none where the pass stops the program.
  unfoldable pub quake_to_tikz : (M → Option (Text × Bool)) → Options → World → Run Unit
  quake_to_tikz run o w = check_help o w ▷ λ _ w1. read_module m o.input w1 ▷ λ quake_module w2.
      check_output (bytes ".tikz") o.output w2 ▷ λ output w3.
      extract_mlir_context m quake_module w3 ▷ λ parsed w4. elim (run parsed) [
        | none ↦ aborts w4
        | some r ↦ write_output m output r.0 w4
      ]

-- A function of a module: the names of its attributes, and its text.
pub record FuncOp : Type 0 where
  pub attributes : List Text
  pub text : Text

unfoldable pub has_attribute : Text → List Text → Bool
has_attribute name [] = false
has_attribute name (a ∷ rest) = same_text a name || has_attribute name rest

unfoldable pub is_cudaq_kernel : FuncOp → Bool
unfolding has_attribute
is_cudaq_kernel f = has_attribute (bytes "cudaq-kernel") f.attributes

-- getCudaqKernelsAsString, of the functions that the walk of a module meets.
unfoldable pub get_cudaq_kernels_as_string : List FuncOp → Text
unfolding is_cudaq_kernel
get_cudaq_kernels_as_string [] = []
get_cudaq_kernels_as_string (f ∷ fs) =
    let rest = get_cudaq_kernels_as_string fs in
    if is_cudaq_kernel f then f.text ++ (bytes "\n" ++ rest) else rest

module _ {M : Type 0} (m : Machine M) where
  -- `main` of cpp-to-only-quake. `functions` are those that the walk of a module meets.
  unfoldable pub cpp_to_only_quake : (M → List FuncOp) → Options → World → Run Unit
  cpp_to_only_quake functions o w = check_help o w ▷ λ _ w1.
      read_module m o.input w1 ▷ λ quake_module w2.
      check_output (bytes ".qke") o.output w2 ▷ λ output w3.
      extract_mlir_context m quake_module w3 ▷ λ parsed w4.
      write_output m output (get_cudaq_kernels_as_string (functions parsed)) w4
