-- ===== src/Tools/Stages.antt =====
-- The parts of the `main` of the tools of tools/: when each goes on and when it ends the tool.
use mqss_passes_suite.Base.{
  [], pos, ◌≡◌, refl, ◌∙◌, ap, sym, subst, ◌==ℤ◌, Bool, true, false, Option, none, some, ◌++◌,
}
use mqss_passes_suite.Tools.Texts.{
  Text, bytes, has_extension, file_name_from, match_name, without_separators,
}
use mqss_passes_suite.Tools.Files.{
  Files, World, Run, goes_on, returns, throws, aborts, ◌▷◌, Machine, Options, check_help,
  check_output, print, input_file, output_file, kernel_is, written, change_file,
  extract_mlir_context, read_file_to_string, lower_cpp_to_quake, read_module, write_output,
}
use mqss_passes_suite.Tools.Main.{contents, read_qasm, get_kernel_name}

-- An option is set to a name with an extension.
abbrev pub is_named : Text → Option Text → Bool
is_named extension none = false
is_named extension (some name) = has_extension name extension

-- `main` returns 1 and has changed no file.
abbrev pub IsRefusal : {A : Type 0} → World → Run A → Type 0
IsRefusal w (goes_on _ v) = ⊥
IsRefusal w (returns c v) = (c ≡ 1) × (v.files ≡ w.files)
IsRefusal w (throws e v) = ⊥
IsRefusal w (aborts v) = ⊥

-- A part goes on with a value and the files of before.
abbrev pub GoesOn : {A : Type 0} → World → Run A → Type 0
GoesOn w (goes_on _ v) = v.files ≡ w.files
GoesOn w (returns c v) = ⊥
GoesOn w (throws e v) = ⊥
GoesOn w (aborts v) = ⊥

pub next_part :
    {A B : Type 0} (P : Run B → Type 0) (r : Run A) (f : A → World → Run B) (a : A) (w : World)
    → r ≡ goes_on a w
    → P (f a w)
    → P (r ▷ f)
next_part P r f a w h k = subst (λ s. P (s ▷ f)) (sym h) k

pub refuse :
    {A B : Type 0} (w : World) (r : Run A) (f : A → World → Run B)
    → IsRefusal w r
    → IsRefusal w (r ▷ f)
refuse w (goes_on a v) f h = absurd h
refuse w (returns c v) f h = h
refuse w (throws e v) f h = absurd h
refuse w (aborts v) f h = absurd h

pub refuse_later :
    {A B : Type 0} (w : World) (r : Run A) (f : A → World → Run B)
    → GoesOn w r
    → ((a : A) (v : World) → v.files ≡ w.files → IsRefusal v (f a v))
    → IsRefusal w (r ▷ f)
refuse_later w (goes_on a v) f h k = same_files w v (f a v) h (k a v h)
  where
    same_files :
        {B : Type 0} (w v : World) (r : Run B) → v.files ≡ w.files → IsRefusal v r → IsRefusal w r
    same_files w v (goes_on b u) h k = absurd k
    same_files w v (returns c u) h k = (k.0, k.1 ∙ h)
    same_files w v (throws e u) h k = absurd k
    same_files w v (aborts u) h k = absurd k
refuse_later w (returns c v) f h k = absurd h
refuse_later w (throws e v) f h k = absurd h
refuse_later w (aborts v) f h k = absurd h

pub check_help-IsRefusal : (o : Options) (w : World) → o.help ≡ true → IsRefusal w (check_help o w)
unfolding check_help
check_help-IsRefusal o w h = rw h (refl, refl)

pub check_help-GoesOn : (o : Options) (w : World) → o.help ≡ false → GoesOn w (check_help o w)
unfolding check_help
check_help-GoesOn o w h = rw h refl

pub read_qasm-IsRefusal :
    (input : Option Text) (w : World)
    → is_named (bytes ".qasm") input ≡ false
    → IsRefusal w (read_qasm input w)
unfolding read_qasm
read_qasm-IsRefusal none w h = (refl, refl)
read_qasm-IsRefusal (some name) w h = rw h (refl, refl)

pub read_qasm-GoesOn :
    (input : Option Text) (w : World)
    → is_named (bytes ".qasm") input ≡ true
    → GoesOn w (read_qasm input w)
unfolding read_qasm
read_qasm-GoesOn none w h = cc
read_qasm-GoesOn (some name) w h = rw h refl

pub read_qasm_lem :
    (input : Text) (w : World)
    → has_extension input (bytes ".qasm") ≡ true
    → read_qasm (some input) w
      ≡ goes_on (input, contents (w.files input)) (print (input_file input) w)
unfolding read_qasm
read_qasm_lem input w h = rw h refl

pub check_output-IsRefusal :
    (extension : Text) (output : Option Text) (w : World)
    → is_named extension output ≡ false
    → IsRefusal w (check_output extension output w)
unfolding check_output
check_output-IsRefusal extension none w h = (refl, refl)
check_output-IsRefusal extension (some name) w h = rw h (refl, refl)

pub check_output_lem :
    (extension output : Text) (w : World)
    → has_extension output extension ≡ true
    → check_output extension (some output) w ≡ goes_on output (print (output_file output) w)
unfolding check_output
check_output_lem extension output w h = rw h refl

pub get_kernel_name_lem :
    (input group : Text) (w : World)
    → match_name (file_name_from [] input) ≡ some group
    → get_kernel_name input w
      ≡ goes_on (without_separators group) (print (kernel_is (without_separators group)) w)
unfolding get_kernel_name
get_kernel_name_lem input group w h = rw (get_kernel_name, h) refl

pub read_file_lem :
    (path text : Text) (w : World)
    → w.files path ≡ some text
    → read_file_to_string path w ≡ (text, w)
unfolding read_file_to_string
read_file_lem path text w h = rw (read_file_to_string, h) refl

-- The commands of lowerCppToQuake, and the files that it removes.
abbrev quake_command : Text → Text
quake_command cpp_file = bytes "cudaq-quake " ++ (cpp_file ++ bytes " -o ./o.qke")

abbrev opt_command : Text
opt_command = bytes "cudaq-opt --canonicalize --unrolling-pipeline o.qke -o ./kernel.qke"

abbrev pub without_intermediates : Files → Files
without_intermediates files =
    change_file (bytes "./kernel.qke") none (change_file (bytes "./o.qke") none files)

module _ {M : Type 0} (m : Machine M) where
  pub extract_mlir_context_lem :
      (quake_module : Text) (parsed : M) (w : World)
      → m.parse_source_string quake_module ≡ some parsed
      → extract_mlir_context m quake_module w ≡ goes_on parsed w
  unfolding extract_mlir_context
  extract_mlir_context_lem quake_module parsed w h = rw (extract_mlir_context, h) refl

  pub write_output_lem :
      (output content : Text) (w : World)
      → m.opens_for_writing output w.files ≡ true
      → write_output m output content w
        ≡ returns 0 (
            print (written output) (record w { files = change_file output (some content) w.files }))
  unfolding write_output
  write_output_lem output content w h = rw h refl

  -- A Quake module is read as it is.
  pub read_module-quake :
      (input text : Text) (w : World)
      → has_extension input (bytes ".cpp") ≡ false
      → has_extension input (bytes ".qke") ≡ true
      → w.files input ≡ some text
      → read_module m (some input) w ≡ goes_on text (print (input_file input) w)
  unfolding read_module
  read_module-quake input text w c q h =
      rw (c, q)
        (ap (λ r. goes_on r.0 (print (input_file input) r.1)) (read_file_lem input text w h))

  -- The files after the two commands on a C++ program, if both return 0.
  abbrev pub lowered_files : Text → Files → Files
  lowered_files cpp_file files =
      (m.system opt_command (m.system (quake_command cpp_file) files).1).1

  abbrev pub IsLowered : Text → Files → Type 0
  IsLowered cpp_file files =
      (((m.system (quake_command cpp_file) files).0 ==ℤ pos 0) ≡ true)
      × (((m.system opt_command (m.system (quake_command cpp_file) files).1).0 ==ℤ pos 0) ≡ true)

  -- A C++ program is read as the module that the commands make of it, and their files are gone.
  pub read_module-cpp :
      (input text : Text) (w : World)
      → has_extension input (bytes ".cpp") ≡ true
      → IsLowered input w.files
      → lowered_files input w.files (bytes "./kernel.qke") ≡ some text
      → read_module m (some input) w
        ≡ goes_on text (
            print
              (input_file input)
              (record w { files = without_intermediates (lowered_files input w.files) }))
  unfolding read_module lower_cpp_to_quake
  read_module-cpp input text w c h t =
      rw (c, h.0, h.1)
        (ap
          (λ r.
            goes_on r.0
              (print (input_file input) (record r.1 { files = without_intermediates r.1.files })))
          (read_file_lem (bytes "./kernel.qke") text
            (record w { files = lowered_files input w.files }) t))
