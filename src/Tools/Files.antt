-- ===== src/Tools/Files.antt =====
-- What the tools of tools/ share: their options, the files, what they print, how they end, and the
-- operations that each of them declares again.
use mqss_passes_suite.Base.{
  ℕ, ℤ, pos, ◌==ℤ◌, Bool, if◌then◌else◌, List, [], ◌∷◌, ◌++◌, Option, none, some,
}
use mqss_passes_suite.Tools.Texts.{Text, bytes, same_text, has_extension}

-- The contents of the files there are, by their paths as they are written.
abbrev pub Files : Type 0
Files = Text → Option Text

-- A file gets a content, or is removed.
abbrev pub change_file : Text → Option Text → Files → Files
change_file path content files = λ p. if same_text p path then content else files p

-- The lines that go to `std::cout` and `std::cerr`.
pub data Message : Type 0 where
  usage input_not_set output_extension output_not_set : Message
  input_file input_invalid output_file kernel_is error_opening written failed_to_open :
      Text → Message

pub record World : Type 0 where
  pub files : Files
  pub printed : List Message

abbrev pub print : Message → World → World
print message w = record w { printed = w.printed ++ message ∷ [] }

-- The exceptions, which nothing catches.
pub data Exception : Type 0 where
  transformation_failed module_not_parsed fatal_error : Exception

-- A part of `main`: it goes on, returns from `main`, throws, or stops the program by an assertion
-- that fails in a pass.
pub data Run (A : Type 0) : Type 0 where
  goes_on : A → World → Run A
  returns : ℕ → World → Run A
  throws : Exception → World → Run A
  aborts : World → Run A

infixl 5 ◌▷◌
abbrev pub ◌▷◌ : {A B : Type 0} → Run A → (A → World → Run B) → Run B
goes_on a w ▷ f = f a w
returns c w ▷ f = returns c w
throws e w ▷ f = throws e w
aborts w ▷ f = aborts w

-- What the tools call: `std::system` with its return code, whether a file opens for writing,
-- `parseSourceString`, and `std::regex_replace` of a text, a pattern and a format.
pub record Machine (M : Type 0) : Type 0 where
  pub system : Text → Files → ℤ × Files
  pub opens_for_writing : Text → Files → Bool
  pub parse_source_string : Text → Option M
  pub regex_replace : Text → Text → Text → Text

-- The command line, as program_options reads it, if it does not throw an exception of its own.
pub record Options : Type 0 where
  pub help : Bool
  pub input : Option Text
  pub output : Option Text

unfoldable pub check_help : Options → World → Run Unit
check_help o w = if o.help then returns 1 (print usage w) else goes_on tt w

unfoldable pub read_file_to_string : Text → World → Text × World
read_file_to_string path w = elim (w.files path) [
  | none ↦ ([], print (error_opening path) w)
  | some content ↦ (content, w)
]

-- The option `output`, which has to have an extension.
unfoldable pub check_output : Text → Option Text → World → Run Text
check_output extension none w = returns 1 (print output_not_set w)
check_output extension (some output) w =
    if has_extension output extension
    then goes_on output (print (output_file output) w)
    else returns 1 (print output_extension w)

module _ {M : Type 0} (m : Machine M) where
  -- lowerCppToQuake
  unfoldable pub lower_cpp_to_quake : Text → World → Run Text
  unfolding read_file_to_string
  lower_cpp_to_quake cpp_file w =
      let first = m.system (bytes "cudaq-quake " ++ (cpp_file ++ bytes " -o ./o.qke")) w.files in
      let second =
        m.system (bytes "cudaq-opt --canonicalize --unrolling-pipeline o.qke -o ./kernel.qke")
          first.1 in
      let r = read_file_to_string (bytes "./kernel.qke") (record w { files = second.1 }) in
      let removed =
        change_file (bytes "./kernel.qke") none (change_file (bytes "./o.qke") none r.1.files) in
      if first.0 ==ℤ pos 0
      then if second.0 ==ℤ pos 0
        then goes_on r.0 (record r.1 { files = removed })
        else throws transformation_failed (record w { files = second.1 })
      else throws transformation_failed (record w { files = first.1 })

  unfoldable pub extract_mlir_context : Text → World → Run M
  extract_mlir_context quake_module w = elim (m.parse_source_string quake_module) [
    | none ↦ throws module_not_parsed w
    | some parsed ↦ goes_on parsed w
  ]

  -- The options `input` of the tools that read C++ or Quake.
  unfoldable pub read_module : Option Text → World → Run Text
  unfolding lower_cpp_to_quake read_file_to_string
  read_module none w = returns 1 (print input_not_set w)
  read_module (some input) w =
      let lowered =
        lower_cpp_to_quake input w ▷ λ text v. goes_on text (print (input_file input) v) in
      let r = read_file_to_string input w in
      if has_extension input (bytes ".cpp")
      then lowered
      else if has_extension input (bytes ".qke")
      then goes_on r.0 (print (input_file input) r.1)
      else returns 1 (print (input_invalid input) w)

  -- The output is written, if its file opens. Both ways `main` returns 0.
  unfoldable pub write_output : Text → Text → World → Run Unit
  write_output output content w =
      if m.opens_for_writing output w.files
      then returns 0
          (print (written output) (record w { files = change_file output (some content) w.files }))
      else returns 0 (print (failed_to_open output) w)
