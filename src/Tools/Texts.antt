-- ===== src/Tools/Texts.antt =====
-- Texts as the tools of tools/ read them: strings of bytes, and the regular expressions of
-- tools/qasm-to-quake.cpp.
use Prim.Native.Char.{code}
use mqss_passes_suite.Base.{
  ℕ, zero, suc, ◌-◌, String, Bool, true, false, leb, ◌==◌, ◌&&◌, ◌||◌, if◌then◌else◌, List, [], ◌∷◌,
  ◌++◌, length, Option, none, some,
}

abbrev pub Text : Type 0
Text = List ℕ

abbrev pub bytes : String → Text
bytes String.[] = []
bytes (String.◌∷◌ c s) = code c ∷ bytes s

unfoldable pub same_text : Text → Text → Bool
same_text [] [] = true
same_text (a ∷ s) (b ∷ t) = a == b && same_text s t
same_text _ _ = false

-- substr(n), and substr(0, n).
unfoldable pub text_from : ℕ → Text → Text
text_from zero s = s
text_from (suc n) [] = []
text_from (suc n) (a ∷ s) = text_from n s

unfoldable pub text_until : ℕ → Text → Text
text_until zero s = []
text_until (suc n) [] = []
text_until (suc n) (a ∷ s) = a ∷ text_until n s

-- hasExtension
unfoldable pub has_extension : Text → Text → Bool
unfolding same_text text_from
has_extension filename extension =
    if leb (length extension) (length filename)
    then same_text (text_from (length filename - length extension) filename) extension
    else false

-- `filename()` of a path: what stands after its last `/`.
unfoldable pub file_name_from : Text → Text → Text
file_name_from name [] = name
file_name_from name (c ∷ path) =
    let next = file_name_from (name ++ c ∷ []) path in
    let after = file_name_from [] path in if c == 47 then after else next

-- `-` and `_`, the characters of `[-_]`.
unfoldable pub is_separator : ℕ → Bool
is_separator c = c == 45 || c == 95

-- A line feed or a carriage return, which `.` does not match.
unfoldable pub has_line_end : Text → Bool
has_line_end [] = false
has_line_end (c ∷ s) = c == 10 || c == 13 || has_line_end s

-- A text without the separators at its end.
unfoldable pub without_trailing : Text → Text
unfolding is_separator
without_trailing [] = []
without_trailing (c ∷ s) = elim (without_trailing s) [
  | [] ↦ if is_separator c then [] else c ∷ []
  | d ∷ t ↦ c ∷ d ∷ t
]

-- The group of `^(.*?)[-_]*\.qasm$` in a name, if that matches it: the group is as short as can
-- be, so it ends with no separator.
unfoldable pub match_name : Text → Option Text
unfolding has_extension text_until has_line_end without_trailing
match_name name =
    let stem = text_until (length name - length (bytes ".qasm")) name in
    if has_extension name (bytes ".qasm") && (if has_line_end stem then false else true)
    then some (without_trailing stem)
    else none

-- Without its separators: each match of `[-_]` is replaced by nothing.
unfoldable pub without_separators : Text → Text
unfolding is_separator
without_separators [] = []
without_separators (c ∷ s) =
    let rest = without_separators s in if is_separator c then rest else c ∷ rest
