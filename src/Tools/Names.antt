-- ===== src/Tools/Names.antt =====
-- The name of the kernel that tools/qasm-to-quake.cpp makes of the name of a file.
use mqss_passes_suite.Base.{
  ℕ, ◌-◌, ◌≡◌, refl, ◌∙◌, ap, false, if◌then◌else◌, Bool-cases, inl, inr, [], ◌∷◌, All, length,
  some, arith,
}
use mqss_passes_suite.Tools.Texts.{
  Text, bytes, text_until, is_separator, without_trailing, match_name, without_separators,
}

-- The separators at the end are none of the name in any case.
without_separators-without_trailing :
    (s : Text) → without_separators (without_trailing s) ≡ without_separators s
unfolding without_separators without_trailing
without_separators-without_trailing [] = refl
without_separators-without_trailing (c ∷ s) =
    one s c (without_trailing s) (without_separators-without_trailing s)
  where
    one :
        (s : Text) (c : ℕ) (t : Text)
        → without_separators t ≡ without_separators s
        → without_separators
            (elim t [ [] ↦ if is_separator c then [] else c ∷ [] | d ∷ t' ↦ c ∷ d ∷ t' ])
          ≡ (if is_separator c then without_separators s else c ∷ without_separators s)
    one s c [] h = elim (Bool-cases (is_separator c)) [
      | inl yes_c ↦ ground (arith, h, yes_c)
      | inr no_c ↦ ground (arith, h, no_c)
    ]
    one s c (d ∷ t) h = ap (λ rest. if is_separator c then rest else c ∷ rest) h

without_separators-All : (s : Text) → All (λ c. is_separator c ≡ false) (without_separators s)
unfolding without_separators
without_separators-All [] = tt
without_separators-All (c ∷ s) = elim (Bool-cases (is_separator c)) [
  | inl separates ↦ rw separates (without_separators-All s)
  | inr other ↦ rw other (other, without_separators-All s)
]

-- The name without its extension.
abbrev pub stem : Text → Text
stem name = text_until (length name - length (bytes ".qasm")) name

-- The kernel of a file has the name of the file, without the extension and without any `-` or
-- `_`: the regular expression that takes off those at the end changes nothing in it.
pub match_name-All :
    (name group : Text)
    → match_name name ≡ some group
    → (without_separators group ≡ without_separators (stem name))
      × All (λ c. is_separator c ≡ false) (without_separators group)
unfolding match_name
match_name-All name group h =
    let same : group ≡ without_trailing (stem name) = ground (arith, h) in
    (
      ap without_separators same ∙ without_separators-without_trailing (stem name),
      without_separators-All group,
    )
