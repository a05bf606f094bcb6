-- ===== src/Tools/Selected.antt =====
-- The kernels that tools/cpp-to-only-quake.cpp selects.
use mqss_passes_suite.Base.{
  ◌≡◌, refl, ap, ==_iff, true, Bool-cases, ◌⊎◌, inl, inr, List, [], ◌∷◌, ◌++◌, arith,
}
use mqss_passes_suite.Tools.Texts.{Text, bytes, same_text}
use mqss_passes_suite.Tools.Main.{
  FuncOp, has_attribute, is_cudaq_kernel, get_cudaq_kernels_as_string,
}

same_text_sound : (s t : Text) → same_text s t ≡ true → s ≡ t
unfolding same_text
same_text_sound [] [] h = refl
same_text_sound [] (b ∷ t) h = absurd (ground (arith, h))
same_text_sound (a ∷ s) [] h = absurd (ground (arith, h))
same_text_sound (a ∷ s) (b ∷ t) h =
    let first : a ≡ b = (==_iff a b).0 (ground (arith, h)) in
    let rest : s ≡ t = same_text_sound s t (ground (arith, h)) in cc (first, rest)

same_text_refl : (s : Text) → same_text s s ≡ true
unfolding same_text
same_text_refl [] = refl
same_text_refl (a ∷ s) = ground (arith, (==_iff a a).1 refl, same_text_refl s)

-- A name is among the attributes.
abbrev pub IsAttribute : Text → List Text → Type 0
IsAttribute name [] = ⊥
IsAttribute name (a ∷ rest) = (a ≡ name) ⊎ IsAttribute name rest

-- The texts of the functions with the attribute "cudaq-kernel", each with a line break.
pub data Selected : List FuncOp → Text → Type 0 where
  nothing : Selected [] []
  taken :
      {f : FuncOp} {fs : List FuncOp} {rest : Text}
      → IsAttribute (bytes "cudaq-kernel") f.attributes
      → Selected fs rest
      → Selected (f ∷ fs) (f.text ++ 10 ∷ rest)
  passed_over :
      {f : FuncOp} {fs : List FuncOp} {rest : Text}
      → ¬ IsAttribute (bytes "cudaq-kernel") f.attributes
      → Selected fs rest
      → Selected (f ∷ fs) rest

IsAttribute-iff :
    (name : Text) (names : List Text)
    → (has_attribute name names ≡ true → IsAttribute name names)
      × (IsAttribute name names → has_attribute name names ≡ true)
unfolding has_attribute
IsAttribute-iff name [] = (λ h. ground (arith, h), λ h. absurd h)
IsAttribute-iff name (a ∷ rest) =
    let later = IsAttribute-iff name rest in
    elim (Bool-cases (same_text a name)) [
      | inl same ↦ (λ h. inl (same_text_sound a name same), λ h. ground (arith, same))
      | inr other ↦ (
        λ h. inr (later.0 (ground (arith, other, h))),
        λ h. elim h [
          | inl same ↦ ground (arith, other, ap (same_text a) same, same_text_refl a)
          | inr more ↦ ground (arith, later.1 more)
        ],
      )
    ]

pub kernels-Selected : (fs : List FuncOp) → Selected fs (get_cudaq_kernels_as_string fs)
unfolding get_cudaq_kernels_as_string is_cudaq_kernel
kernels-Selected [] = nothing
kernels-Selected (f ∷ fs) =
    let found = IsAttribute-iff (bytes "cudaq-kernel") f.attributes in
    elim (Bool-cases (has_attribute (bytes "cudaq-kernel") f.attributes)) [
      | inl has ↦ rw has (taken (found.0 has) (kernels-Selected fs))
      | inr lacks ↦
          rw lacks (passed_over (λ h. ground (arith, lacks, found.1 h)) (kernels-Selected fs))
    ]
