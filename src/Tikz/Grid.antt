-- ===== src/Tikz/Grid.antt =====
-- The lengths of the rows of a picture.
use mqss_passes_suite.Base.{
  ℕ, zero, suc, ◌+◌, ◌<◌, ◌≡◌, refl, ap, ◌∙◌, ℤ, pos, negsuc, mem_ℤ, Bool, false, Bool-cases, inl,
  inr, ◌==◌, ==_iff, if◌then◌else◌, List, [], ◌∷◌, ◌++◌, length, length-append, ok, Post, Post-bind,
  Post-map, arith,
}
use native.Mathlib.Nat.{add-zero}
use mqss_passes_suite.Tikz.Draw.{Cell, Lines, qw, push_nth, push_at, push_each, fill}

-- The indices are those of rows, none twice.
abbrev pub IsWired : ℕ → List ℤ → Type 0
IsWired n [] = Unit
IsWired n (pos i ∷ is) = (i < n) × (mem_ℤ (pos i) is ≡ false) × IsWired n is
IsWired n (negsuc i ∷ is) = ⊥

module _ {F : Type 0} where
  -- The length of the row of a qubit, 0 if there is none.
  abbrev pub width : Lines F → ℕ → ℕ
  width [] k = 0
  width (l ∷ ls) zero = length l
  width (l ∷ ls) (suc k) = width ls k

  -- There are `n` rows, each of `w` cells.
  abbrev pub IsGrid : ℕ → ℕ → Lines F → Type 0
  IsGrid n w lines = (length lines ≡ n) × ((k : ℕ) → k < n → width lines k ≡ w)

  -- The rows with one cell more at some places.
  abbrev pub Grown : (ℕ → Bool) → Lines F → Lines F → Type 0
  Grown at lines lines' =
      (length lines' ≡ length lines)
      × ((k : ℕ)
          → k < length lines
          → width lines' k ≡ (if at k then suc (width lines k) else width lines k))

  pub push_nth-Grown :
      (i : ℕ) (c : Cell F) (ls : Lines F)
      → i < length ls
      → Post ⊥ (Grown (λ k. k == i) ls) (push_nth i c ls)
  unfolding push_nth
  push_nth-Grown i c [] h = absurd (omega arith)
  push_nth-Grown zero c (l ∷ ls) h = (refl, widths)
    where
      widths :
          (k : ℕ)
          → k < suc (length ls)
          → width ((l ++ c ∷ []) ∷ ls) k
            ≡ (if k == 0 then suc (width (l ∷ ls) k) else width (l ∷ ls) k)
      widths zero g = ground (arith, length-append l (c ∷ []))
      widths (suc k) g = ground arith
  push_nth-Grown (suc i) c (l ∷ ls) h =
      Post-bind ⊥ (Grown (λ k. k == i) ls) (Grown (λ k. k == suc i) (l ∷ ls)) (push_nth i c ls)
        (λ ls'. ok (l ∷ ls')) (push_nth-Grown i c ls (omega arith))
        λ ls' g. (ap suc g.0, later ls' g.1)
    where
      later :
          (ls' : Lines F)
          → ((k : ℕ)
              → k < length ls
              → width ls' k ≡ (if k == i then suc (width ls k) else width ls k))
          → (k : ℕ) → k < suc (length ls)
          → width (l ∷ ls') k ≡ (if k == suc i then suc (width (l ∷ ls) k) else width (l ∷ ls) k)
      later ls' g zero b = ground arith
      later ls' g (suc k) b = ground (arith, g k)

  pub push_each-Grown :
      (cell : ℤ → Cell F) (is : List ℤ) (ls : Lines F)
      → IsWired (length ls) is
      → Post ⊥ (Grown (λ k. mem_ℤ (pos k) is) ls) (push_each cell is ls)
  unfolding push_each push_at
  push_each-Grown cell [] ls h = (refl, λ k b. refl)
  push_each-Grown cell (pos i ∷ is) ls h =
      Post-bind ⊥ (Grown (λ k. k == i) ls) (Grown (λ k. mem_ℤ (pos k) (pos i ∷ is)) ls)
        (push_nth i (cell (pos i)) ls) (λ ls'. push_each cell is ls')
        (push_nth-Grown i (cell (pos i)) ls h.0)
        λ ls' g.
          Post-map ⊥ (Grown (λ k. mem_ℤ (pos k) is) ls')
            (Grown (λ k. mem_ℤ (pos k) (pos i ∷ is)) ls) (push_each cell is ls')
            (λ ls'' g'. (g'.0 ∙ g.0, both ls' ls'' g.0 g.1 g'.1))
            (push_each-Grown cell is ls' (rw g.0 h.2))
    where
      both :
          (ls' ls'' : Lines F)
          → length ls' ≡ length ls
          → ((k : ℕ)
              → k < length ls
              → width ls' k ≡ (if k == i then suc (width ls k) else width ls k))
          → ((k : ℕ)
              → k < length ls'
              → width ls'' k ≡ (if mem_ℤ (pos k) is then suc (width ls' k) else width ls' k))
          → (k : ℕ) → k < length ls
          → width ls'' k ≡ (if mem_ℤ (pos k) (pos i ∷ is) then suc (width ls k) else width ls k)
      both ls' ls'' e g g' k b = elim (Bool-cases (k == i)) [
        | inl same ↦
            let m : mem_ℤ (pos k) is ≡ false = rw ((==_iff k i).0 same) h.1 in
            ground (arith, g k b, g' k (omega arith), same, m)
        | inr other ↦ ground (arith, g k b, g' k (omega arith), other)
      ]
  push_each-Grown cell (negsuc i ∷ is) ls h = absurd h

  pub fill-Grown :
      (used : List ℤ) (i : ℕ) (ls : Lines F)
      → (length (fill used i ls) ≡ length ls)
        × ((k : ℕ)
            → k < length ls
            → width (fill used i ls) k
              ≡ (if mem_ℤ (pos (i + k)) used then width ls k else suc (width ls k)))
  unfolding fill
  fill-Grown used i [] = (refl, λ k b. absurd (omega arith))
  fill-Grown used i (l ∷ ls) = let ih = fill-Grown used (suc i) ls in (ap suc ih.0, widths ih.1)
    where
      widths :
          ((k : ℕ)
            → k < length ls
            → width (fill used (suc i) ls) k
              ≡ (if mem_ℤ (pos (suc i + k)) used then width ls k else suc (width ls k)))
          → (k : ℕ) → k < suc (length ls)
          → width (fill used i (l ∷ ls)) k
            ≡ (if mem_ℤ (pos (i + k)) used then width (l ∷ ls) k else suc (width (l ∷ ls) k))
      widths f zero b = elim (Bool-cases (mem_ℤ (pos i) used)) [
        | inl m ↦ rw (add-zero i, m) refl
        | inr m ↦ rw (add-zero i, m) (length-append l (qw ∷ []) ∙ omega arith)
      ]
      widths f (suc k) b = let e : i + suc k ≡ suc i + k = omega arith in rw e (f k (omega arith))
