-- ===== src/Tikz/Picture.antt =====
-- The widths of the rows after the boxes and controls of a gate, or after a swap.
use mqss_passes_suite.Base.{
  ℕ, suc, ◌<◌, ◌≡◌, refl, sym, ◌∙◌, subst, ℤ, pos, negsuc, ◌-ℤ◌, mem_ℤ, Bool, true, false, ◌||◌,
  Bool-cases, inl, inr, ◌==◌, ==_iff, if◌then◌else◌, List, [], ◌∷◌, ◌++◌, length, Post, Post-bind,
  Post-map, arith,
}
use mqss_passes_suite.Tikz.Draw.{
  Cell, Lines, swap_to, swap_end, ctrl, push_nth, push_at, push_each, fill, draw_swap, draw_boxes,
}
use mqss_passes_suite.Tikz.Grid.{
  width, IsGrid, IsWired, Grown, push_nth-Grown, push_each-Grown, fill-Grown,
}

mem-append : (i : ℤ) (xs ys : List ℤ) → mem_ℤ i (xs ++ ys) ≡ (mem_ℤ i xs || mem_ℤ i ys)
mem-append i [] ys = refl
mem-append i (x ∷ xs) ys = ground (arith, mem-append i xs ys)

-- A wiring in two parts.
pub IsWired-parts :
    (n : ℕ) (xs ys : List ℤ)
    → IsWired n (xs ++ ys)
    → IsWired n xs × IsWired n ys × ((k : ℕ) → mem_ℤ (pos k) xs ≡ true → mem_ℤ (pos k) ys ≡ false)
IsWired-parts n [] ys h = (tt, h, λ k e. cc)
IsWired-parts n (negsuc i ∷ xs) ys h = absurd h
IsWired-parts n (pos i ∷ xs) ys h =
    let ih = IsWired-parts n xs ys h.2 in
    let both : (mem_ℤ (pos i) xs || mem_ℤ (pos i) ys) ≡ false =
      sym (mem-append (pos i) xs ys) ∙ h.1 in
    ((h.0, ground arith, ih.0), ih.1, apart ih.2 (ground arith))
  where
    apart :
        ((k : ℕ) → mem_ℤ (pos k) xs ≡ true → mem_ℤ (pos k) ys ≡ false)
        → mem_ℤ (pos i) ys ≡ false
        → (k : ℕ) → mem_ℤ (pos k) (pos i ∷ xs) ≡ true
        → mem_ℤ (pos k) ys ≡ false
    apart old new k e = elim (Bool-cases (k == i)) [
      | inl same ↦ rw ((==_iff k i).0 same) new
      | inr other ↦ old k (ground arith)
    ]

module _ {F : Type 0} where
  -- A picture whose rows lack a cell where `at` says so.
  abbrev pub Lacks : (ℕ → Bool) → ℕ → ℕ → Lines F → Type 0
  Lacks at n w lines =
      (length lines ≡ n) × ((k : ℕ) → k < n → width lines k ≡ (if at k then w else suc w))

  pub fill-Lacks :
      (used : List ℤ) (n w : ℕ) (lines : Lines F)
      → IsGrid n w lines
      → Lacks (λ k. mem_ℤ (pos k) used) n w (fill used 0 lines)
  fill-Lacks used n w lines g =
      let f = fill-Grown used 0 lines in
      (f.0 ∙ g.0, λ k b. ground (arith, f.1 k (omega (arith, g.0)), g.1 k b))

  pub boxes-IsGrid :
      (label : Cell F) (t : ℤ) (ts cs : List ℤ) (n w : ℕ) (lines : Lines F)
      → IsWired n ((t ∷ ts) ++ cs)
      → Lacks (λ k. mem_ℤ (pos k) ((t ∷ ts) ++ cs)) n w lines
      → Post ⊥ (IsGrid n (suc w)) (draw_boxes label (t ∷ ts) cs lines)
  unfolding draw_boxes
  boxes-IsGrid label t ts cs n w lines h l =
      let parts = IsWired-parts n (t ∷ ts) cs h in
      Post-bind ⊥ (Grown (λ k. mem_ℤ (pos k) (t ∷ ts)) lines) (IsGrid n (suc w))
        (push_each (λ _. label) (t ∷ ts) lines) (λ ls'. push_each (λ c. ctrl (t -ℤ c)) cs ls')
        (push_each-Grown (λ _. label) (t ∷ ts) lines
          (subst (λ k. IsWired k (t ∷ ts)) (sym l.0) parts.0))
        λ ls' g.
          Post-map ⊥ (Grown (λ k. mem_ℤ (pos k) cs) ls') (IsGrid n (suc w))
            (push_each (λ c. ctrl (t -ℤ c)) cs ls')
            (λ ls'' g'. (g'.0 ∙ g.0 ∙ l.0, widths ls' ls'' (g.0 ∙ l.0) g.1 g'.1 parts.2))
            (push_each-Grown (λ c. ctrl (t -ℤ c)) cs ls'
              (subst (λ k. IsWired k cs) (sym (g.0 ∙ l.0)) parts.1))
    where
      widths :
          (ls' ls'' : Lines F)
          → length ls' ≡ n
          → ((k : ℕ)
              → k < length lines
              → width ls' k
                ≡ (if mem_ℤ (pos k) (t ∷ ts) then suc (width lines k) else width lines k))
          → ((k : ℕ)
              → k < length ls'
              → width ls'' k ≡ (if mem_ℤ (pos k) cs then suc (width ls' k) else width ls' k))
          → ((k : ℕ) → mem_ℤ (pos k) (t ∷ ts) ≡ true → mem_ℤ (pos k) cs ≡ false)
          → (k : ℕ) → k < n
          → width ls'' k ≡ suc w
      widths ls' ls'' e g g' apart k b = elim (Bool-cases (mem_ℤ (pos k) (t ∷ ts))) [
        | inl m ↦
            let m' = apart k m in
            let x = l.1 k b in
            let y = g k (omega (arith, l.0)) in
            let z = g' k (omega (arith, e)) in
            let v = mem-append (pos k) (t ∷ ts) cs in z ∙ rw (m', y, m, x, v, m) refl
        | inr m ↦
            let x = l.1 k b in
            let y = g k (omega (arith, l.0)) in
            let z = g' k (omega (arith, e)) in
            let v = mem-append (pos k) (t ∷ ts) cs in
            z
            ∙ rw (y, m, x, v, m)
                (elim (mem_ℤ (pos k) cs)
                  as (λ c.
                    (if c then suc (if c then w else suc w) else (if c then w else suc w))
                    ≡ suc w) [ true ↦ refl | false ↦ refl ])
      ]

  pub swap-IsGrid :
      (i j n w : ℕ) (lines : Lines F)
      → IsWired n (pos i ∷ pos j ∷ [])
      → Lacks (λ k. mem_ℤ (pos k) (pos i ∷ pos j ∷ [])) n w lines
      → Post ⊥ (IsGrid n (suc w)) (draw_swap (pos i ∷ pos j ∷ []) lines)
  unfolding draw_swap push_at
  swap-IsGrid i j n w lines h l =
      Post-bind ⊥ (Grown (λ k. k == i) lines) (IsGrid n (suc w))
        (push_nth i (swap_to (pos j -ℤ pos i)) lines) (λ ls'. push_nth j swap_end ls')
        (push_nth-Grown i (swap_to (pos j -ℤ pos i)) lines (omega (arith, h.0, l.0)))
        λ ls' g.
          Post-map ⊥ (Grown (λ k. k == j) ls') (IsGrid n (suc w)) (push_nth j swap_end ls')
            (λ ls'' g'. (
              g'.0 ∙ g.0 ∙ l.0,
              λ k b. ground (
                arith,
                l.1 k b,
                g.1 k (omega (arith, l.0)),
                g'.1 k (omega (arith, g.0, l.0)),
                h.1,
              ),
            ))
            (push_nth-Grown j swap_end ls' (omega (arith, h.2.0, g.0, l.0)))
