-- ===== src/Tikz/Swap.antt =====
-- A controlled swap in a picture.
use mqss_passes_suite.Base.{
  ℕ, suc, ◌<◌, ◌≡◌, ◌≢◌, pos, ◌-ℤ◌, false, ◌==◌, [], ◌∷◌, Post, Post-bind, Post-map, arith,
}
use mqss_passes_suite.Quake.Ops.{extract_ref, swap_op, Gate}
use mqss_passes_suite.Quake.Floats.{Floats}
use mqss_passes_suite.Tikz.Draw.{Lines, swap_to, swap_end, push_nth, fill, draw_swap, draw_gate}
use mqss_passes_suite.Tikz.Grid.{width, IsGrid, Grown, push_nth-Grown}
use mqss_passes_suite.Tikz.Picture.{fill-Lacks}

module _ {F : Type 0} where
  -- A swap of the first vector's qubits `i` and `j`, with `c` as its control.
  abbrev pub controlled_swap : ℕ → ℕ → ℕ → ℕ → Gate F
  controlled_swap v i j c = record {
    kind = swap_op;
    is_adj = false;
    parameters = [];
    controls = extract_ref v c ∷ [];
    targets = extract_ref v i ∷ extract_ref v j ∷ [];
  }

  -- The row of the control has as many cells as before, that of the first target one more.
  abbrev pub IsUneven : ℕ → ℕ → ℕ → Lines F → Type 0
  IsUneven w i c lines = (width lines c ≡ w) × (width lines i ≡ suc w)

module _ {F : Type 0} (fl : Floats F) where
  -- Where all rows have `w` cells, a controlled swap on three rows adds a cell to the row of its
  -- first target and none to that of its control, so the rows are no longer of one length.
  pub controlled_swap-IsUneven :
      (v i j c n w : ℕ) (lines : Lines F)
      → IsGrid n w lines
      → i < n
      → j < n
      → c < n
      → i ≢ j
      → i ≢ c
      → j ≢ c
      → Post ⊥ (IsUneven w i c) (draw_gate fl (controlled_swap v i j c) lines)
  unfolding draw_gate draw_swap
  controlled_swap-IsUneven v i j c n w lines g hi hj hc ij ic jc =
      let used = pos i ∷ pos j ∷ pos c ∷ [] in
      let filled = fill used 0 lines in
      let l = fill-Lacks used n w lines g in
      Post-bind ⊥ (Grown (λ k. k == i) filled) (IsUneven w i c)
        (push_nth i (swap_to (pos j -ℤ pos i)) filled) (λ ls'. push_nth j swap_end ls')
        (push_nth-Grown i (swap_to (pos j -ℤ pos i)) filled (omega (arith, l.0)))
        λ ls' u.
          Post-map ⊥ (Grown (λ k. k == j) ls') (IsUneven w i c) (push_nth j swap_end ls')
            (λ ls'' u'. (
              ground
                  (arith, l.1 c hc, u.1 c (omega (arith, l.0)), u'.1 c (omega (arith, u.0, l.0))),
              ground
                  (arith, l.1 i hi, u.1 i (omega (arith, l.0)), u'.1 i (omega (arith, u.0, l.0))),
            ))
            (push_nth-Grown j swap_end ls' (omega (arith, u.0, l.0)))
