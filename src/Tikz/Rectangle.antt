-- ===== src/Tikz/Rectangle.antt =====
-- The widths of the rows of a whole picture.
use mqss_passes_suite.Base.{
  ℕ, zero, suc, ◌+◌, ◌<◌, ◌≡◌, refl, ap, sym, ◌∙◌, subst, ℤ, pos, negsuc, mem_ℤ, Bool, true, false,
  ◌==◌, if◌then◌else◌, List, [], ◌∷◌, ◌++◌, length, length-append, All, ok, Post, Post-bind,
  bind_assoc, ◌>>=◌, arith,
}
use mqss_passes_suite.Quake.Ops.{
  extract_ref, result, swap_op, ref, veq, alloca_ref, alloca_veq, extract, arith_constant, measure,
  apply_op, other_op, Op, operator, plain, isa,
}
use mqss_passes_suite.Quake.Floats.{Floats, get_parameters_values}
use mqss_passes_suite.Quake.Query.{get_indices_of_value_range, get_number_of_qubits}
use mqss_passes_suite.Quake.Classical.{
  Bits, put, put_all, classical_bits_from, get_number_of_classical_bits,
}
use mqss_passes_suite.Tikz.Draw.{
  Cell, Lines, meter, gate, push_nth, fill, meter_all, row_numbers, draw_measurement, draw_swap,
  draw_boxes, draw_gate, dump_quake_operation_to_tikz, draw_all, first_column, qubit_tikz,
}
use mqss_passes_suite.Tikz.Grid.{width, IsGrid, IsWired, Grown, push_nth-Grown, fill-Grown}
use mqss_passes_suite.Tikz.Picture.{fill-Lacks, boxes-IsGrid, swap-IsGrid}

-- The targets and controls of a gate that is drawn in full: they are rows of the picture, none
-- twice; a swap has two targets and no control, another gate has a target.
abbrev pub IsDrawn : ℕ → Bool → List ℤ → List ℤ → Type 0
IsDrawn n true (t ∷ u ∷ []) [] = IsWired n (t ∷ u ∷ [])
IsDrawn n true _ _ = ⊥
IsDrawn n false [] cs = ⊥
IsDrawn n false (t ∷ ts) cs = IsWired n ((t ∷ ts) ++ cs)

-- A measurement is of one row or of one vector; there are no calls.
abbrev pub IsDrawnOp : {F : Type 0} → ℕ → Op F → Type 0
IsDrawnOp n (operator g) =
    IsDrawn n (isa swap_op g) (get_indices_of_value_range g.targets)
      (get_indices_of_value_range g.controls)
IsDrawnOp n (plain (measure (ref (extract_ref v i) ∷ []))) = i < n
IsDrawnOp n (plain (measure (veq k ∷ []))) = Unit
IsDrawnOp n (plain (measure os)) = ⊥
IsDrawnOp n (plain (apply_op vs)) = ⊥
IsDrawnOp n (plain op) = Unit

-- The number of columns after one operation and after several: a gate and a measurement add one.
abbrev pub advance : {F : Type 0} → Op F → ℕ → ℕ
advance (operator g) w = suc w
advance (plain (measure os)) w = suc w
advance (plain n) w = w

abbrev pub columns : {F : Type 0} → List (Op F) → ℕ → ℕ
columns [] w = w
columns (op ∷ ops) w = columns ops (advance op w)

module _ {F : Type 0} where
  drawn-IsGrid :
      (n w : ℕ) (swap : Bool) (ts cs : List ℤ) (label : Cell F) (lines : Lines F)
      → IsDrawn n swap ts cs
      → IsGrid n w lines
      → Post ⊥ (IsGrid n (suc w)) (
          if swap
          then draw_swap ts (fill (ts ++ cs) 0 lines)
          else draw_boxes label ts cs (fill (ts ++ cs) 0 lines))
  drawn-IsGrid n w true (pos t ∷ pos u ∷ []) [] label lines h g =
      swap-IsGrid t u n w (fill (pos t ∷ pos u ∷ []) 0 lines) h
        (fill-Lacks (pos t ∷ pos u ∷ []) n w lines g)
  drawn-IsGrid n w true (pos t ∷ negsuc u ∷ []) [] label lines h g = absurd h.2
  drawn-IsGrid n w true (negsuc t ∷ u ∷ []) [] label lines h g = absurd h
  drawn-IsGrid n w true [] cs label lines h g = absurd h
  drawn-IsGrid n w true (t ∷ []) cs label lines h g = absurd h
  drawn-IsGrid n w true (t ∷ u ∷ []) (c ∷ cs) label lines h g = absurd h
  drawn-IsGrid n w true (t ∷ u ∷ v ∷ ts) cs label lines h g = absurd h
  drawn-IsGrid n w false [] cs label lines h g = absurd h
  drawn-IsGrid n w false (t ∷ ts) cs label lines h g =
      boxes-IsGrid label t ts cs n w (fill ((t ∷ ts) ++ cs) 0 lines) h
        (fill-Lacks ((t ∷ ts) ++ cs) n w lines g)

  one_meter :
      (n w i : ℕ) (lines : Lines F)
      → i < n
      → IsGrid n w lines
      → Post ⊥ (IsGrid n (suc w)) (push_nth i meter lines >>= λ ls. ok (fill (pos i ∷ []) 0 ls))
  one_meter n w i lines h g =
      Post-bind ⊥ (Grown (λ k. k == i) lines) (IsGrid n (suc w)) (push_nth i meter lines)
        (λ ls. ok (fill (pos i ∷ []) 0 ls)) (push_nth-Grown i meter lines (omega (arith, g.0)))
        λ ls u.
          let f = fill-Grown (pos i ∷ []) 0 ls in
          (
            f.0 ∙ u.0 ∙ g.0,
            λ k b.
                ground
                  (arith, f.1 k (omega (arith, g.0, u.0)), u.1 k (omega (arith, g.0)), g.1 k b),
          )

  width-meter_all :
      (lines : Lines F) (k : ℕ) → k < length lines → width (meter_all lines) k ≡ suc (width lines k)
  unfolding meter_all
  width-meter_all [] k h = absurd (omega arith)
  width-meter_all (l ∷ ls) zero h = length-append l (meter ∷ []) ∙ omega arith
  width-meter_all (l ∷ ls) (suc k) h = width-meter_all ls k (omega arith)

  length-meter_all : (lines : Lines F) → length (meter_all lines) ≡ length lines
  unfolding meter_all
  length-meter_all [] = refl
  length-meter_all (l ∷ ls) = ap suc (length-meter_all ls)

  mem-row_numbers :
      (i k : ℕ) (lines : Lines F)
      → k < length lines
      → mem_ℤ (pos (i + k)) (row_numbers i lines ++ []) ≡ true
  unfolding row_numbers
  mem-row_numbers i k [] h = absurd (omega arith)
  mem-row_numbers i zero (l ∷ ls) h = ground arith
  mem-row_numbers i (suc k) (l ∷ ls) h =
      let e : i + suc k ≡ suc i + k = omega arith in
      let ih : mem_ℤ (pos (i + suc k)) (row_numbers (suc i) ls ++ []) ≡ true =
        subst (λ j. mem_ℤ (pos j) (row_numbers (suc i) ls ++ []) ≡ true) (sym e)
          (mem-row_numbers (suc i) k ls (omega arith)) in
      ground (arith, ih)

  all_meters :
      (n w : ℕ) (lines : Lines F)
      → IsGrid n w lines
      → IsGrid n (suc w) (fill (row_numbers 0 lines ++ []) 0 (meter_all lines))
  all_meters n w lines g =
      let f = fill-Grown (row_numbers 0 lines ++ []) 0 (meter_all lines) in
      (
        f.0 ∙ length-meter_all lines ∙ g.0,
        λ k b.
            f.1 k (omega (arith, g.0, length-meter_all lines))
            ∙ rw (mem-row_numbers 0 k lines (omega (arith, g.0)))
                (width-meter_all lines k (omega (arith, g.0)) ∙ ap suc (g.1 k b)),
      )

module _ {F : Type 0} (fl : Floats F) where
  op-IsGrid :
      (n w : ℕ) (op : Op F) (lines : Lines F)
      → IsDrawnOp n op
      → IsGrid n w lines
      → Post ⊥ (IsGrid n (advance op w)) (dump_quake_operation_to_tikz fl op lines)
  unfolding dump_quake_operation_to_tikz draw_gate draw_measurement
  op-IsGrid n w (operator g) lines h k =
      drawn-IsGrid n w (isa swap_op g) (get_indices_of_value_range g.targets)
        (get_indices_of_value_range g.controls)
        (gate g.kind g.is_adj (get_parameters_values fl g.parameters)) lines h k
  op-IsGrid n w (plain (measure [])) lines h k = absurd h
  op-IsGrid n w (plain (measure (ref (extract_ref v i) ∷ []))) lines h k =
      subst (Post ⊥ (IsGrid n (suc w)))
        (sym (
          bind_assoc (push_nth i meter lines) (λ ls. ok (pos i ∷ [], ls))
            (λ drawn. ok (fill drawn.0 0 drawn.1))))
        (one_meter n w i lines h k)
  op-IsGrid n w (plain (measure (ref (result v) ∷ []))) lines h k = absurd h
  op-IsGrid n w (plain (measure (ref (extract_ref v i) ∷ o ∷ os))) lines h k = absurd h
  op-IsGrid n w (plain (measure (ref (result v) ∷ o ∷ os))) lines h k = absurd h
  op-IsGrid n w (plain (measure (veq j ∷ []))) lines h k = all_meters n w lines k
  op-IsGrid n w (plain (measure (veq j ∷ o ∷ os))) lines h k = absurd h
  op-IsGrid n w (plain (apply_op vs)) lines h k = absurd h
  op-IsGrid n w (plain alloca_ref) lines h k = k
  op-IsGrid n w (plain (alloca_veq j)) lines h k = k
  op-IsGrid n w (plain (extract v i)) lines h k = k
  op-IsGrid n w (plain (arith_constant a)) lines h k = k
  op-IsGrid n w (plain other_op) lines h k = k

  draw_all-IsGrid :
      (n w : ℕ) (ops : List (Op F)) (lines : Lines F)
      → All (IsDrawnOp n) ops
      → IsGrid n w lines
      → Post ⊥ (IsGrid n (columns ops w)) (draw_all fl ops lines)
  unfolding draw_all
  draw_all-IsGrid n w [] lines h k = k
  draw_all-IsGrid n w (op ∷ ops) lines h k =
      Post-bind ⊥ (IsGrid n (advance op w)) (IsGrid n (columns (op ∷ ops) w))
        (dump_quake_operation_to_tikz fl op lines) (λ ls. draw_all fl ops ls)
        (op-IsGrid n w op lines h.0 k) λ ls g. draw_all-IsGrid n (advance op w) ops ls h.1 g

  length-first_column : (n : ℕ) → length (first_column {F = F} n) ≡ n
  unfolding first_column
  length-first_column zero = refl
  length-first_column (suc n) = ap suc (length-first_column n)

  width-first_column : (n k : ℕ) → k < n → width (first_column {F = F} n) k ≡ 1
  unfolding first_column
  width-first_column zero k h = absurd (omega arith)
  width-first_column (suc n) zero h = refl
  width-first_column (suc n) (suc k) h = width-first_column n k (omega arith)

  measures_counted :
      (n : ℕ) (s : ℕ × Bits) (ops : List (Op F))
      → All (IsDrawnOp n) ops
      → Post ⊥ (λ _. Unit {0}) (classical_bits_from s ops)
  unfolding classical_bits_from
  measures_counted n s [] h = tt
  measures_counted n s (operator g ∷ ops) h = measures_counted n s ops h.1
  measures_counted n s (plain (measure []) ∷ ops) h = absurd h.0
  measures_counted n s (plain (measure (ref (extract_ref v i) ∷ [])) ∷ ops) h =
      measures_counted n (s.0 + 1, put i s.0 s.1) ops h.1
  measures_counted n s (plain (measure (ref (result v) ∷ [])) ∷ ops) h = absurd h.0
  measures_counted n s (plain (measure (ref (extract_ref v i) ∷ o ∷ os)) ∷ ops) h = absurd h.0
  measures_counted n s (plain (measure (ref (result v) ∷ o ∷ os)) ∷ ops) h = absurd h.0
  measures_counted n s (plain (measure (veq j ∷ [])) ∷ ops) h =
      measures_counted n (s.0 + j, put_all (s.0 + j) s.1) ops h.1
  measures_counted n s (plain (measure (veq j ∷ o ∷ os)) ∷ ops) h = absurd h.0
  measures_counted n s (plain (apply_op vs) ∷ ops) h = absurd h.0
  measures_counted n s (plain alloca_ref ∷ ops) h = measures_counted n s ops h.1
  measures_counted n s (plain (alloca_veq j) ∷ ops) h = measures_counted n s ops h.1
  measures_counted n s (plain (extract v i) ∷ ops) h = measures_counted n s ops h.1
  measures_counted n s (plain (arith_constant a) ∷ ops) h = measures_counted n s ops h.1
  measures_counted n s (plain other_op ∷ ops) h = measures_counted n s ops h.1

  -- Where each gate of a kernel is on distinct rows of the picture and has a target, each swap has
  -- two targets and no control, each measurement is of one row or of one vector, and nothing is
  -- called, QuakeToTikz returns a row for each qubit that the kernel allocates, all of the same
  -- length: one cell, and one for each gate and each measurement.
  pub qubit_tikz-IsGrid :
      (circuit : List (Op F))
      → All (IsDrawnOp (get_number_of_qubits circuit)) circuit
      → Post ⊥ (IsGrid (get_number_of_qubits circuit) (columns circuit 1)) (qubit_tikz fl circuit)
  unfolding qubit_tikz get_number_of_classical_bits
  qubit_tikz-IsGrid circuit h =
      let n = get_number_of_qubits circuit in
      Post-bind ⊥ (λ _. Unit {0}) (IsGrid n (columns circuit 1))
        (classical_bits_from (0, []) circuit) (λ _. draw_all fl circuit (first_column n))
        (measures_counted n (0, []) circuit h)
        λ _ _.
          draw_all-IsGrid n 1 circuit (first_column n) h
            (length-first_column n, width-first_column n)
