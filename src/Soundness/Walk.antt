-- ===== src/Soundness/Walk.antt =====
-- The meaning of a kernel, from one call of a callback to the whole walk.
use mqss_passes_suite.Base.{
  ℕ, ◌≡◌, refl, ap, ◌∙◌, List, [], ◌∷◌, ◌++◌, All, reverse_onto, Result, ok, ◌>>=◌, Post, Post-bind,
  Post-map, bind_regroup, sym,
}
use mqss_passes_suite.Quake.Ops.{Gate, Op, operator, plain}
use mqss_passes_suite.Passes.Walk.{on_gates, walk, operations_on_quantum_kernel}
use mqss_passes_suite.Semantics.Model.{Model}
use mqss_passes_suite.Semantics.Run.{
  effect, run, run_reversed, run-append, run-reverse_onto, run_reversed-reverse_onto,
}
use mqss_passes_suite.Soundness.Shape.{IsPlaced}

-- A kernel's last operations: those after its last gate.
abbrev pub IsPlain : {F : Type 0} → Op F → Type 0
IsPlain (operator g) = ⊥
IsPlain (plain n) = Unit

module _ {F : Type 0} (h : List (Op F) → Gate F → Result (List (Op F))) where
  pub walk-append :
      (before xs ys : List (Op F))
      → walk (on_gates h) before (xs ++ ys)
        ≡ (walk (on_gates h) before xs >>= λ done. walk (on_gates h) done ys)
  unfolding walk
  walk-append before [] ys = refl
  walk-append before (x ∷ xs) ys =
      bind_regroup (on_gates h before x) (λ done. walk (on_gates h) done (xs ++ ys))
        (λ done. walk (on_gates h) done xs) (λ done. walk (on_gates h) done ys)
        (λ done. walk-append done xs ys)

  pub walk_plain :
      (before ys : List (Op F))
      → All IsPlain ys
      → walk (on_gates h) before ys ≡ ok (reverse_onto ys before)
  unfolding walk on_gates
  walk_plain before [] p = refl
  walk_plain before (operator g ∷ ys) p = absurd p.0
  walk_plain before (plain n ∷ ys) p = walk_plain (plain n ∷ before) ys p.1

module _ {F : Type 0} (m : Model F) (r : ℕ) where
  -- What a callback makes of the operations before and of the current one means the same.
  abbrev pub Refines : List (Op F) → Op F → List (Op F) → Type 0
  Refines before op done =
      All (IsPlaced r) done
      × ((s : m.State) → run_reversed m done s ≡ effect m op (run_reversed m before s))

  -- Every call of the callback keeps the meaning. `W` is what a fault gives.
  abbrev pub Keeps : Type 0 → (List (Op F) → Gate F → Result (List (Op F))) → Type 0
  Keeps W h =
      (before : List (Op F)) (g : Gate F)
      → All (IsPlaced r) before
      → IsPlaced r (operator g)
      → Post W (Refines before (operator g)) (h before g)

  -- The operations `done` mean what `before` and then `ops` mean.
  abbrev Continues : List (Op F) → List (Op F) → List (Op F) → Type 0
  Continues before ops done =
      (s : m.State) → run_reversed m done s ≡ run m ops (run_reversed m before s)

  pub unchanged-Refines :
      (before : List (Op F)) (g : Gate F)
      → All (IsPlaced r) before
      → IsPlaced r (operator g)
      → Refines before (operator g) (operator g ∷ before)
  unfolding run_reversed
  unchanged-Refines before g p q = ((q, p), λ s. refl)

  module _ (W : Type 0) (h : List (Op F) → Gate F → Result (List (Op F))) (keeps : Keeps W h) where
    pub on_gates-Refines :
        (before : List (Op F)) (op : Op F)
        → All (IsPlaced r) before
        → IsPlaced r op
        → Post W (Refines before op) (on_gates h before op)
    unfolding on_gates run_reversed
    on_gates-Refines before (operator g) p q = keeps before g p q
    on_gates-Refines before (plain n) p q = ((q, p), λ s. refl)

    walk_sound :
        (before ops : List (Op F))
        → All (IsPlaced r) before
        → All (IsPlaced r) ops
        → Post W (Continues before ops) (walk (on_gates h) before ops)
    unfolding walk run
    walk_sound before [] p q = λ s. refl
    walk_sound before (op ∷ ops) p q =
        Post-bind W (Refines before op) (Continues before (op ∷ ops)) (on_gates h before op)
          (λ done. walk (on_gates h) done ops) (on_gates-Refines before op p q.0)
          λ done d.
            Post-map W (Continues done ops) (Continues before (op ∷ ops))
              (walk (on_gates h) done ops) (λ b e s. e s ∙ ap (run m ops) (d.1 s))
              (walk_sound done ops d.0 q.1)

    -- The pass keeps the meaning of a kernel whose gates stand before its first measurement.
    pub kernel_sound :
        (body tail : List (Op F))
        → All (IsPlaced r) body
        → All IsPlain tail
        → Post W
            (λ kernel. (s : m.State) → run m kernel s ≡ run m (body ++ tail) s)
            (operations_on_quantum_kernel (on_gates h) (body ++ tail))
    unfolding operations_on_quantum_kernel run run_reversed
    kernel_sound body tail p q = rw (walk-append h [] body tail) (
        Post-bind W (Continues [] (body ++ tail)) _
          (walk (on_gates h) [] body >>= λ done. walk (on_gates h) done tail)
          (λ done. ok (reverse_onto done []))
          (Post-bind W (Continues [] body) (Continues [] (body ++ tail)) (walk (on_gates h) [] body)
            (λ done. walk (on_gates h) done tail) (walk_sound [] body tt p)
            (λ done e. rw (walk_plain h done tail q) (λ s.
              run_reversed-reverse_onto m tail done s
              ∙ ap (run m tail) (e s)
              ∙ sym (run-append m body tail s))))
          λ done e s. run-reverse_onto m done [] s ∙ e s)
