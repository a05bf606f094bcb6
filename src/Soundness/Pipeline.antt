-- ===== src/Soundness/Pipeline.antt =====
-- The passes one after another, in any order and number, as a pass manager of MLIR runs them.
use mqss_passes_suite.Base.{
  append-nil, ℕ, ◌≡◌, refl, subst, ap, sym, ◌∙◌, List, [], ◌∷◌, ◌++◌, All, All-reverse_onto,
  reverse_onto, Result, ok, Post, Post-bind, Post-map, may_fault, ◌>>=◌,
}
use mqss_passes_suite.Quake.Ops.{Gate, Op, operator, x_op, z_op}
use mqss_passes_suite.Passes.Module.{has_controlled_apply}
use mqss_passes_suite.Passes.Walk.{on_gates, walk, operations_on_quantum_kernel}
use mqss_passes_suite.Passes.Transforms.{replace_h_x_h_to_z, replace_h_z_h_to_x}
use mqss_passes_suite.Semantics.Model.{Model}
use mqss_passes_suite.Semantics.Run.{run, run_reversed, run-append, run-reverse_onto}
use mqss_passes_suite.Soundness.Shape.{IsPlaced}
use mqss_passes_suite.Soundness.Walk.{
  IsPlain, Keeps, Refines, on_gates-Refines, walk-append, walk_plain,
}
use mqss_passes_suite.Soundness.PauliH.{switch_pauli_h-Keeps, join_z-Keeps}
use mqss_passes_suite.Soundness.Conjugate.{replace_conjugated-Keeps, x-Conjugates, z-Conjugates}
use mqss_passes_suite.Soundness.Decompose.{
  cx_to_h_cz_h-Keeps, cz_to_h_cx_h-Keeps, reverse_c_not-Keeps,
}
use mqss_passes_suite.Soundness.Reduction.{reduction_pattern-Keeps}
use mqss_passes_suite.Soundness.Commute.{
  commute_z_c_not-Keeps, commute_rx_cx-Keeps, commute_x_cx-Keeps,
}
use mqss_passes_suite.Soundness.Kernels.{switch-Keeps}
use mqss_passes_suite.Soundness.Steps.{
  TotalPass, cx_to_h_cz_h, cz_to_h_cx_h, reverse_cx, commute_z_cx, commute_rx_cx_pass,
  commute_x_cx_pass, switch_pauli_h, join_s, Pass, total, switch_of, h_x_h_to_z, h_z_h_to_x,
  cancellation_double_gate, total_callback, callback_of, pass, Reach, here, next, IsKernel,
  reverse_onto-append, reverse_twice, call_in_tail,
}

-- A postcondition of a result that is known.
of_result :
    {A : Type 0} (P : A → Type 0) {m : Result A} {a : A} → m ≡ ok a → Post (Unit {0}) P m → P a
of_result P e h = subst (Post (Unit {0}) P) e h

module _ {F : Type 0} (m : Model F) (r : ℕ) where
  total-Keeps : (p : TotalPass) → Keeps m r ⊥ (total_callback p)
  total-Keeps cx_to_h_cz_h = cx_to_h_cz_h-Keeps m r
  total-Keeps cz_to_h_cx_h = cz_to_h_cx_h-Keeps m r
  total-Keeps reverse_cx = reverse_c_not-Keeps m r
  total-Keeps commute_z_cx = commute_z_c_not-Keeps m r
  total-Keeps commute_rx_cx_pass = commute_rx_cx-Keeps m r
  total-Keeps commute_x_cx_pass = commute_x_cx-Keeps m r
  total-Keeps switch_pauli_h = switch_pauli_h-Keeps m r
  total-Keeps (join_s adj) = join_z-Keeps m r adj

  pass-Keeps : (p : Pass) → Keeps m r (Unit {0}) (callback_of p)
  unfolding replace_h_x_h_to_z replace_h_z_h_to_x
  pass-Keeps (total p) = λ before g b h.
      may_fault (Refines m r before (operator g)) (total_callback p before g)
        (total-Keeps p before g b h)
  pass-Keeps (switch_of p) = switch-Keeps m r [] [] tt tt p
  pass-Keeps h_x_h_to_z = replace_conjugated-Keeps m r x_op z_op (x-Conjugates m)
  pass-Keeps h_z_h_to_x = replace_conjugated-Keeps m r z_op x_op (z-Conjugates m)
  pass-Keeps cancellation_double_gate = reduction_pattern-Keeps m r

  -- A kernel of the same form and meaning, with a controlled call if there was one.
  abbrev pub IsSame : List (Op F) → List (Op F) → Type 0
  IsSame kernel kernel' =
      IsKernel r kernel'
      × ((s : m.State) → run m kernel' s ≡ run m kernel s)
      × (has_controlled_apply kernel' ≡ has_controlled_apply kernel)

  module _ (W : Type 0) (h : List (Op F) → Gate F → Result (List (Op F)))
      (keeps : Keeps m r W h) where
    -- The operations that a walk leaves, and their meaning.
    abbrev Leaves : List (Op F) → List (Op F) → List (Op F) → Type 0
    Leaves before ops done =
        All (IsPlaced r) done
        × ((s : m.State) → run_reversed m done s ≡ run m ops (run_reversed m before s))

    walk-Leaves :
        (before ops : List (Op F))
        → All (IsPlaced r) before
        → All (IsPlaced r) ops
        → Post W (Leaves before ops) (walk (on_gates h) before ops)
    unfolding walk run
    walk-Leaves before [] p q = (p, λ s. refl)
    walk-Leaves before (op ∷ ops) p q =
        Post-bind W (Refines m r before op) (Leaves before (op ∷ ops)) (on_gates h before op)
          (λ done. walk (on_gates h) done ops) (on_gates-Refines m r W h keeps before op p q.0)
          λ done d.
            Post-map W (Leaves done ops) (Leaves before (op ∷ ops)) (walk (on_gates h) done ops)
              (λ b e. (e.0, λ s. e.1 s ∙ ap (run m ops) (d.1 s))) (walk-Leaves done ops d.0 q.1)

    Leaves-IsSame :
        (body tail done : List (Op F))
        → All (IsPlaced r) body
        → All IsPlain tail
        → Leaves [] body done
        → IsSame (body ++ tail) (reverse_onto (reverse_onto tail done) [])
    unfolding run run_reversed
    Leaves-IsSame body tail done q p e =
        let parts : reverse_onto (reverse_onto tail done) [] ≡ reverse_onto done [] ++ tail =
          reverse_twice tail done []
          ∙ ap (reverse_onto done) (append-nil tail)
          ∙ reverse_onto-append done [] tail in
        (
          record {
            body = reverse_onto done [];
            tail = tail;
            parts = parts;
            placed = All-reverse_onto (IsPlaced r) done [] e.0 tt;
            plain_tail = p;
          },
          λ s.
              ap (λ k. run m k s) parts
              ∙ run-append m (reverse_onto done []) tail s
              ∙ ap (run m tail) (run-reverse_onto m done [] s ∙ e.1 s)
              ∙ sym (run-append m body tail s),
          ap has_controlled_apply parts
              ∙ call_in_tail r (reverse_onto done []) tail
                  (All-reverse_onto (IsPlaced r) done [] e.0 tt)
              ∙ sym (call_in_tail r body tail q),
        )

    kernel-IsSame :
        (kernel : List (Op F))
        → IsKernel r kernel
        → Post W (IsSame kernel) (operations_on_quantum_kernel (on_gates h) kernel)
    unfolding operations_on_quantum_kernel run run_reversed
    kernel-IsSame kernel k =
        rw (k.parts, walk-append h [] k.body k.tail)
          (Post-bind W (λ done. IsSame (k.body ++ k.tail) (reverse_onto done [])) _
            (walk (on_gates h) [] k.body >>= λ done. walk (on_gates h) done k.tail)
            (λ done. ok (reverse_onto done []))
            (Post-bind W (Leaves [] k.body) _ (walk (on_gates h) [] k.body)
              (λ done. walk (on_gates h) done k.tail) (walk-Leaves [] k.body tt k.placed)
              λ done e.
                rw (walk_plain h done k.tail k.plain_tail)
                  (Leaves-IsSame k.body k.tail done k.placed k.plain_tail e))
            λ done e. e)

  -- None of the passes ReverseCx, CxToHCzH, CzToHCxH, CommuteZCx, CommuteRxCx, CommuteXCx,
  -- SwitchPauliH, SAdjToS and SToSAdj fails on a kernel whose gates are on one vector of qubits,
  -- have their controls apart from their targets, and stand before its measurements and calls: it
  -- returns such a kernel with the same meaning, in every model of the gates, and with a controlled
  -- `quake.apply` exactly where the first has one.
  pub total_pass_sound :
      (p : TotalPass) (kernel : List (Op F))
      → IsKernel r kernel
      → Post ⊥ (IsSame kernel) (operations_on_quantum_kernel (on_gates (total_callback p)) kernel)
  total_pass_sound p kernel k = kernel-IsSame ⊥ (total_callback p) (total-Keeps p) kernel k

  -- Whatever passes have run on a kernel whose gates are on one vector of qubits, have their
  -- controls apart from their targets, and stand before its measurements and calls, in whatever
  -- order and number, where none of them reads a null handle or an erased operation, the kernel
  -- that they leave is such a kernel with the same meaning, in every model of the gates, and with a
  -- controlled `quake.apply` exactly where the first has one. The passes are ReverseCx, CxToHCzH,
  -- CzToHCxH, CommuteZCx, CommuteRxCx, CommuteXCx, SwitchPauliH, SAdjToS, SToSAdj, SwitchHX,
  -- SwitchHY, SwitchHZ, SwitchXH, SwitchYH, SwitchZH, HXHToZ, HZHToX and CancellationDoubleGate.
  pub passes_sound :
      {kernel kernel' : List (Op F)}
      → IsKernel r kernel
      → Reach kernel kernel'
      → IsSame kernel kernel'
  passes_sound k here = (k, λ s. refl, refl)
  passes_sound {kernel = kernel} k (next {k = k₁} reach (pass p e)) =
      let before = passes_sound k reach in
      let after =
        of_result (IsSame k₁) e
          (kernel-IsSame (Unit {0}) (callback_of p) (pass-Keeps p) k₁ before.0) in
      (after.0, λ s. after.1 s ∙ before.1 s, after.2 ∙ before.2)
