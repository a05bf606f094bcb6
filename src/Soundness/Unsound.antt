-- ===== src/Soundness/Unsound.antt =====
-- CancellationDoubleCx on kernels with a gate on the control between. The search for the previous
-- operation looks at the target of the current gate alone, and compares indices without their
-- registers.
use mqss_passes_suite.Base.{
  ap, subst, ◌∙◌, Post, if◌then◌else◌, ℕ, ◌≡◌, ◌≢◌, refl, sym, Bool, true, false, List, [], ◌∷◌, ok,
  arith, ==_iff,
}
use mqss_passes_suite.Quake.Ops.{Value, extract_ref, Op, x_op, h_op}
use mqss_passes_suite.Passes.Walk.{on_gates, operations_on_quantum_kernel}
use mqss_passes_suite.Passes.Patterns.{cancel_found, cancels}
use mqss_passes_suite.Passes.Transforms.{cancellation_double_cx}
use mqss_passes_suite.Passes.Decompositions.{create}
use mqss_passes_suite.Semantics.Run.{run, effect}
use mqss_passes_suite.Semantics.Tableau.Local.{
  Tableau, same_value, same_value_iff, local_two, write,
}
use mqss_passes_suite.Semantics.Tableau.Identities.{tableau_model}

module _ (F : Type 0) where
  -- CX on `i` and `j` twice, with a Hadamard gate on the control between.
  abbrev pub interrupted : ℕ → ℕ → ℕ → List (Op F)
  interrupted r i j =
      create x_op (extract_ref r i ∷ []) (extract_ref r j)
      ∷ create h_op [] (extract_ref r i)
      ∷ create x_op (extract_ref r i ∷ []) (extract_ref r j)
      ∷ []

  double_cx_erases :
      (r i j : ℕ)
      → i ≢ j
      → operations_on_quantum_kernel (on_gates cancellation_double_cx) (interrupted r i j)
        ≡ ok (create h_op [] (extract_ref r i) ∷ [])
  unfolding operations_on_quantum_kernel on_gates cancellation_double_cx cancel_found cancels
  double_cx_erases r i j ne = ground (arith, ==_iff i j, ==_iff j i)

  -- The Pauli X on one qubit.
  abbrev x_on : Value → Tableau
  x_on q = record {
    bits = λ v. if same_value v q then (true, false) else (false, false);
    sign = false;
  }

  -- The X part of the string at a qubit.
  abbrev x_part : Value → Tableau → Bool
  x_part q s = (s.bits q).0

  same_self : (q : Value) → same_value q q ≡ true
  same_self q = (same_value_iff q q).1 refl

  same_other : (p q : Value) → p ≢ q → same_value p q ≡ false
  same_other p q ne = ground (arith, same_value_iff p q)

  module _ (c t : Value) (ne : c ≢ t) where
    double_cx_differs :
        x_part t (
          run
            (tableau_model F)
            (create x_op (c ∷ []) t ∷ create h_op [] c ∷ create x_op (c ∷ []) t ∷ [])
            (x_on c))
        ≡ true
    unfolding run effect local_two write
    double_cx_differs =
        ground
          (arith, same_self c, same_self t, same_other c t ne, same_other t c (λ e. ne (sym e)))

    double_cx_leaves : x_part t (run (tableau_model F) (create h_op [] c ∷ []) (x_on c)) ≡ false
    unfolding run effect local_two write
    double_cx_leaves = ground (arith, same_self c, same_other t c (λ e. ne (sym e)))

  apart_refs : (r i j : ℕ) → i ≢ j → extract_ref r i ≢ extract_ref r j
  apart_refs r i j ne = ground arith

  true-false : true ≢ false
  true-false e = ground arith

  -- On a kernel of two equal CX gates with a Hadamard gate on the control between,
  -- CancellationDoubleCx returns a kernel with another meaning in the model of Pauli strings.
  pub cancellation_double_cx_unsound :
      (r i j : ℕ)
      → i ≢ j
      → Post ⊥
          (λ kernel. ¬ (
            (s : Tableau)
            → run (tableau_model F) kernel s ≡ run (tableau_model F) (interrupted r i j) s))
          (operations_on_quantum_kernel (on_gates cancellation_double_cx) (interrupted r i j))
  cancellation_double_cx_unsound r i j ne =
      let c = extract_ref r i in
      let t = extract_ref r j in
      subst
        (Post ⊥ (λ kernel. ¬ (
          (s : Tableau)
          → run (tableau_model F) kernel s ≡ run (tableau_model F) (interrupted r i j) s)))
        (sym (double_cx_erases r i j ne))
        (λ same. true-false (
          sym (double_cx_differs c t (apart_refs r i j ne))
          ∙ sym (ap (x_part t) (same (x_on c)))
          ∙ double_cx_leaves c t (apart_refs r i j ne)))
