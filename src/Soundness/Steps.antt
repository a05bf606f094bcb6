-- ===== src/Soundness/Steps.antt =====
-- The passes of lib/Passes as steps from one kernel to another.
use mqss_passes_suite.Base.{ℕ, ◌≡◌, refl, Bool, List, [], ◌∷◌, ◌++◌, All, reverse_onto, Result, ok}
use mqss_passes_suite.Quake.Ops.{
  Gate, Op, operator, plain, alloca_ref, alloca_veq, extract, arith_constant, measure, apply_op,
  other_op,
}
use mqss_passes_suite.Passes.Module.{has_controlled_apply}
use mqss_passes_suite.Passes.Walk.{on_gates, operations_on_quantum_kernel}
use mqss_passes_suite.Passes.Transforms.{
  switch_pauli_h_operation, commute_z_c_not, commute_rx_cx, commute_x_cx, replace_h_x_h_to_z,
  replace_h_z_h_to_x, SwitchPass, switch_callback, reduction_pattern,
}
use mqss_passes_suite.Passes.Decompositions.{
  cx_to_h_cz_h_pattern, replace_cz_to_h_cx_h, reverse_c_not, join_z,
}
use mqss_passes_suite.Soundness.Shape.{IsPlaced}
use mqss_passes_suite.Soundness.Walk.{IsPlain}

-- The passes that cannot read a null handle or an erased operation, and the others that keep the
-- meaning where they do not. `join_s adj` is SAdjToS for `adj` true and SToSAdj for `adj` false.
pub data TotalPass : Type 0 where
  cx_to_h_cz_h cz_to_h_cx_h reverse_cx commute_z_cx commute_rx_cx_pass commute_x_cx_pass : TotalPass
  switch_pauli_h : TotalPass
  join_s : Bool → TotalPass

pub data Pass : Type 0 where
  total : TotalPass → Pass
  switch_of : SwitchPass → Pass
  h_x_h_to_z h_z_h_to_x cancellation_double_gate : Pass

module _ {F : Type 0} where
  -- The callback of a pass.
  abbrev pub total_callback : TotalPass → List (Op F) → Gate F → Result (List (Op F))
  total_callback cx_to_h_cz_h = cx_to_h_cz_h_pattern
  total_callback cz_to_h_cx_h = replace_cz_to_h_cx_h
  total_callback reverse_cx = reverse_c_not
  total_callback commute_z_cx = commute_z_c_not
  total_callback commute_rx_cx_pass = commute_rx_cx
  total_callback commute_x_cx_pass = commute_x_cx
  total_callback switch_pauli_h = switch_pauli_h_operation
  total_callback (join_s adj) = join_z adj

  abbrev pub callback_of : Pass → List (Op F) → Gate F → Result (List (Op F))
  callback_of (total p) = total_callback p
  callback_of (switch_of p) = switch_callback p
  callback_of h_x_h_to_z = replace_h_x_h_to_z
  callback_of h_z_h_to_x = replace_h_z_h_to_x
  callback_of cancellation_double_gate = reduction_pattern

  -- A pass runs on a kernel and returns another.
  pub data Step : List (Op F) → List (Op F) → Type 0 where
    pass :
        (p : Pass) {kernel kernel' : List (Op F)}
        → operations_on_quantum_kernel (on_gates (callback_of p)) kernel ≡ ok kernel'
        → Step kernel kernel'

  pub data Reach (kernel : List (Op F)) : List (Op F) → Type 0 where
    here : Reach kernel kernel
    next : {k k' : List (Op F)} → Reach kernel k → Step k k' → Reach kernel k'

  -- Gates on one vector, their controls apart from their targets, and behind them operations that
  -- are no gates.
  pub record IsKernel (r : ℕ) (kernel : List (Op F)) : Type 0 where
    pub body : List (Op F)
    pub tail : List (Op F)
    pub parts : kernel ≡ body ++ tail
    pub placed : All (IsPlaced r) body
    pub plain_tail : All IsPlain tail

  pub reverse_onto-append :
      (xs ys zs : List (Op F)) → reverse_onto xs (ys ++ zs) ≡ reverse_onto xs ys ++ zs
  reverse_onto-append [] ys zs = refl
  reverse_onto-append (x ∷ xs) ys zs = reverse_onto-append xs (x ∷ ys) zs

  pub reverse_twice :
      (xs ys zs : List (Op F)) → reverse_onto (reverse_onto xs ys) zs ≡ reverse_onto ys (xs ++ zs)
  reverse_twice [] ys zs = refl
  reverse_twice (x ∷ xs) ys zs = reverse_twice xs (x ∷ ys) zs

-- A controlled call is behind the gates.
pub call_in_tail :
    {F : Type 0} (r : ℕ) (body tail : List (Op F))
    → All (IsPlaced r) body
    → has_controlled_apply (body ++ tail) ≡ has_controlled_apply tail
unfolding has_controlled_apply
call_in_tail r [] tail h = refl
call_in_tail r (operator g ∷ ops) tail h = call_in_tail r ops tail h.1
call_in_tail r (plain alloca_ref ∷ ops) tail h = call_in_tail r ops tail h.1
call_in_tail r (plain (alloca_veq n) ∷ ops) tail h = call_in_tail r ops tail h.1
call_in_tail r (plain (extract v i) ∷ ops) tail h = call_in_tail r ops tail h.1
call_in_tail r (plain (arith_constant a) ∷ ops) tail h = call_in_tail r ops tail h.1
call_in_tail r (plain (measure os) ∷ ops) tail h = absurd h.0
call_in_tail r (plain (apply_op vs) ∷ ops) tail h = absurd h.0
call_in_tail r (plain other_op ∷ ops) tail h = call_in_tail r ops tail h.1
