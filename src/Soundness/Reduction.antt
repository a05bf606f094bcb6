-- ===== src/Soundness/Reduction.antt =====
-- ReductionPattern, which calls patternCancellation eight times on one operation.
use mqss_passes_suite.Base.{
  ℕ, Bool-cases, ◌≡◌, ◌≢◌, refl, inl, inr, true, false, List, [], ◌∷◌, All, Option, none, some,
  Result, ok, fault, use_after_erase, Post, may_fault, ◌∙◌, sym, arith, ◌>>=◌,
}
use mqss_passes_suite.Quake.Ops.{
  GateKind, Value, Gate, Op, operator, isa, isa_sound, x_op, y_op, z_op, h_op,
}
use mqss_passes_suite.Quake.Query.{Found, get_previous_operation_on_target, first_value}
use mqss_passes_suite.Passes.Patterns.{
  is_compliant, Outcome, kept, erased, settle, cancels, cancel_found, pattern_cancellation,
}
use mqss_passes_suite.Passes.Transforms.{and_then, reductions, reduction_pattern}
use mqss_passes_suite.Semantics.Model.{Model, unitary}
use mqss_passes_suite.Soundness.Shape.{IsPlaced}
use mqss_passes_suite.Soundness.Walk.{Refines, Keeps}
use mqss_passes_suite.Soundness.Cancel.{plain_cancellation-Keeps, SelfInverse}

-- The calls before the last one.
pub data EarlyCall : Type 0 where
  cx_call x_call cy_call y_call cz_call z_call ch_call : EarlyCall

abbrev pub class_of : EarlyCall → GateKind
class_of cx_call = x_op
class_of x_call = x_op
class_of cy_call = y_op
class_of y_call = y_op
class_of cz_call = z_op
class_of z_call = z_op
class_of ch_call = h_op

abbrev pub controls_of : EarlyCall → ℕ
controls_of cx_call = 1
controls_of x_call = 0
controls_of cy_call = 1
controls_of y_call = 0
controls_of cz_call = 1
controls_of z_call = 0
controls_of ch_call = 1

module _ {F : Type 0} (before : List (Op F)) (g : Gate F) where
  other_call :
      (t : GateKind) (n : ℕ)
      → is_compliant t n 1 g ≡ false
      → pattern_cancellation t t n 1 n 1 before g ≡ ok (kept before)
  unfolding pattern_cancellation
  other_call t n e = rw e

  erased-compliant :
      (t : GateKind) (n : ℕ) (b : List (Op F))
      → pattern_cancellation t t n 1 n 1 before g ≡ ok (erased b)
      → is_compliant t n 1 g ≡ true
  unfolding pattern_cancellation
  erased-compliant t n b h = elim (Bool-cases (is_compliant t n 1 g)) [
    | inl fits ↦ fits
    | inr other ↦ absurd (ground (arith, h, other))
  ]

  -- A gate has one class and one number of controls.
  other_class :
      (t t' : GateKind) (n n' : ℕ)
      → t ≢ t'
      → is_compliant t n 1 g ≡ true
      → is_compliant t' n' 1 g ≡ false
  unfolding is_compliant
  other_class t t' n n' ne h = elim (Bool-cases (isa t' g)) [
    | inl same ↦ absurd (ne (sym (isa_sound t g (ground arith)) ∙ isa_sound t' g same))
    | inr other ↦ rw other
  ]

  other_number :
      (t t' : GateKind) (n n' : ℕ)
      → n ≢ n'
      → is_compliant t n 1 g ≡ true
      → is_compliant t' n' 1 g ≡ false
  unfolding is_compliant
  other_number t t' n n' ne h = ground arith

  abbrev call_of : GateKind → ℕ → Result (Outcome F)
  call_of t n = pattern_cancellation t t n 1 n 1 before g

  -- The calls for another class, or for another number of controls, leave the gate.
  past :
      (t t' : GateKind) (n n' : ℕ)
      → t ≢ t'
      → is_compliant t n 1 g ≡ true
      → call_of t' n' ≡ ok (kept before)
  past t t' n n' ne h = other_call t' n' (other_class t t' n n' ne h)

  past_number :
      (t : GateKind) (n n' : ℕ)
      → n ≢ n'
      → is_compliant t n 1 g ≡ true
      → call_of t n' ≡ ok (kept before)
  past_number t n n' ne h = other_call t n' (other_number t t n n' ne h)

  -- Where one of the first seven calls of ReductionPattern, made on the block as it stands, erases
  -- the current operation, ReductionPattern reads an erased operation.
  pub reduction_pattern_use_after_erase :
      (call : EarlyCall) (b : List (Op F))
      → call_of (class_of call) (controls_of call) ≡ ok (erased b)
      → reduction_pattern before g ≡ fault use_after_erase
  unfolding reduction_pattern
  reduction_pattern_use_after_erase cx_call b h = rw h
  reduction_pattern_use_after_erase x_call b h =
      rw (past_number x_op 0 1 (omega arith) (erased-compliant x_op 0 b h), h)
  reduction_pattern_use_after_erase cy_call b h =
      let fits = erased-compliant y_op 1 b h in
      rw (past y_op x_op 1 1 (λ e. cc) fits, past y_op x_op 1 0 (λ e. cc) fits, h)
  reduction_pattern_use_after_erase y_call b h =
      let fits = erased-compliant y_op 0 b h in
      rw (
        past y_op x_op 0 1 (λ e. cc) fits,
        past y_op x_op 0 0 (λ e. cc) fits,
        past_number y_op 0 1 (omega arith) fits,
        h,
      )
  reduction_pattern_use_after_erase cz_call b h =
      let fits = erased-compliant z_op 1 b h in
      rw (
        past z_op x_op 1 1 (λ e. cc) fits,
        past z_op x_op 1 0 (λ e. cc) fits,
        past z_op y_op 1 1 (λ e. cc) fits,
        past z_op y_op 1 0 (λ e. cc) fits,
        h,
      )
  reduction_pattern_use_after_erase z_call b h =
      let fits = erased-compliant z_op 0 b h in
      rw (
        past z_op x_op 0 1 (λ e. cc) fits,
        past z_op x_op 0 0 (λ e. cc) fits,
        past z_op y_op 0 1 (λ e. cc) fits,
        past z_op y_op 0 0 (λ e. cc) fits,
        past_number z_op 0 1 (omega arith) fits,
        h,
      )
  reduction_pattern_use_after_erase ch_call b h =
      let fits = erased-compliant h_op 1 b h in
      rw (
        past h_op x_op 1 1 (λ e. cc) fits,
        past h_op x_op 1 0 (λ e. cc) fits,
        past h_op y_op 1 1 (λ e. cc) fits,
        past h_op y_op 1 0 (λ e. cc) fits,
        past h_op z_op 1 1 (λ e. cc) fits,
        past h_op z_op 1 0 (λ e. cc) fits,
        h,
      )

  -- What a row of calls leaves, if the gate is still there: the block as it was.
  abbrev IsIntact : Result (Outcome F) → Type 0
  IsIntact (ok (kept b)) = b ≡ before
  IsIntact (ok (erased b)) = Unit
  IsIntact (fault e) = Unit

  cancel_found-IsIntact :
      (t : GateKind) (n : ℕ) (o : Option (Found F)) → IsIntact (ok (cancel_found t n 1 before g o))
  unfolding cancel_found
  cancel_found-IsIntact t n none = refl
  cancel_found-IsIntact t n (some prev) = elim (Bool-cases (cancels t n 1 g prev.gate)) [
    | inl all ↦ rw all tt
    | inr other ↦ rw other refl
  ]

  call-IsIntact : (t : GateKind) (n : ℕ) → IsIntact (call_of t n)
  unfolding pattern_cancellation
  call-IsIntact t n = elim (Bool-cases (is_compliant t n 1 g)) [
    | inl fits ↦ rw fits (first-IsIntact g.targets)
    | inr other ↦ rw other refl
  ]
    where
      first-IsIntact :
          (vs : List Value)
          → IsIntact (
              first_value vs >>= λ target.
              ok (cancel_found t n 1 before g (get_previous_operation_on_target before target)))
      first-IsIntact [] = unfold first_value in tt
      first-IsIntact (v ∷ vs) =
          unfold first_value in
          cancel_found-IsIntact t n (get_previous_operation_on_target before v)

  and_then-IsIntact :
      (t : GateKind) (n : ℕ) (o : Result (Outcome F)) → IsIntact o → IsIntact (and_then t n g o)
  unfolding and_then
  and_then-IsIntact t n (ok (kept b)) e = rw e (call-IsIntact t n)
  and_then-IsIntact t n (ok (erased b)) e = tt
  and_then-IsIntact t n (fault x) e = tt

module _ {F : Type 0} (m : Model F) (r : ℕ) where
  h-SelfInverse : SelfInverse m r h_op
  unfolding unitary
  h-SelfInverse a b ps qs q s = m.h_h q s

  last_call :
      (before : List (Op F)) (g : Gate F)
      → All (IsPlaced r) before
      → IsPlaced r (operator g)
      → (o : Result (Outcome F)) → IsIntact before g o
      → Post
          (Unit {0})
          (Refines m r before (operator g))
          (and_then h_op 0 g o >>= λ left. ok (settle g left))
  unfolding and_then
  last_call before g p h (ok (kept b)) e = rw e (
      may_fault (Refines m r before (operator g))
        (pattern_cancellation h_op h_op 0 1 0 1 before g >>= λ left. ok (settle g left))
        (plain_cancellation-Keeps m r h_op h-SelfInverse before g p h))
  last_call before g p h (ok (erased b)) e = tt
  last_call before g p h (fault x) e = tt

  pub reduction_pattern-Keeps : Keeps m r (Unit {0}) reduction_pattern
  unfolding reduction_pattern reductions
  reduction_pattern-Keeps before g p h = last_call before g p h _ (
      and_then-IsIntact before g h_op 1 _ (
        and_then-IsIntact before g z_op 0 _ (
          and_then-IsIntact before g z_op 1 _ (
            and_then-IsIntact before g y_op 0 _ (
              and_then-IsIntact before g y_op 1 _
                (and_then-IsIntact before g x_op 0 _ (call-IsIntact before g x_op 1)))))))
