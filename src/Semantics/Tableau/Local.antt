-- ===== src/Semantics/Tableau/Local.antt =====
-- Pauli strings over the qubits, and operators that read and write the string at two qubits.
use mqss_passes_suite.Base.{
  ◌==◌, ◌≡◌, ◌≢◌, ◌↔◌, sym, ◌∙◌, Bool, true, false, ◌&&◌, if◌then◌else◌, arith, fun_ext,
}
use mqss_passes_suite.Quake.Ops.{Value, extract_ref, result}

abbrev pub xor : Bool → Bool → Bool
xor true true = false
xor true false = true
xor false b = b

abbrev pub same_value : Value → Value → Bool
same_value (extract_ref v i) (extract_ref w j) = v == w && i == j
same_value (result a) (result b) = a == b
same_value _ _ = false

pub same_value_iff : (p q : Value) → (same_value p q ≡ true) ↔ (p ≡ q)
same_value_iff p q = ground arith

-- The X and the Z part of a Pauli operator on one qubit.
abbrev pub Bits : Type 0
Bits = Bool × Bool

pub record Tableau : Type 0 where
  pub bits : Value → Bits
  pub sign : Bool

abbrev pub update : (Value → Bits) → Value → Bits → Value → Bits
update f q b v = if same_value v q then b else f v

abbrev pub One : Type 0
One = Bits → Bits × Bool

abbrev pub Two : Type 0
Two = Bits → Bits → Bits × Bits × Bool

unfoldable pub write : Bits × Bits × Bool → Value → Value → Tableau → Tableau
write w c t s = record { bits = update (update s.bits c w.0) t w.1; sign = xor s.sign w.2 }

unfoldable pub local_two : Two → Value → Value → Tableau → Tableau
local_two f c t s = write (f (s.bits c) (s.bits t)) c t s

-- An operator on one qubit, as one on two that are the same.
abbrev pub one : One → Two
one f a b = let w = f a in (w.0, w.0, w.1)

pub update_comm :
    (f : Value → Bits) (p q : Value) (a b : Bits)
    → p ≢ q
    → update (update f p a) q b ≡ update (update f q b) p a
update_comm f p q a b ne = fun_ext λ v. ground (arith, same_value_iff v p, same_value_iff v q)

read_other : (f : Value → Bits) (p q : Value) (a : Bits) → p ≢ q → update f q a p ≡ f p
read_other f p q a ne = ground (arith, same_value_iff p q)

xor_right_comm : (a b c : Bool) → xor (xor a b) c ≡ xor (xor a c) b
xor_right_comm a b c = ground arith

-- The bits at a qubit that is not written.
read_apart :
    (w : Bits × Bits × Bool) (d u v : Value) (s : Tableau)
    → v ≢ d
    → v ≢ u
    → (write w d u s).bits v ≡ s.bits v
unfolding write
read_apart w d u v s vd vu =
    read_other (update s.bits d w.0) v u w.1 vu ∙ read_other s.bits v d w.0 vd

-- Two writes after two writes elsewhere.
writes_comm :
    (b : Value → Bits) (c t d u : Value) (x y z w : Bits)
    → c ≢ d
    → c ≢ u
    → t ≢ d
    → t ≢ u
    → update (update (update (update b d z) u w) c x) t y
      ≡ update (update (update (update b c x) t y) d z) u w
writes_comm b c t d u x y z w cd cu td tu = cc (
  update_comm (update b d z) u c w x (λ e. cu (sym e)),
  update_comm b d c z x (λ e. cd (sym e)),
  update_comm (update (update b c x) d z) u t w y (λ e. tu (sym e)),
  update_comm (update b c x) d t z y (λ e. td (sym e)),
)

module _ (c t d u : Value) (cd : c ≢ d) (cu : c ≢ u) (td : t ≢ d) (tu : t ≢ u) where
  write_comm :
      (a b : Bits × Bits × Bool) (s : Tableau)
      → write a c t (write b d u s) ≡ write b d u (write a c t s)
  unfolding write
  write_comm a b s i = record {
    bits = writes_comm s.bits c t d u a.0 a.1 b.0 b.1 cd cu td tu i;
    sign = xor_right_comm s.sign b.2 a.2 i;
  }

  -- Operators that share no qubit commute.
  pub local_two_comm :
      (f g : Two) (s : Tableau)
      → local_two f c t (local_two g d u s) ≡ local_two g d u (local_two f c t s)
  unfolding local_two
  local_two_comm f g s =
      let a = f (s.bits c) (s.bits t) in
      let b = g (s.bits d) (s.bits u) in
      cc (
        read_apart b d u c s cd cu,
        read_apart b d u t s td tu,
        read_apart a c t d s (λ e. cd (sym e)) (λ e. td (sym e)),
        read_apart a c t u s (λ e. cu (sym e)) (λ e. tu (sym e)),
        write_comm a b s,
      )
