-- ===== src/Semantics/Tableau/Fuse.antt =====
-- Operators one after the other on the same qubits are one operator there.
use mqss_passes_suite.Base.{◌≡◌, ◌≢◌, sym, ap, Bool, false, arith, fun_ext}
use mqss_passes_suite.Quake.Ops.{Value}
use mqss_passes_suite.Semantics.Tableau.Local.{
  same_value_iff, xor, Bits, Tableau, update, One, Two, write, local_two, one, update_comm,
}

abbrev pub fuse : Two → Two → Two
fuse f g x y = let w = g x y in let v = f w.0 w.1 in (v.0, v.1, xor w.2 v.2)

abbrev pub fuse_one : One → One → One
fuse_one f g x = let w = g x in let v = f w.0 in (v.0, xor w.1 v.1)

abbrev pub at_target : One → Two
at_target f x y = let w = f y in (x, w.0, w.1)

abbrev pub exchanged : Two → Two
exchanged f x y = let w = f y x in (w.1, w.0, w.2)

rewrite_bits :
    (b : Value → Bits) (c t : Value) (x y z w : Bits)
    → update (update (update (update b c x) t y) c z) t w ≡ update (update b c z) t w
rewrite_bits b c t x y z w = fun_ext λ v. ground (arith, same_value_iff v c, same_value_iff v t)

keep_bits :
    (b : Value → Bits) (c t : Value) (y : Bits)
    → update (update b t y) t y ≡ update (update b c (b c)) t y
keep_bits b c t y = fun_ext λ v. ground (arith, same_value_iff v c, same_value_iff v t, ap b)

same_bits : (b : Value → Bits) (c t : Value) → update (update b c (b c)) t (b t) ≡ b
same_bits b c t = fun_ext λ v. ground (arith, same_value_iff v c, same_value_iff v t)

xor_assoc : (a b c : Bool) → xor (xor a b) c ≡ xor a (xor b c)
xor_assoc a b c = ground arith

xor-false : (a : Bool) → xor a false ≡ a
xor-false a = ground arith

pub local_two_cong :
    (f g : Two) (c t : Value) (s : Tableau)
    → ((x y : Bits) → f x y ≡ g x y)
    → local_two f c t s ≡ local_two g c t s
unfolding local_two
local_two_cong f g c t s h =
    ap (λ (w : Bits × Bits × Bool). write w c t s) (h (s.bits c) (s.bits t))

write-write :
    (w v : Bits × Bits × Bool) (c t : Value) (s : Tableau)
    → write v c t (write w c t s) ≡ write (v.0, v.1, xor w.2 v.2) c t s
unfolding write
write-write w v c t s i = record {
  bits = rewrite_bits s.bits c t w.0 w.1 v.0 v.1 i;
  sign = xor_assoc s.sign w.2 v.2 i;
}

write-bits_control :
    (w : Bits × Bits × Bool) (c t : Value) (s : Tableau) → c ≢ t → (write w c t s).bits c ≡ w.0
unfolding write
write-bits_control w c t s ne = ground (arith, same_value_iff c t, same_value_iff c c)

write-bits_target :
    (w : Bits × Bits × Bool) (c t : Value) (s : Tableau) → (write w c t s).bits t ≡ w.1
unfolding write
write-bits_target w c t s = ground (arith, same_value_iff t t)

pub local_two-fuse :
    (f g : Two) (c t : Value) (s : Tableau)
    → c ≢ t
    → local_two f c t (local_two g c t s) ≡ local_two (fuse f g) c t s
unfolding local_two
local_two-fuse f g c t s ne =
    let w = g (s.bits c) (s.bits t) in
    cc (write-bits_control w c t s ne, write-bits_target w c t s, write-write w (f w.0 w.1) c t s)

pub local_one_fuse :
    (f g : One) (q : Value) (s : Tableau)
    → local_two (one f) q q (local_two (one g) q q s) ≡ local_two (one (fuse_one f g)) q q s
unfolding local_two
local_one_fuse f g q s =
    let w = one g (s.bits q) (s.bits q) in
    cc (write-bits_target w q q s, write-write w (one f w.0 w.1) q q s)

pub local_two_id : (c t : Value) (s : Tableau) → local_two (λ x y. (x, y, false)) c t s ≡ s
unfolding local_two write
local_two_id c t s i = record { bits = same_bits s.bits c t i; sign = xor-false s.sign i }

-- An operator on the target, and one with the qubits exchanged, as operators on both qubits.
pub local_one-at_target :
    (f : One) (c t : Value) (s : Tableau) → local_two (one f) t t s ≡ local_two (at_target f) c t s
unfolding local_two write
local_one-at_target f c t s i = record {
  bits = keep_bits s.bits c t (f (s.bits t)).0 (i);
  sign = xor s.sign (f (s.bits t)).1;
}

pub local_two-exchanged :
    (f : Two) (c t : Value) (s : Tableau)
    → c ≢ t
    → local_two f t c s ≡ local_two (exchanged f) c t s
unfolding local_two write
local_two-exchanged f c t s ne i =
    let w = f (s.bits t) (s.bits c) in
    record { bits = update_comm s.bits t c w.0 w.1 (λ e. ne (sym e)) i; sign = xor s.sign w.2 }

pub local_one_cong :
    (f g : One) (q : Value) (s : Tableau)
    → ((x : Bits) → f x ≡ g x)
    → local_two (one f) q q s ≡ local_two (one g) q q s
unfolding local_two
local_one_cong f g q s h = ap (λ (w : Bits × Bool). write (w.0, w.0, w.1) q q s) (h (s.bits q))

pub local_one_id : (q : Value) (s : Tableau) → local_two (one (λ x. (x, false))) q q s ≡ s
unfolding local_two
local_one_id q s = local_two_id q q s
