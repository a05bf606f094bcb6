-- ===== src/Base/Faults.antt =====
-- Results of code that may go wrong in ways C++ leaves undefined: a fault is a value.
use mathlib.Core.Path.{◌≡◌, refl}

-- `null_gate`: a method of a null handle, after a `dyn_cast` that did not match.
-- `out_of_range`: the first element of an empty range.
-- `overflow`: a number of type `int` gets too large.
-- `use_after_erase`: an operation is read after it was erased. Two faults stop the program:
-- `failed_assertion` is an assertion that does not hold, `missing_key` is `at` on a missing key.
pub data Fault : Type 0 where
  null_gate out_of_range use_after_erase failed_assertion missing_key overflow : Fault

pub data Result {ℓ} (A : Type ℓ) : Type ℓ where
  ok : A → Result A
  fault : Fault → Result A

infixl 5 ◌>>=◌
abbrev pub ◌>>=◌ {ℓ κ} : {A : Type ℓ} {B : Type κ} → Result A → (A → Result B) → Result B
ok a >>= f = f a
fault e >>= f = fault e

-- A postcondition. `W` is what a fault must give: `⊥` where the code has to have a result, `Unit`
-- where only its results are spoken of.
abbrev pub Post {ℓ} : {A : Type ℓ} → Type 0 → (A → Type 0) → Result A → Type 0
Post W P (ok a) = P a
Post W P (fault e) = W

pub Post-bind {ℓ μ} :
    {A : Type ℓ} {B : Type μ} (W : Type 0) (P : A → Type 0) (Q : B → Type 0) (m : Result A)
    (f : A → Result B)
    → Post W P m
    → ((a : A) → P a → Post W Q (f a))
    → Post W Q (m >>= f)
Post-bind W P Q (ok a) f h k = k a h
Post-bind W P Q (fault e) f h k = h

-- A chain of two steps, where the first part of it is known to be one.
pub bind_regroup {ℓ μ ν} :
    {A : Type ℓ} {B : Type μ} {C : Type ν} (o : Result A) (f : A → Result C) (g : A → Result B)
    (k : B → Result C)
    → ((a : A) → f a ≡ (g a >>= k))
    → (o >>= f) ≡ (o >>= g >>= k)
bind_regroup (ok a) f g k h = h a
bind_regroup (fault e) f g k h = refl

pub Post-map {ℓ} :
    {A : Type ℓ} (W : Type 0) (P Q : A → Type 0) (m : Result A)
    → ((a : A) → P a → Q a)
    → Post W P m
    → Post W Q m
Post-map W P Q (ok a) k h = k a h
Post-map W P Q (fault e) k h = h

pub may_fault {ℓ} : {A : Type ℓ} (P : A → Type 0) (m : Result A) → Post ⊥ P m → Post (Unit {0}) P m
may_fault P (ok a) h = h
may_fault P (fault e) h = tt

pub bind_assoc {ℓ μ ν} :
    {A : Type ℓ} {B : Type μ} {C : Type ν} (m : Result A) (f : A → Result B) (g : B → Result C)
    → (m >>= f >>= g) ≡ (m >>= λ a. f a >>= g)
bind_assoc (ok a) f g = refl
bind_assoc (fault e) f g = refl

-- What holds of a result that there is, and what holds if there is one.
pub Post-both {ℓ} :
    {A : Type ℓ} (P Q : A → Type 0) (m : Result A)
    → Post ⊥ P m
    → Post (Unit {0}) Q m
    → Post ⊥ (λ a. P a × Q a) m
Post-both P Q (ok a) h k = (h, k)
Post-both P Q (fault e) h k = h
