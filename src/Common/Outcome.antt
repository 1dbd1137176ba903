-- ===== src/Common/Outcome.antt =====
-- How a piece of C code ends: in a value, in undefined behaviour (a null or dangling pointer, an
-- access past the end of an array), or, in the model only, with the fuel of a loop used up.
use mathlib.Core.Path.{◌≡◌, refl}

pub data Run {ℓ} (A : Type ℓ) : Type ℓ where
  done : A → Run A
  undefined : Run A
  exhausted : Run A

infixl 5 ◌>>=◌
abbrev pub ◌>>=◌ {ℓ κ} : {A : Type ℓ} {B : Type κ} → Run A → (A → Run B) → Run B
done a >>= f = f a
undefined >>= f = undefined
exhausted >>= f = exhausted

-- The code ends in a value with the property: neither undefined behaviour nor an endless loop.
abbrev pub Ends {ℓ} : {A : Type ℓ} → (A → Type 0) → Run A → Type 0
Ends P (done a) = P a
Ends P undefined = ⊥
Ends P exhausted = ⊥

-- The rule for a sequence of two steps.
pub Ends-bind {ℓ κ} :
    {A : Type ℓ} {B : Type κ} (P : A → Type 0) (Q : B → Type 0) (m : Run A) (f : A → Run B)
    → Ends P m
    → ((a : A) → P a → Ends Q (f a))
    → Ends Q (m >>= f)
Ends-bind P Q (done a) f h k = k a h
Ends-bind P Q undefined f h k = absurd h
Ends-bind P Q exhausted f h k = absurd h

pub Ends-weaken {ℓ} :
    {A : Type ℓ} (P Q : A → Type 0) (m : Run A) → Ends P m → ((a : A) → P a → Q a) → Ends Q m
Ends-weaken P Q (done a) h k = k a h
Ends-weaken P Q undefined h k = absurd h
Ends-weaken P Q exhausted h k = absurd h

-- The value that the code ends in.
pub Ends-done {ℓ} :
    {A : Type ℓ} (P : A → Type 0) (m : Run A) → Ends P m → (a : A) × (m ≡ done a) × P a
Ends-done P (done a) h = (a, refl, h)
Ends-done P undefined h = absurd h
Ends-done P exhausted h = absurd h
