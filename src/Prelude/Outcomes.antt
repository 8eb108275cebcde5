-- ===== src/Prelude/Outcomes.antt =====
-- A Go pair of a value and an error, of which one is meaningful.
use mathlib.Core.Path.{subst, ◌≡◌, refl}
use mathlib.Core.Bool.{Bool, true, false}

pub data Result {ℓ κ} (E : Type κ) (A : Type ℓ) : Type (ℓ ⊔ κ) where
  ok : A → Result E A
  err : E → Result E A

infixl 5 ◌>>=◌ ◌>>◌
abbrev pub ◌>>=◌ {ℓ κ} :
    {E : Type 0} {A : Type ℓ} {B : Type κ} → Result E A → (A → Result E B) → Result E B
ok a >>= f = f a
err e >>= f = err e

abbrev pub ◌>>◌ {ℓ} : {E : Type 0} {B : Type ℓ} → Result E (Unit {0}) → Result E B → Result E B
m >> k = m >>= λ _. k

-- `if test { return e }`
abbrev pub refuse_if : {E : Type 0} → Bool → E → Result E (Unit {0})
refuse_if true e = err e
refuse_if false e = ok tt

-- What holds of the value, if there is one.
pub data Ensures {A E : Type 0} (P : A → Type 0) : Result E A → Type 0 where
  on_ok : (a : A) → P a → Ensures P (ok a)
  on_err : (e : E) → Ensures P (err e)

pub Ensures-bind :
    {A B E : Type 0} {P : B → Type 0} (m : Result E A) (f : A → Result E B)
    → ((a : A) → m ≡ ok a → Ensures P (f a))
    → Ensures P (m >>= f)
Ensures-bind (ok a) f h = h a refl
Ensures-bind (err e) f h = on_err e

pub Ensures-refuse_if :
    {B E : Type 0} {P : B → Type 0} (b : Bool) (e : E) (k : Result E B)
    → (b ≡ false → Ensures P k)
    → Ensures P (refuse_if b e >> k)
Ensures-refuse_if true e k h = on_err e
Ensures-refuse_if false e k h = h refl

pub Ensures-ok :
    {A E : Type 0} {P : A → Type 0} (r : Result E A) (a : A) → Ensures P r → r ≡ ok a → P a
Ensures-ok {P} r a (on_ok b p) h = let e : b ≡ a = cc in subst P e p
Ensures-ok r a (on_err e) h = cc
