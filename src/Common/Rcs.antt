-- ===== src/Common/Rcs.antt =====
-- The return codes of the C functions, and the outcome of a run.
use mathlib.Core.Path.{◌≡◌, refl}
use mathlib.Core.Logic.{◌⊎◌, inl, inr}

-- 0 and -1. A callback's code counts as `ok` if it is 0, else as `failed`.
pub data Rc : Type 0 where
  ok failed : Rc

pub Rc-cases : (r : Rc) → (r ≡ ok) ⊎ (r ≡ failed)
Rc-cases ok = inl refl
Rc-cases failed = inr refl

-- `fault`: the C text has undefined behaviour there.
pub data Run {ℓ} (A : Type ℓ) : Type ℓ where
  done : A → Run A
  fault : Run A

infixl 5 ◌>>=◌
abbrev pub ◌>>=◌ {ℓ κ} : {A : Type ℓ} {B : Type κ} → Run A → (A → Run B) → Run B
done a >>= f = f a
fault >>= f = fault

-- The run ends, in a value that satisfies `P`.
abbrev pub Returns {ℓ κ} : {A : Type ℓ} → Run A → (A → Type κ) → Type (ℓ ⊔ κ)
Returns {A} r P = (a : A) × (r ≡ done a) × P a

-- A run whose rest is undefined in any case.
pub bind_fault {ℓ κ} :
    {A : Type ℓ} {B : Type κ} (m : Run A) (f : A → Run B)
    → ((a : A) → f a ≡ fault)
    → (m >>= f) ≡ fault
bind_fault (done a) f h = h a
bind_fault fault f h = refl
