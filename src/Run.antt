-- ===== src/Run.antt =====
-- Code that may end in `coucal_assert_failed`, which calls a fatal handler and then `abort()`.
use coucal.Base.{◌≡◌, Bool, true, false}

pub data Run {ℓ} (A : Type ℓ) : Type ℓ where
  ok : A → Run A
  abort : Run A

infixl 5 ◌>>=◌ ◌>>◌
abbrev pub ◌>>=◌ {ℓ κ} : {A : Type ℓ} {B : Type κ} → Run A → (A → Run B) → Run B
ok a >>= f = f a
abort >>= f = abort

abbrev pub ◌>>◌ {ℓ} : {B : Type ℓ} → Run (Unit {0}) → Run B → Run B
m >> k = m >>= λ _. k

-- `coucal_assert(HASHTABLE, EXP)`
abbrev pub assert : Bool → Run (Unit {0})
assert true = ok tt
assert false = abort

-- The run ends normally, with a result as described.
abbrev pub Returns {ℓ κ} : {A : Type ℓ} → Run A → (A → Type κ) → Type (ℓ ⊔ κ)
Returns {A} m P = (a : A) × (m ≡ ok a) × P a
