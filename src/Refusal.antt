-- ===== src/Refusal.antt =====
-- Requests for memory that are refused: what a run does then, against the run that gets all of it.
pub mod Pool
pub mod Table
pub mod Client
use coucal.Base.{ℕ, ◌≡◌, refl, ap, ◌∙◌, ◌⊎◌, inl, inr, Bool, true, false}
use coucal.Run.{Run, ok, abort, ◌>>=◌, ◌>>◌, assert}
use coucal.State.{Allocator}

-- The allocator that grants every request, and is as the given one otherwise.
abbrev pub granting : Allocator → Allocator
granting alloc = record alloc { succeeds = λ _ _. true }

-- A request that the allocator refuses.
pub record Refused (alloc : Allocator) : Type 0 where
  pub nth : ℕ
  pub bytes : ℕ
  pub refuses : alloc.succeeds nth bytes ≡ false

-- A run that ends in `abort()` on a refusal, or is the other one.
abbrev pub Falls {ℓ} : {A : Type ℓ} → Allocator → Run A → Run A → Type ℓ
Falls alloc m m' = (Refused alloc × (m ≡ abort)) ⊎ (m ≡ m')

pub bind-Falls {ℓ κ} :
    {A : Type ℓ} {B : Type κ} {alloc : Allocator} (m m' : Run A) (f f' : A → Run B)
    → Falls alloc m m'
    → ((a : A) → Falls alloc (f a) (f' a))
    → Falls alloc (m >>= f) (m' >>= f')
bind-Falls m m' f f' (inl (r, e)) h = inl (r, ap (λ x. x >>= f) e)
bind-Falls m abort f f' (inr e) h = inr (ap (λ x. x >>= f) e)
bind-Falls {alloc} m (ok a) f f' (inr e) h = go (h a)
  where
    go : Falls alloc (f a) (f' a) → Falls alloc (m >>= f) (f' a)
    go (inl (r, e')) = inl (r, ap (λ x. x >>= f) e ∙ e')
    go (inr e') = inr (ap (λ x. x >>= f) e ∙ e')

pub same-Falls {ℓ} : {A : Type ℓ} {alloc : Allocator} (m : Run A) → Falls alloc m m
same-Falls m = inr refl

pub asserted-Falls {ℓ} :
    {A : Type ℓ} {alloc : Allocator} (b : Bool) (m m' : Run A)
    → Falls alloc m m'
    → Falls alloc (assert b >> m) (assert b >> m')
asserted-Falls true m m' h = h
asserted-Falls false m m' h = inr refl
