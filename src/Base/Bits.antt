-- ===== src/Base/Bits.antt =====
-- `x & (2^k - 1)` as a remainder, at every width.
use Prim.Native.Nat.{
  ℕ, zero, suc, ◌+◌, ◌-◌, ◌*◌, ◌/◌, ◌%◌, ◌^◌, ◌≤◌, ◌<◌, min, bit_and, digits, bit_and-bitwise,
}
use mathlib.Core.Path.{◌≡◌, refl, ◌∙◌, ap}
use native.Mathlib.Nat.{
  pow-suc, one-le-pow, add-mul-mod_self_left, mod-eq_of_lt, div-add-mod, mod-lt,
}
use mathlib.Core.Logic.{◌⊎◌, inl, inr}
use native.Mathlib.Omega.{arith}

abbrev and_digits : ℕ → ℕ → ℕ → ℕ
and_digits n a b = digits (λ _. 0) min n a b

no_digits : (n a b : ℕ) → b ≡ 0 → and_digits n a b ≡ 0
no_digits zero a b e = refl
no_digits (suc n) zero b e = refl
no_digits (suc n) (suc a) b e = omega (arith, no_digits n (suc a / 2) (b / 2) (omega arith))

-- A remainder is known by a quotient that leaves it.
pub mod_unique : (x m q r : ℕ) → x ≡ r + m * q → r < m → x % m ≡ r
mod_unique x m q r e h = rw (e, add-mul-mod_self_left, mod-eq_of_lt h)

mod-double : (x m : ℕ) → 0 < m → x % (m * 2) ≡ (x / 2 % m) * 2 + x % 2
mod-double x m h =
    mod_unique x (m * 2) (x / 2 / m) (x / 2 % m * 2 + x % 2)
      (grind (arith, div-add-mod (x / 2) m, div-add-mod x 2))
      (omega (arith, mod-lt (x / 2) h, mod-lt x {m = 2} (omega arith)))

-- One digit of `a` goes with each one of the mask.
mask_digits : (k n a b : ℕ) → a ≤ n → b + 1 ≡ 2 ^ k → and_digits n a b ≡ a % 2 ^ k
mask_digits zero n a b h e = omega (arith, no_digits n a b (omega arith))
mask_digits (suc k) zero a b h e = ground (arith, one-le-pow (suc k) 2)
mask_digits (suc k) (suc n) zero b h e = ground (arith, one-le-pow (suc k) 2)
mask_digits (suc k) (suc n) (suc a) b h e = omega (
  arith,
  mask_digits k n (suc a / 2) (b / 2) (omega arith) (omega (arith, pow-suc 2 k)),
  pow-suc 2 k,
  one-le-pow k 2,
  mod-double (suc a) (2 ^ k) (omega (arith, one-le-pow k 2)),
  ap (λ (m : ℕ). suc a % m) (pow-suc 2 k),
)

pub bit_and_mask : (k a : ℕ) → bit_and a (2 ^ k - 1) ≡ a % 2 ^ k
bit_and_mask k a =
    bit_and-bitwise a (2 ^ k - 1)
    ∙ mask_digits k a a _ (omega arith) (omega (arith, one-le-pow k 2))

-- One bit more adds nothing or the next power to a remainder.
pub mod-double_cases : (x m : ℕ) → 0 < m → (x % (m * 2) ≡ x % m) ⊎ (x % (m * 2) ≡ x % m + m)
mod-double_cases x m h = elim (parity (x / m)) [
  | inl e ↦ inl (
      mod_unique x (m * 2) (x / m / 2) (x % m)
        (omega (arith, div-add-mod x m, ap (λ (t : ℕ). m * t) e)) (omega (arith, mod-lt x h)))
  | inr e ↦ inr (
      mod_unique x (m * 2) (x / m / 2) (x % m + m)
        (omega (arith, div-add-mod x m, ap (λ (t : ℕ). m * t) e)) (omega (arith, mod-lt x h)))
]
  where
    parity : (n : ℕ) → (n ≡ n / 2 * 2) ⊎ (n ≡ n / 2 * 2 + 1)
    parity n = omega arith
