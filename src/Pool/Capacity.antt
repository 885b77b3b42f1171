-- ===== src/Pool/Capacity.antt =====
-- The loop of `coucal_dup_name_internal` that chooses the capacity of the pool.
use coucal.Base.{
  ℕ, zero, suc, ◌+◌, ◌*◌, ◌^◌, ◌%◌, ◌≤◌, ◌<◌, ◌≡◌, ap, sym, ◌∙◌, inl, inr, ltb, ltb→lt, ==_iff,
  ◌==◌, Bool-cases, arith,
}
use coucal.Base.Words.{size_mod}
use coucal.Pool.{grow_capacity}
use coucal.Run.{Returns}
use coucal.State.{Allocator}
use native.Mathlib.Nat.{pow-suc, pow-le-pow_right, mod-eq_of_lt}

power_le : (k : ℕ) → k ≤ 63 → 2 ^ k ≤ 2 ^ 63
power_le k h = pow-le-pow_right (omega arith) h

below_top : (k need : ℕ) → need ≤ 2 ^ 63 → k ≤ 63 → 2 ^ k < need → k < 63
below_top k need bound h less = elim (Bool-cases (k == 63)) [
  | inl e ↦ let top : k ≡ 63 = (==_iff k 63).0 e in absurd (omega (arith, ap (λ n. 2 ^ n) top))
  | inr e ↦ ground arith
]

-- From a power of two of at most 2^63, the loop that doubles the capacity until it holds a need of at
-- most 2^63 ends within its fuel, if the fuel and the exponent are more than 63 together, with a capacity
-- that holds the need and is at most 2^63.
pub grow_capacity_lem :
    (alloc : Allocator) (fuel k need : ℕ)
    → 63 < fuel + k
    → k ≤ 63
    → need ≤ 2 ^ 63
    → Returns (grow_capacity alloc fuel (2 ^ k) need) λ n. (need ≤ n) × (n ≤ 2 ^ 63)
unfolding grow_capacity
grow_capacity_lem alloc zero k need h hk bound = absurd (omega arith)
grow_capacity_lem alloc (suc fuel) k need h hk bound = elim (Bool-cases (ltb (2 ^ k) need)) [
  | inl short ↦
      let less : k < 63 = below_top k need bound hk (ltb→lt _ _ short) in
      let twice : (2 ^ k * 2) % size_mod ≡ 2 ^ suc k =
        ap (λ n. n % size_mod) (sym (pow-suc 2 k))
        ∙ mod-eq_of_lt (omega (arith, power_le (suc k) (omega arith))) in
      rw (short, twice)
        (grow_capacity_lem alloc fuel (suc k) need (omega arith) (omega arith) bound)
  | inr enough ↦ (2 ^ k, rw enough, (ground arith, pow-le-pow_right (omega arith) hk))
]
