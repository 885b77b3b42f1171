-- ===== src/Table/Position.antt =====
-- Where a hash leads to (`coucal_hash_to_pos_`).
use coucal.Base.{ℕ, ◌+◌, ◌%◌, ◌^◌, ◌≤◌, ◌<◌, ◌≡◌, ap, ◌∙◌, ◌⊎◌, arith, bit_and, suc}
use coucal.Base.Bits.{bit_and_mask, mod-double_cases}
use coucal.Base.Words.{pow2}
use coucal.Table.{hash_to_pos_at}
use native.Mathlib.Nat.{pow-suc, one-le-pow, pow-le-pow_right, mod-eq_of_lt, mod-lt}

pub pow2-pos : (lg : ℕ) → 0 < pow2 lg
pow2-pos lg = one-le-pow lg 2 (omega arith)

pub pow2-le : (lg : ℕ) → lg ≤ 32 → pow2 lg ≤ 2 ^ 32
pow2-le lg h = pow-le-pow_right (omega arith) h

-- For an exponent of at most 32, the position of `coucal_hash_to_pos_` is the hash modulo the number
-- of slots: the cut of the mask to 32 bits loses nothing.
pub hash_to_pos_at-eq-mod : (lg hash : ℕ) → lg ≤ 32 → hash_to_pos_at lg hash ≡ hash % 2 ^ lg
unfolding hash_to_pos_at
hash_to_pos_at-eq-mod lg hash h =
    ap (bit_and hash) (mod-eq_of_lt (omega (arith, pow2-le lg h, pow2-pos lg)))
    ∙ bit_and_mask lg hash

pub hash_to_pos_at-lt : (lg hash : ℕ) → lg ≤ 32 → hash_to_pos_at lg hash < pow2 lg
hash_to_pos_at-lt lg hash h =
    omega (arith, hash_to_pos_at-eq-mod lg hash h, mod-lt hash (pow2-pos lg))

-- When the table doubles, a position stays or moves up by the old size.
pub hash_to_pos_at-suc :
    (lg hash : ℕ)
    → suc lg ≤ 32
    → (hash_to_pos_at (suc lg) hash ≡ hash_to_pos_at lg hash)
      ⊎ (hash_to_pos_at (suc lg) hash ≡ hash_to_pos_at lg hash + pow2 lg)
hash_to_pos_at-suc lg hash h =
    rw
      (
        hash_to_pos_at-eq-mod (suc lg) hash h,
        hash_to_pos_at-eq-mod lg hash (omega arith),
        pow-suc 2 lg,
      )
      (mod-double_cases hash (2 ^ lg) (pow2-pos lg))
