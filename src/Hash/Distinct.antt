-- ===== src/Hash/Distinct.antt =====
-- "do not keep identical hashes", at the end of `coucal_hash_data`.
use coucal.Base.{true, ℕ, ◌≡◌, ◌≢◌, List, ◌==◌, Bool-cases, inl, inr, arith}
use coucal.Base.Words.{not32}
use coucal.Hash.Murmur.{murmur_hash3}
use coucal.Hash.{fold_lanes, separate, hash_data, hash_string}
use coucal.State.{Hashkeys}

not32-ne : (x : ℕ) → x ≢ not32 x
not32-ne x e = omega (arith, e)

pub separate-ne : (h : Hashkeys) → (separate h).hash1 ≢ (separate h).hash2
unfolding separate
separate-ne h = elim (Bool-cases (h.hash1 == h.hash2)) [
  | inl same ↦ rw same (λ e. omega (arith, e, ap_same h same))
  | inr other ↦ rw other (λ e. ground (arith, e))
]
  where
    ap_same : (h : Hashkeys) → (h.hash1 == h.hash2) ≡ true → h.hash1 ≡ h.hash2
    ap_same h e = ground arith

-- The two hashes that `coucal_hash_string` gives a key are never the same.
pub hash_string-ne : (name : List ℕ) → (hash_string name).hash1 ≢ (hash_string name).hash2
unfolding hash_string hash_data
hash_string-ne name = separate-ne (fold_lanes (murmur_hash3 name 42))
