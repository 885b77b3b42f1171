-- ===== src/Hash/Fnv.antt =====
-- `coucal_hash_data` in the build with FNV-1 (`HTS_INTHASH_USES_FNV1`), for hash keys of 32 bits.
use coucal.Base.{ℕ, ◌-◌, ◌*◌, ◌/◌, ◌%◌, ◌≢◌, List, [], ◌∷◌, bit_xor}
use coucal.Base.Words.{size_mod, u32_mod}
use coucal.Hash.Distinct.{separate-ne}
use coucal.Hash.{separate}
use coucal.State.{Hashkeys}

abbrev fnv1_prime : ℕ
fnv1_prime = 1099511628211

abbrev pub fnv1_offset_basis : ℕ
fnv1_offset_basis = 14695981039346656037

-- `h = (h * FNV1_PRIME) ^ c`, on 64 bits.
unfoldable pub fnv1_round : ℕ → ℕ → ℕ
fnv1_round h c = bit_xor ((h * fnv1_prime) % size_mod) c

-- The loop; the second hash reads `~c` on 8 bits.
unfoldable pub fnv1_rounds : List ℕ → ℕ → ℕ → ℕ × ℕ
unfolding fnv1_round
fnv1_rounds [] h1 h2 = (h1, h2)
fnv1_rounds (c ∷ bytes) h1 h2 = fnv1_rounds bytes (fnv1_round h1 c) (fnv1_round h2 (255 - c))

-- "XOR-folding to improve diffusion"
unfoldable pub fold_word : ℕ → ℕ
fold_word h = bit_xor (h % u32_mod) (h / u32_mod)

unfoldable pub hash_data_fnv1 : List ℕ → Hashkeys
unfolding fnv1_rounds fold_word separate
hash_data_fnv1 bytes =
    let (h1, h2) = fnv1_rounds bytes fnv1_offset_basis (size_mod - 1 - fnv1_offset_basis) in
    separate (record { hash1 = fold_word h1; hash2 = fold_word h2 })

-- The two hashes that the build with FNV-1 gives some data are never the same.
hash_data_fnv1-ne : (bytes : List ℕ) → (hash_data_fnv1 bytes).hash1 ≢ (hash_data_fnv1 bytes).hash2
unfolding hash_data_fnv1
hash_data_fnv1-ne bytes =
    let (h1, h2) = fnv1_rounds bytes fnv1_offset_basis (size_mod - 1 - fnv1_offset_basis) in
    separate-ne (record { hash1 = fold_word h1; hash2 = fold_word h2 })
