-- ===== src/Hash/Wide.antt =====
-- `coucal_hash_data` in the builds with hash keys of 64 bits (`COUCAL_HASH_SIZE == 64`), by each of the
-- three hash methods, and the position of such a key: the words are taken as they are, with no folding.
use coucal.Base.{
  ℕ, ◌+◌, ◌-◌, ◌*◌, ◌%◌, ◌≡◌, ◌≢◌, List, ◌==◌, if◌then◌else◌, true, inl, inr, Bool-cases, length,
  bit_and, arith,
}
use coucal.Base.Words.{size_mod, u32_mod, pow2}
use coucal.Hash.Fnv.{fnv1_offset_basis, fnv1_rounds}
use coucal.Hash.Md5.{Md5, feed}
use coucal.Hash.Murmur.{Lanes, getblock32, murmur_hash3}
use coucal.Run.{Run, ok, ◌>>=◌}
use coucal.State.{Hashkeys}

-- `~x` on 64 bits.
abbrev not64 : ℕ → ℕ
not64 x = size_mod - 1 - x % size_mod

-- "do not keep identical hashes"
unfoldable pub separate_wide : Hashkeys → Hashkeys
separate_wide h = if h.hash1 == h.hash2 then record h { hash2 = not64 h.hash2 } else h

-- Two words of 32 bits as one of 64, on a machine that is little-endian.
abbrev join_words : ℕ → ℕ → ℕ
join_words low high = low + high * u32_mod

unfoldable pub join_lanes : Lanes → Hashkeys
join_lanes r = record { hash1 = join_words r.h1 r.h2; hash2 = join_words r.h3 r.h4 }

unfoldable pub hash_data_wide : List ℕ → Hashkeys
unfolding separate_wide join_lanes murmur_hash3
hash_data_wide bytes = separate_wide (join_lanes (murmur_hash3 bytes 42))

-- "Direct hashes"
unfoldable pub hash_data_fnv1_wide : List ℕ → Hashkeys
unfolding fnv1_rounds separate_wide
hash_data_fnv1_wide bytes =
    let (h1, h2) = fnv1_rounds bytes fnv1_offset_basis (size_mod - 1 - fnv1_offset_basis) in
    separate_wide (record { hash1 = h1; hash2 = h2 })

unfoldable pub join_digest : List ℕ → Hashkeys
unfolding getblock32
join_digest digest = record {
  hash1 = join_words (getblock32 digest 0) (getblock32 digest 4);
  hash2 = join_words (getblock32 digest 8) (getblock32 digest 12);
}

unfoldable pub hash_data_md5_wide : (md5 : Md5) → List ℕ → Run Hashkeys
unfolding feed join_digest separate_wide
hash_data_md5_wide md5 bytes = do
  ctx ← md5.init
  ok (separate_wide (join_digest (md5.final (feed md5 (length bytes) ctx bytes 0))))

-- `coucal_hash_to_pos_`, whose mask is not cut.
unfoldable pub hash_to_pos_wide : ℕ → ℕ → ℕ
hash_to_pos_wide lg_size hash = bit_and hash ((pow2 lg_size - 1) % size_mod)

not64-ne : (x : ℕ) → x ≢ not64 x
not64-ne x e = omega (arith, e)

separate_wide-ne : (h : Hashkeys) → (separate_wide h).hash1 ≢ (separate_wide h).hash2
unfolding separate_wide
separate_wide-ne h = elim (Bool-cases (h.hash1 == h.hash2)) [
  | inl same ↦ rw same (λ e. omega (arith, e, equal h same))
  | inr other ↦ rw other (λ e. ground (arith, e))
]
  where
    equal : (h : Hashkeys) → (h.hash1 == h.hash2) ≡ true → h.hash1 ≡ h.hash2
    equal h e = ground arith

-- The two hashes of 64 bits that MurmurHash3 gives some data are never the same, nor are those of FNV-1.
pub hash_data_wide-ne :
    (bytes : List ℕ)
    → ((hash_data_wide bytes).hash1 ≢ (hash_data_wide bytes).hash2)
      × ((hash_data_fnv1_wide bytes).hash1 ≢ (hash_data_fnv1_wide bytes).hash2)
unfolding hash_data_wide hash_data_fnv1_wide
hash_data_wide-ne bytes =
    let (h1, h2) = fnv1_rounds bytes fnv1_offset_basis (size_mod - 1 - fnv1_offset_basis) in
    (
      separate_wide-ne (join_lanes (murmur_hash3 bytes 42)),
      separate_wide-ne (record { hash1 = h1; hash2 = h2 }),
    )
