-- ===== src/Hash.antt =====
-- `coucal_hash_data` and `coucal_hash_string` of coucal.c, in the default build: MurmurHash3 and
-- hash keys of 32 bits.
pub mod Murmur
pub mod Distinct
pub mod Fnv
pub mod Md5
pub mod Wide
use coucal.Base.{ℕ, List, ◌==◌, if◌then◌else◌, bit_xor}
use coucal.Base.Words.{not32}
use coucal.Hash.Murmur.{Lanes, murmur_hash3}
use coucal.State.{Hashkeys}

-- "do not keep identical hashes"
unfoldable pub separate : Hashkeys → Hashkeys
separate h = if h.hash1 == h.hash2 then record h { hash2 = not32 h.hash2 } else h

-- "mix mix mix": `result[0] ^= result[2]; result[1] ^= result[3];`
unfoldable pub fold_lanes : Lanes → Hashkeys
fold_lanes r = record { hash1 = bit_xor r.h1 r.h3; hash2 = bit_xor r.h2 r.h4 }

unfoldable pub hash_data : List ℕ → Hashkeys
unfolding separate fold_lanes murmur_hash3
hash_data bytes = separate (fold_lanes (murmur_hash3 bytes 42))

-- A string is given by its bytes before the NUL, so `strlen` is the length of the list.
unfoldable pub hash_string : List ℕ → Hashkeys
unfolding hash_data
hash_string name = hash_data name
