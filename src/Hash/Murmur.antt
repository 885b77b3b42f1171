-- ===== src/Hash/Murmur.antt =====
-- murmurhash3.h: `MurmurHash3_x86_128` and its helpers, on a little-endian machine.
use coucal.Base.{
  ℕ, zero, suc, ◌+◌, ◌-◌, ◌*◌, ◌/◌, ◌%◌, ◌^◌, List, length, get_or, drop, leb, if◌then◌else◌,
  bit_xor, bit_or,
}
use coucal.Base.Words.{u32_mod}

-- uint32_t arithmetic
unfoldable pub add32 : ℕ → ℕ → ℕ
add32 a b = (a + b) % u32_mod

unfoldable pub mul32 : ℕ → ℕ → ℕ
mul32 a b = (a * b) % u32_mod

unfoldable pub shl32 : ℕ → ℕ → ℕ
shl32 x k = (x * 2 ^ k) % u32_mod

unfoldable pub rotl32 : ℕ → ℕ → ℕ
unfolding shl32
rotl32 x r = bit_or (shl32 x r) (x / 2 ^ (32 - r))

-- The four bytes at index `i`. A byte past the end is never read with an effect: the tail's cases
-- ask for the bytes that are there, and xor with 0 changes nothing.
unfoldable pub getblock32 : List ℕ → ℕ → ℕ
unfolding shl32
getblock32 p i = bit_xor (get_or p i 0) (
    bit_xor (shl32 (get_or p (i + 1) 0) 8)
      (bit_xor (shl32 (get_or p (i + 2) 0) 16) (shl32 (get_or p (i + 3) 0) 24)))

unfoldable pub fmix32 : ℕ → ℕ
unfolding mul32
fmix32 h =
    let a = bit_xor h (h / 2 ^ 16) in
    let b = mul32 a 0x85ebca6b in
    let c = bit_xor b (b / 2 ^ 13) in let d = mul32 c 0xc2b2ae35 in bit_xor d (d / 2 ^ 16)

-- h1 .. h4
pub record Lanes : Type 0 where
  pub h1 : ℕ
  pub h2 : ℕ
  pub h3 : ℕ
  pub h4 : ℕ

abbrev pub c1 : ℕ
c1 = 0x239b961b

abbrev pub c2 : ℕ
c2 = 0xab0e9789

abbrev pub c3 : ℕ
c3 = 0x38b34ae5

abbrev pub c4 : ℕ
c4 = 0xa1e38b93

-- `k *= a; k = ROTL32(k, r); k *= b`
unfoldable pub scramble : ℕ → ℕ → ℕ → ℕ → ℕ
unfolding mul32 rotl32
scramble k a r b = mul32 (rotl32 (mul32 k a) r) b

-- `h = ROTL32(h, r); h += next; h = h * 5 + n`, after `h ^= k`
unfoldable pub stir : ℕ → ℕ → ℕ → ℕ → ℕ → ℕ
unfolding add32 mul32 rotl32
stir h k r next n = add32 (mul32 (add32 (rotl32 (bit_xor h k) r) next) 5) n

-- The body of the loop over blocks of 16 bytes.
unfoldable pub block : List ℕ → Lanes → Lanes
unfolding getblock32 scramble stir
block p h =
    let a = stir h.h1 (scramble (getblock32 p 0) c1 15 c2) 19 h.h2 0x561ccd1b in
    let b = stir h.h2 (scramble (getblock32 p 4) c2 16 c3) 17 h.h3 0x0bcaa747 in
    let c = stir h.h3 (scramble (getblock32 p 8) c3 17 c4) 15 h.h4 0x96cd1c35 in
    let d = stir h.h4 (scramble (getblock32 p 12) c4 18 c1) 13 a 0x32ac3b17 in
    record { h1 = a; h2 = b; h3 = c; h4 = d }

unfoldable pub blocks : ℕ → List ℕ → Lanes → Lanes
unfolding block
blocks zero p h = h
blocks (suc n) p h = blocks n (drop 16 p) (block p h)

-- The switch on `len & 15`, whose cases fall through: the word at 12 is mixed in from 13 bytes on,
-- that at 8 from 9 on, that at 4 from 5 on, that at 0 from 1 on.
unfoldable pub tail : ℕ → List ℕ → Lanes → Lanes
unfolding getblock32 scramble
tail rest p h = record {
  h1 = if leb 1 rest then bit_xor h.h1 (scramble (getblock32 p 0) c1 15 c2) else h.h1;
  h2 = if leb 5 rest then bit_xor h.h2 (scramble (getblock32 p 4) c2 16 c3) else h.h2;
  h3 = if leb 9 rest then bit_xor h.h3 (scramble (getblock32 p 8) c3 17 c4) else h.h3;
  h4 = if leb 13 rest then bit_xor h.h4 (scramble (getblock32 p 12) c4 18 c1) else h.h4;
}

-- `h1 += h2; h1 += h3; h1 += h4; h2 += h1; h3 += h1; h4 += h1;`
unfoldable pub spread : Lanes → Lanes
unfolding add32
spread h =
    let a = add32 (add32 (add32 h.h1 h.h2) h.h3) h.h4 in
    record { h1 = a; h2 = add32 h.h2 a; h3 = add32 h.h3 a; h4 = add32 h.h4 a }

unfoldable pub finish : ℕ → Lanes → Lanes
unfolding spread fmix32
finish len h =
    let n = len % u32_mod in
    let x = spread (record {
      h1 = bit_xor h.h1 n;
      h2 = bit_xor h.h2 n;
      h3 = bit_xor h.h3 n;
      h4 = bit_xor h.h4 n;
    }) in
    spread (record { h1 = fmix32 x.h1; h2 = fmix32 x.h2; h3 = fmix32 x.h3; h4 = fmix32 x.h4 })

unfoldable pub murmur_hash3 : List ℕ → ℕ → Lanes
unfolding blocks tail finish
murmur_hash3 bytes seed =
    let len = length bytes in
    let n = len / 16 in
    let h = blocks n bytes (record { h1 = seed; h2 = seed; h3 = seed; h4 = seed }) in
    finish len (tail (len % 16) (drop (n * 16) bytes) h)
