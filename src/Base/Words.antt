-- ===== src/Base/Words.antt =====
-- Machine words: `size_t`, `uintptr_t` and `uint64_t` have 64 bits, a hash key has 32.
-- A word is a native number below its modulus; every operation of the code that can wrap is
-- written with its `%`.
use Prim.Native.Nat.{ℕ, ◌+◌, ◌-◌, ◌%◌, ◌^◌}

abbrev pub size_mod : ℕ
size_mod = 2 ^ 64

abbrev pub u32_mod : ℕ
u32_mod = 2 ^ 32

-- `n++` and `n--` on a `size_t`.
abbrev pub inc_size : ℕ → ℕ
inc_size n = (n + 1) % size_mod

abbrev pub dec_size : ℕ → ℕ
dec_size n = (n + size_mod - 1) % size_mod

abbrev pub add_size : ℕ → ℕ → ℕ
add_size a b = (a + b) % size_mod

abbrev pub sub_size : ℕ → ℕ → ℕ
sub_size a b = (a + size_mod - b) % size_mod

-- `~x` on 32 bits.
abbrev pub not32 : ℕ → ℕ
not32 x = u32_mod - 1 - x % u32_mod

-- `POW2(x)`, for `x < 64`.
abbrev pub pow2 : ℕ → ℕ
pow2 n = 2 ^ n
