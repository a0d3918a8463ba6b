-- ===== src/Prelude/Words.antt =====
-- Machine words: the moduli of the unsigned types, and `size_t` arithmetic that wraps.
pub mod Bits
pub mod Align
use Prim.Native.Nat.{ℕ, ◌+◌, ◌-◌, ◌*◌, ◌%◌, ◌^◌, bit_and}

abbrev pub u16_mod : ℕ
u16_mod = 2 ^ 16

abbrev pub u32_mod : ℕ
u32_mod = 2 ^ 32

abbrev pub u64_mod : ℕ
u64_mod = 2 ^ 64

-- `a + b`, `a - b` and `a * b` on 64 bits.
abbrev pub add64 : ℕ → ℕ → ℕ
add64 a b = (a + b) % u64_mod

abbrev pub sub64 : ℕ → ℕ → ℕ
sub64 a b = (a + u64_mod - b) % u64_mod

abbrev pub mul64 : ℕ → ℕ → ℕ
mul64 a b = (a * b) % u64_mod

-- `~a`
abbrev pub not64 : ℕ → ℕ
not64 a = u64_mod - 1 - a

-- `(address + alignment - 1) & ~(alignment - 1)`
unfoldable pub align_up : ℕ → ℕ → ℕ
align_up address alignment = bit_and (sub64 (add64 address alignment) 1) (not64 (sub64 alignment 1))
