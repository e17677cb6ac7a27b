-- ===== src/Bits.antt =====
-- kernel/bits.h and kernel/bits.c: the bit macros at 32-bit words, and the byte swaps.
pub mod Laws
pub mod Endian
mod Tests
use dos.Prelude.{ℕ, ◌+◌, ◌-◌, ◌*◌, ◌/◌, ◌%◌, ◌^◌, bit_and, bit_or, Bool, not, ◌==◌}

-- `1 << bit`. The shift is of an `int`; as a `uint32_t` it is the power, at every bit below 32.
abbrev pub one_shl : ℕ → ℕ
one_shl bit = 2 ^ bit

-- `(reg) | (1 << bit)`
unfoldable pub enable_bit : ℕ → ℕ → ℕ
enable_bit reg bit = bit_or reg (one_shl bit)

-- `(reg) & ~(1 << bit)` at 32 bits
unfoldable pub disable_bit : ℕ → ℕ → ℕ
disable_bit reg bit = bit_and reg (2 ^ 32 - 1 - one_shl bit)

-- `((reg) & (1 << bit)) != 0`
unfoldable pub isset_bit : ℕ → ℕ → Bool
isset_bit reg bit = not (bit_and reg (one_shl bit) == 0)

-- `((reg) & (bit)) != 0`
unfoldable pub isset_bit_int : ℕ → ℕ → Bool
isset_bit_int reg bit = not (bit_and reg bit == 0)

-- The result is cut to the 16 bits of its type.
pub switch_endian_16 : ℕ → ℕ
switch_endian_16 val = bit_or (val * 2 ^ 8) (val / 2 ^ 8) % 2 ^ 16

pub switch_endian_32 : ℕ → ℕ
switch_endian_32 val =
    bit_or
      (bit_or (bit_or (val * 2 ^ 24 % 2 ^ 32) (bit_and (val * 2 ^ 8 % 2 ^ 32) 0x00FF0000))
        (bit_and (val / 2 ^ 8) 0x0000FF00))
      (val / 2 ^ 24)

pub switch_endian_64 : ℕ → ℕ
switch_endian_64 val =
    bit_or
      (bit_or
        (bit_or
          (bit_or
            (bit_or
              (bit_or
                (bit_or (val * 2 ^ 56 % 2 ^ 64)
                  (bit_and (val * 2 ^ 40 % 2 ^ 64) 0x00FF000000000000))
                (bit_and (val * 2 ^ 24 % 2 ^ 64) 0x0000FF0000000000))
              (bit_and (val * 2 ^ 8 % 2 ^ 64) 0x000000FF00000000))
            (bit_and (val / 2 ^ 8) 0x00000000FF000000))
          (bit_and (val / 2 ^ 24) 0x0000000000FF0000))
        (bit_and (val / 2 ^ 40) 0x000000000000FF00))
      (val / 2 ^ 56)
