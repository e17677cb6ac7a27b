-- ===== src/Bits/Tests.antt =====
-- Concrete words for kernel/bits.h and kernel/bits.c.
use dos.Prelude.{◌≡◌, refl}
use dos.Bits.{switch_endian_16, switch_endian_32, switch_endian_64, disable_bit}

swapped_32 : switch_endian_32 0x12345678 ≡ 0x78563412
unfolding switch_endian_32
swapped_32 = refl

swapped_64 : switch_endian_64 0x1122334455667788 ≡ 0x8877665544332211
unfolding switch_endian_64
swapped_64 = refl

swapped_16 : switch_endian_16 0x1234 ≡ 0x3412
unfolding switch_endian_16
swapped_16 = refl

cleared : disable_bit 0xffffffff 31 ≡ 0x7fffffff
unfolding disable_bit
cleared = refl
