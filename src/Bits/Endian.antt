-- ===== src/Bits/Endian.antt =====
-- The byte swaps of kernel/bits.c as arithmetic on bytes.
use dos.Prelude.{
  List, [], arith, bit_and, bit_or, refl, suc, zero, ℕ, ◌%◌, ◌*◌, ◌+◌, ◌/◌, ◌<◌, ◌^◌, ◌∙◌, ◌∷◌, ◌≡◌,
}
use dos.Prelude.Fields.{bit_or_fields, bit_and_mask, bit_and_shifted}
use mathlib.Core.List.{reverse}
use dos.Bits.{switch_endian_16, switch_endian_32, switch_endian_64}

-- The bytes of a word as they lie in memory, lowest first.
abbrev pub bytes : ℕ → ℕ → List ℕ
bytes zero v = []
bytes (suc n) v = (v % 256) ∷ bytes n (v / 256)

-- `0xFF << k` reads byte `v >> k`.
byte_mask : (k v : ℕ) → bit_and v (255 * 2 ^ k) ≡ v / 2 ^ k % 256 * 2 ^ k
byte_mask k v = rw (bit_and_shifted k v 255, bit_and_mask 8 (v / 2 ^ k))

-- `|` of a word whose low `k` bits are clear with a word of `k` bits.
bit_or_low : (k q a r : ℕ) → a ≡ q * 2 ^ k → r < 2 ^ k → bit_or a r ≡ a + r
bit_or_low k q a r e h = rw (e, bit_or_fields k q r h)

sum_16 : (v : ℕ) → v < 2 ^ 16 → switch_endian_16 v ≡ v % 256 * 256 + v / 256
unfolding switch_endian_16
sum_16 v h = omega (arith, bit_or_fields 8 v (v / 256) (omega arith))

sum_32 :
    (v : ℕ)
    → v < 2 ^ 32
    → switch_endian_32 v
      ≡ v % 256 * 2 ^ 24 + v / 2 ^ 8 % 256 * 2 ^ 16 + v / 2 ^ 16 % 256 * 2 ^ 8 + v / 2 ^ 24
unfolding switch_endian_32
sum_32 v h =
    let x = v % 256 in
    let y = v / 2 ^ 8 % 256 in
    let z = v / 2 ^ 16 % 256 in
    let s0 = x * 2 ^ 24 in
    let s1 = s0 + y * 2 ^ 16 in
    let s2 = s1 + z * 2 ^ 8 in
    let a : v * 2 ^ 24 % 2 ^ 32 ≡ x * 2 ^ 24 = omega arith in
    let b : bit_and (v * 2 ^ 8 % 2 ^ 32) 0x00FF0000 ≡ y * 2 ^ 16 = byte_mask 16 _ ∙ omega arith in
    let c : bit_and (v / 2 ^ 8) 0x0000FF00 ≡ z * 2 ^ 8 = byte_mask 8 _ ∙ omega arith in
    rw (
      a,
      b,
      c,
      bit_or_low 24 x s0 (y * 2 ^ 16) (omega arith) (omega arith),
      bit_or_low 16 (x * 2 ^ 8 + y) s1 (z * 2 ^ 8) (omega arith) (omega arith),
      bit_or_low 8 (x * 2 ^ 16 + y * 2 ^ 8 + z) s2 (v / 2 ^ 24) (omega arith) (omega arith),
    )

sum_64 :
    (v : ℕ)
    → v < 2 ^ 64
    → switch_endian_64 v
      ≡ v % 256 * 2 ^ 56
        + v / 2 ^ 8 % 256 * 2 ^ 48
        + v / 2 ^ 16 % 256 * 2 ^ 40
        + v / 2 ^ 24 % 256 * 2 ^ 32
        + v / 2 ^ 32 % 256 * 2 ^ 24
        + v / 2 ^ 40 % 256 * 2 ^ 16
        + v / 2 ^ 48 % 256 * 2 ^ 8
        + v / 2 ^ 56
unfolding switch_endian_64
sum_64 v h =
    let b0 = v % 256 in
    let b1 = v / 2 ^ 8 % 256 in
    let b2 = v / 2 ^ 16 % 256 in
    let b3 = v / 2 ^ 24 % 256 in
    let b4 = v / 2 ^ 32 % 256 in
    let b5 = v / 2 ^ 40 % 256 in
    let b6 = v / 2 ^ 48 % 256 in
    let s0 = b0 * 2 ^ 56 in
    let s1 = s0 + b1 * 2 ^ 48 in
    let s2 = s1 + b2 * 2 ^ 40 in
    let s3 = s2 + b3 * 2 ^ 32 in
    let s4 = s3 + b4 * 2 ^ 24 in
    let s5 = s4 + b5 * 2 ^ 16 in
    let s6 = s5 + b6 * 2 ^ 8 in
    let e0 : v * 2 ^ 56 % 2 ^ 64 ≡ b0 * 2 ^ 56 = omega arith in
    let e1 : bit_and (v * 2 ^ 40 % 2 ^ 64) 0x00FF000000000000 ≡ b1 * 2 ^ 48 =
      byte_mask 48 _ ∙ omega arith in
    let e2 : bit_and (v * 2 ^ 24 % 2 ^ 64) 0x0000FF0000000000 ≡ b2 * 2 ^ 40 =
      byte_mask 40 _ ∙ omega arith in
    let e3 : bit_and (v * 2 ^ 8 % 2 ^ 64) 0x000000FF00000000 ≡ b3 * 2 ^ 32 =
      byte_mask 32 _ ∙ omega arith in
    let e4 : bit_and (v / 2 ^ 8) 0x00000000FF000000 ≡ b4 * 2 ^ 24 = byte_mask 24 _ ∙ omega arith in
    let e5 : bit_and (v / 2 ^ 24) 0x0000000000FF0000 ≡ b5 * 2 ^ 16 = byte_mask 16 _ ∙ omega arith in
    let e6 : bit_and (v / 2 ^ 40) 0x000000000000FF00 ≡ b6 * 2 ^ 8 = byte_mask 8 _ ∙ omega arith in
    rw (
      e0,
      e1,
      e2,
      e3,
      e4,
      e5,
      e6,
      bit_or_low 56 b0 s0 (b1 * 2 ^ 48) (omega arith) (omega arith),
      bit_or_low 48 (b0 * 2 ^ 8 + b1) s1 (b2 * 2 ^ 40) (omega arith) (omega arith),
      bit_or_low 40 (b0 * 2 ^ 16 + b1 * 2 ^ 8 + b2) s2 (b3 * 2 ^ 32) (omega arith) (omega arith),
      bit_or_low 32 (b0 * 2 ^ 24 + b1 * 2 ^ 16 + b2 * 2 ^ 8 + b3) s3 (b4 * 2 ^ 24) (omega arith)
          (omega arith),
      bit_or_low 24 (b0 * 2 ^ 32 + b1 * 2 ^ 24 + b2 * 2 ^ 16 + b3 * 2 ^ 8 + b4) s4 (b5 * 2 ^ 16)
          (omega arith) (omega arith),
      bit_or_low 16 (b0 * 2 ^ 40 + b1 * 2 ^ 32 + b2 * 2 ^ 24 + b3 * 2 ^ 16 + b4 * 2 ^ 8 + b5) s5
          (b6 * 2 ^ 8) (omega arith) (omega arith),
      bit_or_low 8
          (b0 * 2 ^ 48 + b1 * 2 ^ 40 + b2 * 2 ^ 32 + b3 * 2 ^ 24 + b4 * 2 ^ 16 + b5 * 2 ^ 8 + b6) s6
          (v / 2 ^ 56) (omega arith) (omega arith),
    )

-- A 16-bit swap exchanges the two bytes of the word in memory.
pub bytes-switch_endian_16 :
    (v : ℕ) → v < 2 ^ 16 → bytes 2 (switch_endian_16 v) ≡ reverse (bytes 2 v)
bytes-switch_endian_16 v h = rw (sum_16 v h) (ground arith)

-- A 32-bit swap reverses the four bytes of the word in memory.
pub bytes-switch_endian_32 :
    (v : ℕ) → v < 2 ^ 32 → bytes 4 (switch_endian_32 v) ≡ reverse (bytes 4 v)
bytes-switch_endian_32 v h = rw (sum_32 v h) (ground arith)

-- A 64-bit swap reverses the eight bytes of the word in memory.
pub bytes-switch_endian_64 :
    (v : ℕ) → v < 2 ^ 64 → bytes 8 (switch_endian_64 v) ≡ reverse (bytes 8 v)
bytes-switch_endian_64 v h = rw (sum_64 v h) (ground arith)

pub switch_endian_16_twice : (v : ℕ) → v < 2 ^ 16 → switch_endian_16 (switch_endian_16 v) ≡ v
switch_endian_16_twice v h =
    omega (arith, sum_16 v h, sum_16 (switch_endian_16 v) (omega (arith, sum_16 v h)))

pub switch_endian_32_twice : (v : ℕ) → v < 2 ^ 32 → switch_endian_32 (switch_endian_32 v) ≡ v
switch_endian_32_twice v h =
    omega (arith, sum_32 v h, sum_32 (switch_endian_32 v) (omega (arith, sum_32 v h)))

pub switch_endian_64_twice : (v : ℕ) → v < 2 ^ 64 → switch_endian_64 (switch_endian_64 v) ≡ v
switch_endian_64_twice v h =
    omega (arith, sum_64 v h, sum_64 (switch_endian_64 v) (omega (arith, sum_64 v h)))

pub switch_endian_16_zero : switch_endian_16 0 ≡ 0
unfolding switch_endian_16
switch_endian_16_zero = refl
