-- ===== src/Bits/Laws.antt =====
-- What the bit macros of kernel/bits.h do to each bit of a word.
use dos.Prelude.{
  ==_iff, ap, arith, bit_and, false, if◌then◌else◌, ltb, ltb→lt, not, refl, suc, sym, true, zero, ℕ,
  ◌%◌, ◌&&◌, ◌*◌, ◌-◌, ◌/◌, ◌<◌, ◌==◌, ◌^◌, ◌||◌, ◌∙◌, ◌≡◌,
}
use dos.Prelude.Bits.{
  bit_at, bit_at-le, bit_and_step, bit_at-bit_and, bit_at-bit_or, bit_at_ext, all_below,
  all_below_sound,
}
use dos.Prelude.Fields.{bit_and-zero, bit_and-le, bit_or-lt, mul-two_pow-suc}
use native.Mathlib.Nat.{pow-suc, pow-succ', div-div-eq-div-mul, one-le-pow}
use dos.Bits.{enable_bit, disable_bit, isset_bit, isset_bit_int}

bit_and-one_shl : (w j : ℕ) → bit_and w (2 ^ j) ≡ bit_at w j * 2 ^ j
bit_and-one_shl w zero = omega (arith, bit_and_step w 1, bit_and-zero (w / 2))
bit_and-one_shl w (suc j) =
    let halves : bit_and w (2 ^ suc j) ≡ bit_and (w / 2) (2 ^ j) * 2 =
      ground (arith, pow-suc 2 j, bit_and_step w (2 ^ suc j)) in
    rw (halves, bit_and-one_shl (w / 2) j) (omega (arith, mul-two_pow-suc (bit_at (w / 2) j) j))

bit_at-div : (w j : ℕ) → bit_at w j ≡ w / 2 ^ j % 2
bit_at-div w zero = omega arith
bit_at-div w (suc j) =
    bit_at-div (w / 2) j
    ∙ ap (λ (t : ℕ). t % 2) (div-div-eq-div-mul w 2 (2 ^ j))
    ∙ ap (λ (t : ℕ). w / t % 2) (sym (pow-succ' 2 j))

-- The test of one bit by its mask.
pub isset_bit_int-one_shl : (w j : ℕ) → isset_bit_int w (2 ^ j) ≡ (w / 2 ^ j % 2 == 1)
unfolding isset_bit_int
isset_bit_int-one_shl w j =
    rw (bit_and-one_shl w j, sym (bit_at-div w j)) (grind (arith, bit_at-le w j, one-le-pow j 2))

pub isset_bit_lem : (w j : ℕ) → isset_bit w j ≡ (bit_at w j == 1)
unfolding isset_bit
isset_bit_lem w j = rw (bit_and-one_shl w j) (grind (arith, bit_at-le w j, one-le-pow j 2))

bit_at-zero : (k : ℕ) → bit_at 0 k ≡ 0
bit_at-zero zero = refl
bit_at-zero (suc k) = bit_at-zero k

pub isset-zero : (k : ℕ) → isset_bit 0 k ≡ false
isset-zero k = rw (isset_bit_lem, bit_at-zero k)

bit_at-one_shl : (j k : ℕ) → bit_at (2 ^ j) k ≡ (if j == k then 1 else 0)
bit_at-one_shl zero zero = refl
bit_at-one_shl zero (suc k) = ground (arith, bit_at-zero k)
bit_at-one_shl (suc j) zero = ground (arith, pow-suc 2 j)
bit_at-one_shl (suc j) (suc k) =
    let half : 2 ^ suc j / 2 ≡ 2 ^ j = omega (arith, pow-suc 2 j) in
    rw (half, bit_at-one_shl j k) (ground arith)

-- Bit `k` of `~(1 << j)`, by evaluation at all 32 by 32 places.
mask_table :
    all_below 32
      (λ j. all_below 32 (λ k. bit_at (2 ^ 32 - 1 - 2 ^ j) k == (if j == k then 0 else 1)))
    ≡ true
unfolding all_below
mask_table = refl

bit_at-mask :
    (j k : ℕ) → j < 32 → k < 32 → bit_at (2 ^ 32 - 1 - 2 ^ j) k ≡ (if j == k then 0 else 1)
bit_at-mask j k hj hk =
    (==_iff _ _).0 (all_below_sound 32 _ k (all_below_sound 32 _ j mask_table hj) hk)

-- Setting a bit sets it, and leaves every other as it was.
pub isset-enable : (w j k : ℕ) → isset_bit (enable_bit w j) k ≡ ((j == k) || isset_bit w k)
unfolding enable_bit
isset-enable w j k =
    rw (isset_bit_lem, isset_bit_lem, bit_at-bit_or, bit_at-one_shl j k)
      (ground (arith, bit_at-le w k))

-- Clearing a bit clears it, and leaves every other as it was.
pub isset-disable :
    (w j k : ℕ) → j < 32 → k < 32 → isset_bit (disable_bit w j) k ≡ (not (j == k) && isset_bit w k)
unfolding disable_bit
isset-disable w j k hj hk =
    rw (isset_bit_lem, isset_bit_lem, bit_at-bit_and, bit_at-mask j k hj hk)
      (ground (arith, bit_at-le w k))

one_shl_table : all_below 32 (λ j. ltb (2 ^ j) (2 ^ 32)) ≡ true
unfolding all_below
one_shl_table = refl

one_shl-lt : (j : ℕ) → j < 32 → 2 ^ j < 2 ^ 32
one_shl-lt j h = ltb→lt _ _ (all_below_sound 32 _ j one_shl_table h)

pub enable_bit-lt : (w j : ℕ) → w < 2 ^ 32 → j < 32 → enable_bit w j < 2 ^ 32
unfolding enable_bit
enable_bit-lt w j hw hj = bit_or-lt 32 w (2 ^ j) hw (one_shl-lt j hj)

pub disable_bit-lt : (w j : ℕ) → w < 2 ^ 32 → disable_bit w j < 2 ^ 32
unfolding disable_bit
disable_bit-lt w j hw = omega (arith, bit_and-le w w (2 ^ 32 - 1 - 2 ^ j) (omega arith))

-- A 32-bit word is known by its bits.
pub word_ext :
    (a b : ℕ) → a < 2 ^ 32 → b < 2 ^ 32 → ((k : ℕ) → k < 32 → isset_bit a k ≡ isset_bit b k) → a ≡ b
word_ext a b ha hb h = bit_at_ext 32 a b ha hb λ k lt.
    ground (arith, bit_at-le a k, bit_at-le b k, h k lt, isset_bit_lem a k, isset_bit_lem b k)

-- Clearing a bit that was clear before it was set gives the word back.
pub disable-enable :
    (w j : ℕ) → w < 2 ^ 32 → j < 32 → isset_bit w j ≡ false → disable_bit (enable_bit w j) j ≡ w
disable-enable w j hw hj clear =
    word_ext _ w (disable_bit-lt _ j (enable_bit-lt w j hw hj)) hw λ k hk.
      ground
        (arith, isset-disable (enable_bit w j) j k hj hk, isset-enable w j k, ==_iff j k, clear)
