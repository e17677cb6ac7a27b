-- ===== src/Prelude/Bits.antt =====
-- The binary digits of a word, and what `&` and `|` do to them.
use Prim.Native.Nat.{min, max, digits, bitwise, bit_and-bitwise, bit_or-bitwise}
use native.Mathlib.Nat.{pow-suc}
use Prim.Native.Nat.{ℕ, zero, suc, ◌+◌, ◌*◌, ◌/◌, ◌%◌, ◌^◌, ◌≤◌, ◌<◌, bit_and, bit_or}
use mathlib.Core.Path.{◌≡◌, refl, ap, ◌∙◌}
use native.Mathlib.Decide.{ℕ_discrete}
use mathlib.Core.Bool.{Bool, true, ◌&&◌}
use native.Mathlib.Omega.{arith}

-- The native operations mean `bitwise`, which takes its first operand for the number of digits
-- that it goes through at most. More than that many make no difference.
module _ (rest : ℕ → ℕ) (digit : ℕ → ℕ → ℕ) where
  abbrev run : ℕ → ℕ → ℕ → ℕ
  run fuel x y = digits rest digit fuel x y

  one_more : (fuel x y : ℕ) → x ≤ fuel → run (suc fuel) x y ≡ run fuel x y
  one_more zero zero y enough = refl
  one_more zero (suc x) y enough = absurd (omega arith)
  one_more (suc fuel) zero y enough = refl
  one_more (suc fuel) (suc x) y enough =
      ap (λ high. high * 2 + digit (suc x % 2) (y % 2))
        (one_more fuel (suc x / 2) (y / 2) (omega arith))

  least : (fuel x y : ℕ) → x ≤ fuel → run fuel x y ≡ run x x y
  least zero zero y enough = refl
  least zero (suc x) y enough = absurd (omega arith)
  least (suc fuel) x y enough = elim (ℕ_discrete x (suc fuel)) [
    | yes same ↦ rw same
    | no below ↦ one_more fuel x y (omega arith) ∙ least fuel x y (omega arith)
  ]

  lowest_digit :
      (x y : ℕ)
      → 0 < x
      → bitwise rest digit x y ≡ bitwise rest digit (x / 2) (y / 2) * 2 + digit (x % 2) (y % 2)
  lowest_digit zero y pos = absurd (omega arith)
  lowest_digit (suc x) y pos =
      ap (λ high. high * 2 + digit (suc x % 2) (y % 2)) (least x (suc x / 2) (y / 2) (omega arith))

-- One equation for the lowest digit of `|`, and one for that of `&`.
pub bit_or_step : (x y : ℕ) → bit_or x y ≡ bit_or (x / 2) (y / 2) * 2 + max (x % 2) (y % 2)
bit_or_step x y = elim (ℕ_discrete x 0) [
  | yes none_left ↦ rw (none_left, bit_or-bitwise, bit_or-bitwise) (omega arith)
  | no some_left ↦ simp bit_or-bitwise (lowest_digit (λ high. high) max x y (omega arith))
]

pub bit_and_step : (x y : ℕ) → bit_and x y ≡ bit_and (x / 2) (y / 2) * 2 + min (x % 2) (y % 2)
bit_and_step x y = elim (ℕ_discrete x 0) [
  | yes none_left ↦ rw (none_left, bit_and-bitwise, bit_and-bitwise) (omega arith)
  | no some_left ↦ simp bit_and-bitwise (lowest_digit (λ high. 0) min x y (omega arith))
]

-- Digit `k` of a word, lowest first.
abbrev pub bit_at : ℕ → ℕ → ℕ
bit_at w zero = w % 2
bit_at w (suc k) = bit_at (w / 2) k

pub bit_at-le : (w k : ℕ) → bit_at w k ≤ 1
bit_at-le w zero = omega arith
bit_at-le w (suc k) = bit_at-le (w / 2) k

pub bit_at-bit_and : (a b k : ℕ) → bit_at (bit_and a b) k ≡ min (bit_at a k) (bit_at b k)
bit_at-bit_and a b zero = omega (arith, bit_and_step a b)
bit_at-bit_and a b (suc k) =
    let half : bit_and a b / 2 ≡ bit_and (a / 2) (b / 2) = omega (arith, bit_and_step a b) in
    rw half (bit_at-bit_and (a / 2) (b / 2) k)

pub bit_at-bit_or : (a b k : ℕ) → bit_at (bit_or a b) k ≡ max (bit_at a k) (bit_at b k)
bit_at-bit_or a b zero = omega (arith, bit_or_step a b)
bit_at-bit_or a b (suc k) =
    let half : bit_or a b / 2 ≡ bit_or (a / 2) (b / 2) = omega (arith, bit_or_step a b) in
    rw half (bit_at-bit_or (a / 2) (b / 2) k)

-- Words of the same digits are equal.
pub bit_at_ext :
    (n a b : ℕ) → a < 2 ^ n → b < 2 ^ n → ((k : ℕ) → k < n → bit_at a k ≡ bit_at b k) → a ≡ b
bit_at_ext zero a b ha hb h = omega arith
bit_at_ext (suc n) a b ha hb h =
    let e =
      bit_at_ext n (a / 2) (b / 2) (omega (arith, pow-suc 2 n)) (omega (arith, pow-suc 2 n))
        (λ k lt. h (suc k) (omega arith)) in
    omega (arith, e, h 0 (omega arith))

-- A claim about every number of a small range is checked by evaluation.
unfoldable pub all_below : ℕ → (ℕ → Bool) → Bool
all_below zero holds = true
all_below (suc top) holds = holds top && all_below top holds

pub all_below_sound :
    (top : ℕ) (holds : ℕ → Bool) (k : ℕ) → all_below top holds ≡ true → k < top → holds k ≡ true
unfolding all_below
all_below_sound zero holds k every below = absurd (omega arith)
all_below_sound (suc top) holds k every below = elim (ℕ_discrete k top) [
  | yes last ↦ rw last (ground arith)
  | no lower ↦ all_below_sound top holds k (ground arith) (omega arith)
]
