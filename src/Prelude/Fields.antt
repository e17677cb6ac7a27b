-- ===== src/Prelude/Fields.antt =====
-- `&`, `|` and masks on words that are made of fields, as arithmetic at every width.
use native.Mathlib.Nat.{
  le_refl, mul_comm, mul_assoc, div-add-mod, pow-suc, one-le-pow, div-div-eq-div-mul,
}
use Prim.Native.Nat.{
  ℕ, zero, suc, ◌+◌, ◌-◌, ◌*◌, ◌/◌, ◌%◌, ◌^◌, ◌≤◌, ◌<◌, bit_and, bit_or, bit_and-bitwise,
}
use mathlib.Core.Path.{◌≡◌, refl, ap, ◌∙◌}
use native.Mathlib.Omega.{arith}
use dos.Prelude.Bits.{bit_or_step, bit_and_step}

-- Induction that halves.
half_induction {ℓ} :
    (P : ℕ → Type ℓ) → P 0 → ((x : ℕ) → P (x / 2) → P x) → (bound x : ℕ) → x ≤ bound → P x
half_induction P base step bound zero h = base
half_induction P base step zero (suc x) h = absurd (omega arith)
half_induction P base step (suc bound) (suc x) h =
    step (suc x) (half_induction P base step bound (suc x / 2) (omega arith))

pub bit_or-zero : (x : ℕ) → bit_or x 0 ≡ x
bit_or-zero x =
    half_induction (λ t. bit_or t 0 ≡ t) refl (λ t ih. omega (arith, bit_or_step t 0, ih)) x x
      (le_refl x)

pub bit_and-zero : (x : ℕ) → bit_and x 0 ≡ 0
bit_and-zero x =
    half_induction (λ t. bit_and t 0 ≡ 0) refl (λ t ih. omega (arith, bit_and_step t 0, ih)) x x
      (le_refl x)

pub mul-two_pow-suc : (q k : ℕ) → q * 2 ^ suc k ≡ 2 * (q * 2 ^ k)
mul-two_pow-suc q k = omega (arith, ap (λ (t : ℕ). q * t) (pow-suc 2 k))

-- `(high << k) | low` is a sum when `low` has `k` bits.
pub bit_or_fields : (k high low : ℕ) → low < 2 ^ k → bit_or (high * 2 ^ k) low ≡ high * 2 ^ k + low
bit_or_fields zero high low h =
    let nothing : low ≡ 0 = omega arith in rw (nothing, bit_or-zero) (omega arith)
bit_or_fields (suc k) high low h =
    let width = pow-suc 2 k in
    let shift = mul-two_pow-suc high k in
    let halves : high * 2 ^ suc k / 2 ≡ high * 2 ^ k = omega (arith, shift) in
    let ih = bit_or_fields k high (low / 2) (omega (arith, width)) in
    omega
      (arith, bit_or_step (high * 2 ^ suc k) low, ap (λ t. bit_or t (low / 2)) halves, ih, shift)

-- The low `k` bits of a word are its remainder by `2 ^ k`.
pub bit_and_mask : (k x : ℕ) → bit_and x (2 ^ k - 1) ≡ x % 2 ^ k
bit_and_mask zero x = rw bit_and-zero (omega arith)
bit_and_mask (suc k) x =
    let width = pow-suc 2 k in
    let some_bit = one-le-pow k 2 (omega arith) in
    let halves : (2 ^ suc k - 1) / 2 ≡ 2 ^ k - 1 = omega (arith, width, some_bit) in
    let down : x / 2 / 2 ^ k ≡ x / 2 ^ suc k =
      div-div-eq-div-mul x 2 (2 ^ k) ∙ ap (λ t. x / t) (omega (arith, width)) in
    let masked : bit_and x (2 ^ suc k - 1) ≡ x / 2 % 2 ^ k * 2 + x % 2 = omega (
      arith,
      bit_and_step x (2 ^ suc k - 1),
      ap (λ t. bit_and (x / 2) t) halves,
      bit_and_mask k (x / 2),
      width,
      some_bit,
    ) in
    let doubled : 2 ^ suc k * (x / 2 ^ suc k) ≡ 2 * (2 ^ k * (x / 2 ^ suc k)) =
      ap (λ t. t * (x / 2 ^ suc k)) (width ∙ mul_comm (2 ^ k) 2)
      ∙ mul_assoc 2 (2 ^ k) (x / 2 ^ suc k) in
    omega (
      arith,
      masked,
      doubled,
      div-add-mod x (2 ^ suc k),
      div-add-mod (x / 2) (2 ^ k),
      ap (λ t. 2 ^ k * t) down,
    )

-- A mask that stands `k` bits up reads the word shifted down by `k`.
pub bit_and_shifted : (k a m : ℕ) → bit_and a (m * 2 ^ k) ≡ bit_and (a / 2 ^ k) m * 2 ^ k
bit_and_shifted zero a m = ground arith
bit_and_shifted (suc k) a m =
    let halves : bit_and a (m * 2 ^ suc k) ≡ bit_and (a / 2) (m * 2 ^ k) * 2 =
      ground (arith, bit_and_step a (m * 2 ^ suc k), mul-two_pow-suc m k) in
    let down : a / 2 / 2 ^ k ≡ a / 2 ^ suc k =
      div-div-eq-div-mul a 2 (2 ^ k) ∙ ap (λ (t : ℕ). a / t) (omega (arith, pow-suc 2 k)) in
    rw (halves, bit_and_shifted k (a / 2) m, down)
      (omega (arith, mul-two_pow-suc (bit_and (a / 2 ^ suc k) m) k))

pub bit_and-le : (n a b : ℕ) → a ≤ n → bit_and a b ≤ a
bit_and-le n zero b h = omega (arith, bit_and-bitwise 0 b)
bit_and-le zero (suc a) b h = absurd (omega arith)
bit_and-le (suc n) (suc a) b h =
    omega (arith, bit_and_step (suc a) b, bit_and-le n (suc a / 2) (b / 2) (omega arith))

pub bit_or-lt : (n a b : ℕ) → a < 2 ^ n → b < 2 ^ n → bit_or a b < 2 ^ n
bit_or-lt zero a b ha hb =
    let e : a ≡ 0 = omega arith in rw e (let f : b ≡ 0 = omega arith in rw f (omega arith))
bit_or-lt (suc n) a b ha hb = ground (
  arith,
  pow-suc 2 n,
  bit_or_step a b,
  bit_or-lt n (a / 2) (b / 2) (omega (arith, pow-suc 2 n)) (omega (arith, pow-suc 2 n)),
)
