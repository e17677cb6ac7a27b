-- ===== src/Stdlib/Parse.antt =====
-- What the loop of `strtol` of kernel/libc/stdlib.c reads from the digits of `lutoa`.
use dos.Prelude.{
  Bool-cases, List, Option-cases, [], ap, arith, dec_lt, false, if◌then◌else◌, inl, inr, leb, refl,
  some, suc, sym, true, zero, ℕ, ℕ_discrete, ◌%◌, ◌*◌, ◌++◌, ◌+◌, ◌/◌, ◌<◌, ◌==◌, ◌>>=◌, ◌^◌, ◌∙◌,
  ◌∷◌, ◌≡◌, ◌≤◌,
}
use dos.Stdlib.{digit_char, digits, char_digit, parse_digits}
use mathlib.Core.List.{reverse, reverse_aux-eq}
use native.Mathlib.Nat.{div-add-mod', mod-lt, div-lt_iff_lt-mul, mul-le-mul_left, pow-suc}

char_digit-digit_char : (d : ℕ) → d < 36 → char_digit (digit_char d) ≡ some d
unfolding char_digit digit_char
char_digit-digit_char d h = elim (dec_lt d 10) [
  | yes low ↦ ground (arith, low)
  | no high ↦ ground (arith, high, h)
]

-- Reading one more digit at the end.
parse_digits-append :
    (base value c : ℕ) (s : List ℕ)
    → parse_digits base value (s ++ c ∷ [])
      ≡ (parse_digits base value s >>= (λ v. parse_digits base v (c ∷ [])))
unfolding parse_digits
parse_digits-append base value c [] = refl
parse_digits-append base value c (x ∷ s) = elim (Option-cases (char_digit x)) [
  | inl e ↦ rw e refl
  | inr (d, e) ↦ elim (Bool-cases (leb base d)) [
    | inl high ↦ rw e (rw high refl)
    | inr low ↦ rw e (rw low (parse_digits-append base ((value * base + d) % 2 ^ 32) c s))
  ]
]

parse_one :
    (base value d : ℕ)
    → d < base
    → base ≤ 36
    → value * base + d < 2 ^ 32
    → parse_digits base value (digit_char d ∷ []) ≡ some (value * base + d)
unfolding parse_digits
parse_one base value d lt small fits =
    let low : leb base d ≡ false = ground (arith, lt) in
    let plain : (value * base + d) % 2 ^ 32 ≡ value * base + d = omega (arith, fits) in
    rw (char_digit-digit_char d (omega arith)) (rw low (rw plain refl))

digits-suc :
    (fuel base value : ℕ)
    → digits (suc fuel) base value
      ≡ digit_char (value % base)
        ∷ (if value / base == 0 then [] else digits fuel base (value / base))
unfolding digits
digits-suc fuel base value = refl

-- The quotient needs one round less.
quotient_short : (fuel base value : ℕ) → 2 ≤ base → value < 2 ^ suc fuel → value / base < 2 ^ fuel
quotient_short fuel base value b2 short =
    let twice = mul-le-mul_left (2 ^ fuel) b2 in
    let power = pow-suc 2 fuel in
    let (back, forth) =
      div-lt_iff_lt-mul {k = base} {x = value} {y = 2 ^ fuel} (omega (arith, b2)) in
    forth (omega (arith, short, twice, power))

no_digits : (base value : ℕ) → parse_digits base 0 (reverse (digits 0 base value)) ≡ some 0
unfolding parse_digits digits
no_digits base value = refl

pub parse_digits-digits :
    (fuel base value : ℕ)
    → 2 ≤ base
    → base ≤ 36
    → value < 2 ^ fuel
    → value < 2 ^ 32
    → parse_digits base 0 (reverse (digits fuel base value)) ≡ some value
parse_digits-digits zero base value b2 b36 short fits =
    let nothing : value ≡ 0 = omega (arith, short) in no_digits base value ∙ ap some (sym nothing)
parse_digits-digits (suc fuel) base value b2 b36 short fits =
    let split = div-add-mod' value base in
    let digit = mod-lt value {m = base} (omega arith) in
    let last =
      parse_one base (value / base) (value % base) digit b36 (omega (arith, split, fits)) in
    let step = digits-suc fuel base value in
    elim (ℕ_discrete (value / base) 0) [
      | yes none_left ↦
          let done : (value / base == 0) ≡ true = ground (arith, none_left) in
          rw (step, done)
            (ap (λ q. parse_digits base q (digit_char (value % base) ∷ [])) (sym none_left)
              ∙ last
              ∙ ap some split)
      | no some_left ↦
          let inner : (value / base == 0) ≡ false = ground (arith, some_left) in
          let smaller : value / base < 2 ^ 32 =
            let twice = mul-le-mul_left (value / base) b2 in omega (arith, twice, split, fits) in
          let ih =
            parse_digits-digits fuel base (value / base) b2 b36
              (quotient_short fuel base value b2 short) smaller in
          let c = digit_char (value % base) in
          let front = digits fuel base (value / base) in
          rw (step, inner, reverse_aux-eq front (c ∷ []))
            (parse_digits-append base 0 c (reverse front)
              ∙ ap (λ o. o >>= (λ v. parse_digits base v (c ∷ []))) ih
              ∙ last
              ∙ ap some split)
    ]
