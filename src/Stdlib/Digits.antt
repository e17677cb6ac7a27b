-- ===== src/Stdlib/Digits.antt =====
-- Reading back what `lutoa` and `ltoa` of kernel/libc/stdlib.c write.
use dos.Prelude.{
  Bool, Bool-cases, List, [], ap, arith, dec_lt, drop, false, if◌then◌else◌, inl, inr, ltb, refl,
  subst, suc, true, zero, ℕ, ℕ_discrete, ◌%◌, ◌&&◌, ◌+◌, ◌/◌, ◌<◌, ◌==◌, ◌^◌, ◌||◌, ◌∙◌, ◌∷◌, ◌≡◌,
  ◌≤◌,
}
use dos.Prelude.Int.{pos, negsuc}
use dos.Ctype.{isspace}
use dos.Cstring.{head_char}
use dos.Stdlib.{
  digit_char, digits, lutoa, ltoa, parse_digits, read_base, read_value, skip_spaces, strtol, has_x,
  or_zero, to_long, minus_long,
}
use mathlib.Core.List.{reverse, reverse_aux}
use native.Mathlib.Nat.{mod-lt}
use dos.Stdlib.Parse.{parse_digits-digits}

-- A character that `lutoa` writes in a base.
IsDigit : ℕ → ℕ → Type 0
IsDigit base c = (d : ℕ) × (d < base) × (c ≡ digit_char d)

AllDigits : ℕ → List ℕ → Type 0
AllDigits base [] = Unit {0}
AllDigits base (c ∷ s) = IsDigit base c × AllDigits base s

digits-AllDigits : (fuel base value : ℕ) → 0 < base → AllDigits base (digits fuel base value)
unfolding digits AllDigits IsDigit
digits-AllDigits zero base value above = tt
digits-AllDigits (suc fuel) base value above = elim (Bool-cases (value / base == 0)) [
  | inl e ↦ rw e ((value % base, mod-lt value {m = base} above, refl), tt)
  | inr e ↦ rw e (
    (value % base, mod-lt value {m = base} above, refl),
    digits-AllDigits fuel base (value / base) above,
  )
]

reverse_aux-AllDigits :
    (base : ℕ) (s r : List ℕ)
    → AllDigits base s
    → AllDigits base r
    → AllDigits base (reverse_aux s r)
unfolding AllDigits
reverse_aux-AllDigits base [] r hs hr = hr
reverse_aux-AllDigits base (c ∷ s) r (here, hs) hr =
    reverse_aux-AllDigits base s (c ∷ r) hs (here, hr)

-- A digit is no space and no sign.
digit_char-plain :
    (d : ℕ)
    → d < 36
    → (isspace (digit_char d) ≡ false)
      × ((digit_char d == 45) ≡ false)
      × ((digit_char d == 43) ≡ false)
unfolding digit_char isspace
digit_char-plain d lt = elim (dec_lt d 10) [
  | yes low ↦ (ground (arith, low), ground (arith, low), ground (arith, low))
  | no high ↦ (ground (arith, high, lt), ground (arith, high, lt), ground (arith, high, lt))
]

-- A digit of base 16 is no `x`.
digit_char-no_x : (d : ℕ) → d < 16 → (digit_char d == 120 || digit_char d == 88) ≡ false
unfolding digit_char
digit_char-no_x d lt = elim (dec_lt d 10) [
  | yes low ↦ ground (arith, low)
  | no high ↦ ground (arith, high, lt)
]

AllDigits-no_x : (s : List ℕ) → AllDigits 16 s → has_x s ≡ false
unfolding AllDigits IsDigit
AllDigits-no_x [] h = refl
AllDigits-no_x (c ∷ []) h = refl
AllDigits-no_x (c ∷ c' ∷ s) (_, ((d, lt, e), _)) = rw e (digit_char-no_x d lt)

and_false : (b : Bool) → (b && false) ≡ false
and_false true = refl
and_false false = refl

read_base-AllDigits :
    (base : ℕ) (s : List ℕ) → 2 ≤ base → AllDigits base s → read_base base s ≡ (base, s)
unfolding read_base
read_base-AllDigits base s b2 h =
    let some_base : (base == 0) ≡ false = ground (arith, b2) in
    elim (ℕ_discrete base 16) [
      | yes hex ↦
          let is_hex : (base == 16) ≡ true = ground (arith, hex) in
          let no_x = AllDigits-no_x s (subst (λ b. AllDigits b s) hex h) in
          rw (some_base, is_hex, no_x)
            (ap (λ b. (base, if b then drop 2 s else s)) (and_false (head_char s == 48)))
      | no other ↦
          let not_hex : (base == 16) ≡ false = ground (arith, other) in rw (some_base, not_hex) refl
    ]

strtol-plain :
    (base c : ℕ) (s : List ℕ)
    → 2 ≤ base
    → base ≤ 36
    → isspace c ≡ false
    → (c == 45) ≡ false
    → (c == 43) ≡ false
    → strtol (c ∷ s) base ≡ to_long (or_zero (read_value base (c ∷ s)))
unfolding strtol skip_spaces
strtol-plain base c s b2 b36 no_space no_minus no_plus =
    let not_1 : (base == 1) ≡ false = ground (arith, b2) in
    let in_range : ltb 36 base ≡ false = ground (arith, b36) in
    rw (no_space, not_1, in_range) (rw (no_minus, no_plus) refl)

read_value-AllDigits :
    (base : ℕ) (s : List ℕ)
    → 2 ≤ base
    → AllDigits base s
    → read_value base s ≡ parse_digits base 0 s
unfolding read_value
read_value-AllDigits base s b2 h = rw (read_base-AllDigits base s b2 h) refl

strtol_empty :
    (base : ℕ) → 2 ≤ base → base ≤ 36 → strtol [] base ≡ to_long (or_zero (read_value base []))
unfolding strtol skip_spaces
strtol_empty base b2 b36 =
    let not_1 : (base == 1) ≡ false = ground (arith, b2) in
    let in_range : ltb 36 base ≡ false = ground (arith, b36) in rw (not_1, in_range) refl

-- Nothing of such a string is taken for a space, a sign or a prefix.
strtol-AllDigits :
    (base : ℕ) (s : List ℕ)
    → 2 ≤ base
    → base ≤ 36
    → AllDigits base s
    → strtol s base ≡ to_long (or_zero (parse_digits base 0 s))
unfolding AllDigits IsDigit
strtol-AllDigits base [] b2 b36 h =
    strtol_empty base b2 b36 ∙ ap (λ o. to_long (or_zero o)) (read_value-AllDigits base [] b2 h)
strtol-AllDigits base (c ∷ s) b2 b36 ((d, lt, e), h) =
    let (no_space, no_minus, no_plus) = digit_char-plain d (omega (arith, lt, b36)) in
    strtol-plain base c s b2 b36 (rw e no_space) (rw e no_minus) (rw e no_plus)
    ∙ ap (λ o. to_long (or_zero o)) (read_value-AllDigits base (c ∷ s) b2 ((d, lt, e), h))

written-AllDigits : (base value : ℕ) → 0 < base → AllDigits base (reverse (digits 32 base value))
unfolding AllDigits
written-AllDigits base value above =
    reverse_aux-AllDigits base (digits 32 base value) [] (digits-AllDigits 32 base value above) tt

strtol-written :
    (base value : ℕ)
    → 2 ≤ base
    → base ≤ 36
    → value < 2 ^ 31
    → strtol (reverse (digits 32 base value)) base ≡ pos value
strtol-written base value b2 b36 fits =
    let read =
      parse_digits-digits 32 base value b2 b36 (omega (arith, fits)) (omega (arith, fits)) in
    let positive : to_long value ≡ pos value = ground (arith, fits) in
    strtol-AllDigits base (reverse (digits 32 base value)) b2 b36
      (written-AllDigits base value (omega (arith, b2)))
    ∙ ap (λ o. to_long (or_zero o)) read
    ∙ positive

strtol-minus : (s : List ℕ) → strtol (45 ∷ s) 10 ≡ minus_long (or_zero (read_value 10 s))
unfolding strtol skip_spaces isspace
strtol-minus s = refl

strtol-negative : (n : ℕ) → n < 2 ^ 31 → strtol (45 ∷ reverse (digits 32 10 (suc n))) 10 ≡ negsuc n
strtol-negative n fits =
    let read =
      parse_digits-digits 32 10 (suc n) (omega arith) (omega arith) (omega (arith, fits))
        (omega (arith, fits)) in
    let plain =
      read_value-AllDigits 10 (reverse (digits 32 10 (suc n))) (omega arith)
        (written-AllDigits 10 (suc n) (omega arith)) in
    let negative : minus_long (suc n) ≡ negsuc n = ground (arith, fits) in
    strtol-minus (reverse (digits 32 10 (suc n)))
    ∙ ap (λ o. minus_long (or_zero o)) (plain ∙ read)
    ∙ negative

-- `strtol` reads back every `long int` that is not negative from what `ltoa` and `lutoa` write in
-- the same base, from 2 to 36.
pub strtol-ltoa :
    (base n : ℕ)
    → 2 ≤ base
    → base ≤ 36
    → n < 2 ^ 31
    → (strtol (ltoa (pos n) base) base ≡ pos n) × (strtol (lutoa n base) base ≡ pos n)
unfolding ltoa lutoa
strtol-ltoa base n b2 b36 fits =
    let low : ltb base 2 ≡ false = ground (arith, b2) in
    let high : ltb 36 base ≡ false = ground (arith, b36) in
    let back = strtol-written base n b2 b36 fits in (rw (low, high) back, rw (low, high) back)

-- `strtol` in base 10 reads back every negative `long int` from what `ltoa` writes, and in any other
-- base from 2 to 36 it reads the value without its sign, which `ltoa` does not write there.
pub strtol-ltoa_negative :
    (base n : ℕ)
    → 2 ≤ base
    → base ≤ 36
    → n + 1 < 2 ^ 31
    → strtol (ltoa (negsuc n) base) base ≡ (if base == 10 then negsuc n else pos (suc n))
unfolding ltoa
strtol-ltoa_negative base n b2 b36 fits =
    let low : ltb base 2 ≡ false = ground (arith, b2) in
    let high : ltb 36 base ≡ false = ground (arith, b36) in
    elim (ℕ_discrete base 10) [
      | yes ten ↦
          let is_ten : (base == 10) ≡ true = ground (arith, ten) in
          rw (low, high, is_ten) (rw ten (strtol-negative n (omega (arith, fits))))
      | no other ↦
          let not_ten : (base == 10) ≡ false = ground (arith, other) in
          rw (low, high, not_ten) (strtol-written base (suc n) b2 b36 (omega (arith, fits)))
    ]
