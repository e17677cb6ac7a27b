-- ===== src/Stdlib.antt =====
-- kernel/libc/stdlib.c: numbers as text, division, and binary search. An `int` and a `long int` have
-- 32 bits, a string is the list of its bytes before the NUL.
pub mod Parse
pub mod Digits
pub mod Search
pub mod Sort
mod Tests
use dos.Prelude.{
  Bool, List, Option, [], drop, false, if◌then◌else◌, leb, ltb, none, not, some, suc, zero, ℕ, ◌%◌,
  ◌&&◌, ◌*◌, ◌+◌, ◌-◌, ◌/◌, ◌==◌, ◌>>=◌, ◌^◌, ◌||◌, ◌∷◌,
}
use dos.Prelude.Int.{ℤ, pos, negsuc, minus, is_negative}
use dos.Ctype.{isspace}
use dos.Cstring.{head_char}
use mathlib.Core.List.{reverse}

-- `numbase[35 + d]` and `numbase[35 - d]`, which are the same.
pub digit_char : ℕ → ℕ
digit_char d = if ltb d 10 then 48 + d else 87 + d

-- The loop of `lutoa`, which writes the lowest digit first. 32 rounds are enough, since a round
-- halves the value at least.
pub digits : ℕ → ℕ → ℕ → List ℕ
unfolding digit_char
digits zero base value = []
digits (suc fuel) base value =
    let rest = digits fuel base (value / base) in
    digit_char (value % base) ∷ (if value / base == 0 then [] else rest)

pub lutoa : ℕ → ℕ → List ℕ
unfolding digits
lutoa value base = if ltb base 2 || ltb 36 base then [] else reverse (digits 32 base value)

-- The remainders of a negative value are negative, and so index the first half of the table. A sign
-- is written in base 10 only.
pub ltoa : ℤ → ℕ → List ℕ
unfolding digits
ltoa (pos n) base = if ltb base 2 || ltb 36 base then [] else reverse (digits 32 base n)
ltoa (negsuc n) base =
    if ltb base 2 || ltb 36 base
    then []
    else if base == 10
    then 45 ∷ reverse (digits 32 base (suc n))
    else reverse (digits 32 base (suc n))

pub skip_spaces : List ℕ → List ℕ
unfolding isspace
skip_spaces [] = []
skip_spaces (c ∷ str) = let rest = skip_spaces str in if isspace c then rest else c ∷ str

-- The digit that a character stands for in the largest base.
pub char_digit : ℕ → Option ℕ
char_digit c =
    if leb 48 c && leb c 57
    then some (c - 48)
    else if leb 97 c && leb c 122
    then some (c - 97 + 10)
    else if leb 65 c && leb c 90
    then some (c - 65 + 10)
    else none

-- The loop of `strtol`; none is its `return 0` at a character that is no digit of the base.
pub parse_digits : ℕ → ℕ → List ℕ → Option ℕ
unfolding char_digit
parse_digits base value [] = some value
parse_digits base value (c ∷ str) = char_digit c >>= (λ digit.
    if leb base digit then none else parse_digits base ((value * base + digit) % 2 ^ 32) str)

-- Whether the string goes on with `x` or `X` behind the first character.
abbrev pub has_x : List ℕ → Bool
has_x (c ∷ d ∷ str) = d == 120 || d == 88
has_x _ = false

-- The base that is used, and what is left of the string behind its prefix.
pub read_base : ℕ → List ℕ → ℕ × List ℕ
read_base base str =
    if base == 0
    then (if head_char str == 48
        then (if has_x str then (16, drop 2 str) else (8, drop 1 str))
        else (10, str))
    else if base == 16
    then (base, if head_char str == 48 && has_x str then drop 2 str else str)
    else (base, str)

-- A value of 32 bits as a `long int`, and its opposite.
abbrev pub to_long : ℕ → ℤ
to_long v = if ltb v (2 ^ 31) then pos v else minus v (2 ^ 32)

abbrev pub minus_long : ℕ → ℤ
minus_long v = to_long ((2 ^ 32 - v) % 2 ^ 32)

-- `strtol` behind the sign.
pub read_value : ℕ → List ℕ → Option ℕ
unfolding read_base parse_digits
read_value base str = let (base', str') = read_base base str in parse_digits base' 0 str'

abbrev pub or_zero : Option ℕ → ℕ
or_zero none = 0
or_zero (some v) = v

pub strtol : List ℕ → ℕ → ℤ
unfolding skip_spaces read_value
strtol str base =
    let s = skip_spaces str in
    if base == 1 || ltb 36 base
    then pos 0
    else if head_char s == 45
    then minus_long (or_zero (read_value base (drop 1 s)))
    else if head_char s == 43
    then to_long (or_zero (read_value base (drop 1 s)))
    else to_long (or_zero (read_value base s))

pub atol : List ℕ → ℤ
unfolding strtol
atol str = strtol str 10

-- `bsearch` over the results of comparing the key with each element; the index stands for the
-- pointer. None is that the fuel runs out.
pub bsearch_loop : ℕ → (ℕ → ℤ) → ℕ → ℕ → Option (Option ℕ)
bsearch_loop zero compar start end = none
bsearch_loop (suc fuel) compar start end =
    let mid = (start + end) % 2 ^ 32 / 2 in
    let left = bsearch_loop fuel compar start mid in
    let right = bsearch_loop fuel compar (mid + 1) end in
    if not (ltb start end)
    then some none
    else elim (compar mid) [ negsuc n ↦ left | pos zero ↦ some (some mid) | pos (suc n) ↦ right ]

-- Every round makes the range smaller.
pub bsearch : ℕ → (ℕ → ℤ) → Option (Option ℕ)
unfolding bsearch_loop
bsearch num compar = bsearch_loop (num + 1) compar 0 num
