-- ===== src/Ctype/Laws.antt =====
-- How the classes and the case conversions of kernel/libc/ctype.c fit together.
use dos.Prelude.{==_iff, arith, if◌then◌else◌, not, refl, true, ℕ, ◌+◌, ◌<◌, ◌==◌, ◌≡◌}
use dos.Prelude.Bits.{all_below, all_below_sound}
use dos.Ctype.{islower, isupper, isalpha, isdigit, iscntrl, ispunct, toupper, tolower}

-- The number of the six kinds below that a code is of.
kinds : ℕ → ℕ
unfolding iscntrl ispunct isdigit islower isupper
kinds c =
    (if iscntrl c then 1 else 0)
    + (if c == 32 then 1 else 0)
    + (if ispunct c then 1 else 0)
    + (if isdigit c then 1 else 0)
    + (if islower c then 1 else 0)
    + (if isupper c then 1 else 0)

one_kind : all_below 128 (λ c. kinds c == 1) ≡ true
unfolding all_below kinds
one_kind = refl

-- Every ASCII code is of exactly one of six kinds: a control character, the blank, punctuation, a
-- digit, a lower-case letter, an upper-case letter.
pub ctype_partition :
    (c : ℕ)
    → c < 128
    → (if iscntrl c then 1 else 0)
        + (if c == 32 then 1 else 0)
        + (if ispunct c then 1 else 0)
        + (if isdigit c then 1 else 0)
        + (if islower c then 1 else 0)
        + (if isupper c then 1 else 0)
      ≡ 1
unfolding kinds
ctype_partition c h = (==_iff _ _).0 (all_below_sound 128 _ c one_kind h)

-- `toupper` turns a lower-case letter into an upper-case one, from which `tolower` gives it back;
-- it leaves every other code alone. `tolower` does the same the other way round.
pub case_conversions :
    (c : ℕ)
    → (isupper (toupper c) ≡ isalpha c)
      × (islower (tolower c) ≡ isalpha c)
      × (toupper (tolower c) ≡ toupper c)
      × (tolower (toupper c) ≡ tolower c)
      × ((toupper c == c) ≡ not (islower c))
      × ((tolower c == c) ≡ not (isupper c))
unfolding toupper tolower islower isupper isalpha
case_conversions c = ground arith
