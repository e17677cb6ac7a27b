-- ===== src/Cstring/Compare.antt =====
-- What the comparisons of kernel/libc/string.c find out about two strings.
use dos.Prelude.{
  Bool, Bool-cases, List, [], arith, false, if◌then◌else◌, inl, inr, ltb, refl, suc, sym, true,
  zero, ℕ, ℕ_discrete, ◌&&◌, ◌<◌, ◌==◌, ◌↔◌, ◌∙◌, ◌∷◌, ◌≡◌, ◌≢◌, ◌≤◌, ◌⊎◌,
}
use dos.Prelude.Int.{pos, minus}
use dos.Cstring.{IsString, is_zero, or_int, char_diff, char_at, strlen, memcmp, strncmp, strcmp}

-- Whether two strings are the same.
same : List ℕ → List ℕ → Bool
same [] [] = true
same [] (d ∷ t) = false
same (c ∷ s) [] = false
same (c ∷ s) (d ∷ t) = let rest = same s t in if c == d then rest else false

same_refl : (s : List ℕ) → same s s ≡ true
unfolding same
same_refl [] = refl
same_refl (c ∷ s) = let rest = same_refl s in ground (arith, rest)

same_sound : (s t : List ℕ) → same s t ≡ true → s ≡ t
unfolding same
same_sound [] [] e = refl
same_sound [] (d ∷ t) e = absurd (ground (arith, e))
same_sound (c ∷ s) [] e = absurd (ground (arith, e))
same_sound (c ∷ s) (d ∷ t) e = elim (ℕ_discrete c d) [
  | yes eq ↦
      let tails : same s t ≡ true = ground (arith, e, eq) in rw (eq, same_sound s t tails) refl
  | no ne ↦ absurd (ground (arith, e, ne))
]

minus-is_zero : (a b : ℕ) → is_zero (minus a b) ≡ (a == b)
minus-is_zero a b = ground arith

char_diff-is_zero : (a b : ℕ) → a < 256 → b < 256 → is_zero (char_diff a b) ≡ (a == b)
char_diff-is_zero a b ha hb = ground arith

differ : (a b : ℕ) → ¬ (a ≡ b) → same (a ∷ []) (b ∷ []) ≡ false
unfolding same
differ a b ne = ground arith

memcmp-is_zero :
    (s t : List ℕ) (m : ℕ)
    → IsString s
    → IsString t
    → m ≤ strlen s
    → m ≤ strlen t
    → (m ≡ strlen s) ⊎ (m ≡ strlen t)
    → (is_zero (memcmp s t m) && (char_at s m == char_at t m)) ≡ same s t
unfolding memcmp strlen same
memcmp-is_zero [] [] zero hs ht ls lt ends = refl
memcmp-is_zero [] (d ∷ t) zero hs ht ls lt ends =
    let (above, byte, rest) = ht in ground (arith, above)
memcmp-is_zero (c ∷ s) [] zero hs ht ls lt ends =
    let (above, byte, rest) = hs in ground (arith, above)
memcmp-is_zero [] t (suc m) hs ht ls lt ends = absurd (omega arith)
memcmp-is_zero (c ∷ s) [] (suc m) hs ht ls lt ends = absurd (omega arith)
memcmp-is_zero (c ∷ s) (d ∷ t) zero hs ht ls lt ends = absurd (ground arith)
memcmp-is_zero (c ∷ s) (d ∷ t) (suc m) hs ht ls lt ends =
    let (_, _, hs_tail) = hs in
    let (_, _, ht_tail) = ht in
    let rest = memcmp-is_zero s t m hs_tail ht_tail (omega arith) (omega arith) (ground arith) in
    let differs = minus-is_zero c d in ground (arith, rest, differs)

char_at-byte : (s : List ℕ) (i : ℕ) → IsString s → char_at s i < 256
char_at-byte [] zero h = omega arith
char_at-byte [] (suc i) h = omega arith
char_at-byte (c ∷ s) zero h = let (_, byte, _) = h in byte
char_at-byte (c ∷ s) (suc i) h = let (_, _, rest) = h in char_at-byte s i rest

or_int-same :
    (s t : List ℕ) (m : ℕ)
    → IsString s
    → IsString t
    → m ≤ strlen s
    → m ≤ strlen t
    → (m ≡ strlen s) ⊎ (m ≡ strlen t)
    → or_int (memcmp s t m) (char_diff (char_at s m) (char_at t m))
      ≡ (if same s t then pos 0 else pos 1)
or_int-same s t m hs ht ls lt ends =
    rw
      (
        char_diff-is_zero (char_at s m) (char_at t m) (char_at-byte s m hs) (char_at-byte t m ht),
        memcmp-is_zero s t m hs ht ls lt ends,
      )
      refl

strcmp-cons :
    (c d : ℕ) (s t : List ℕ)
    → IsString (c ∷ s)
    → IsString (d ∷ t)
    → strcmp (c ∷ s) (d ∷ t) ≡ (if same (c ∷ s) (d ∷ t) then pos 0 else pos 1)
unfolding strcmp strncmp
strcmp-cons c d s t hs ht =
    let (c_above, _, _) = hs in
    let (d_above, _, _) = ht in
    let c_not : (c == 0) ≡ false = ground (arith, c_above) in
    let d_not : (d == 0) ≡ false = ground (arith, d_above) in
    elim (Bool-cases (ltb (strlen (c ∷ s)) (strlen (d ∷ t)))) [
      | inl e ↦
          rw (c_not, d_not, e)
            (or_int-same (c ∷ s) (d ∷ t) (strlen (c ∷ s)) hs ht (omega arith) (ground (arith, e))
              (inl refl))
      | inr e ↦
          rw (c_not, d_not, e)
            (or_int-same (c ∷ s) (d ∷ t) (strlen (d ∷ t)) hs ht (ground (arith, e)) (omega arith)
              (inr refl))
    ]

strcmp-same :
    (c d : ℕ) (s t : List ℕ)
    → IsString (c ∷ s)
    → IsString (d ∷ t)
    → same (c ∷ s) (d ∷ t) ≡ true
    → strcmp (c ∷ s) (d ∷ t) ≡ pos 0
strcmp-same c d s t hs ht e = strcmp-cons c d s t hs ht ∙ rw e refl

strcmp-different :
    (c d : ℕ) (s t : List ℕ)
    → IsString (c ∷ s)
    → IsString (d ∷ t)
    → same (c ∷ s) (d ∷ t) ≡ false
    → strcmp (c ∷ s) (d ∷ t) ≡ pos 1
strcmp-different c d s t hs ht e = strcmp-cons c d s t hs ht ∙ rw e refl

-- `strcmp` of two strings is 0 exactly if they are the same.
pub strcmp-is_zero : (s t : List ℕ) → IsString s → IsString t → (strcmp s t ≡ pos 0) ↔ (s ≡ t)
unfolding strcmp
strcmp-is_zero [] [] hs ht = (λ _. refl, λ _. refl)
strcmp-is_zero [] (d ∷ t) hs ht =
    let (above, _, _) = ht in
    (λ e. absurd (ground (arith, e, above)), λ e. absurd (ground (arith, e)))
strcmp-is_zero (c ∷ s) [] hs ht =
    let (above, byte, _) = hs in
    let c_not : (c == 0) ≡ false = ground (arith, above) in
    (λ e. absurd (ground (arith, e, above, byte)), λ e. absurd (ground (arith, e)))
strcmp-is_zero (c ∷ s) (d ∷ t) hs ht =
    let back : (c ∷ s) ≡ (d ∷ t) → strcmp (c ∷ s) (d ∷ t) ≡ pos 0 =
      λ e. strcmp-same c d s t hs ht (rw e (same_refl (d ∷ t))) in
    elim (Bool-cases (same (c ∷ s) (d ∷ t))) [
      | inl e ↦ (λ _. same_sound (c ∷ s) (d ∷ t) e, back)
      | inr e ↦ let one = strcmp-different c d s t hs ht e in (λ zero_too. absurd cc, back)
    ]

not-same : (s t : List ℕ) → s ≢ t → same s t ≡ false
not-same s t ne = elim (Bool-cases (same s t)) [
  | inl e ↦ absurd (ne (same_sound s t e))
  | inr e ↦ e
]

-- `strcmp` of two different strings, neither of them empty, is 1, whichever comes first.
pub strcmp-unordered :
    (s t : List ℕ)
    → IsString s
    → IsString t
    → 0 < strlen s
    → 0 < strlen t
    → s ≢ t
    → (strcmp s t ≡ pos 1) × (strcmp t s ≡ pos 1)
unfolding strlen
strcmp-unordered (c ∷ s) (d ∷ t) hs ht _ _ ne = (
  strcmp-different c d s t hs ht (not-same (c ∷ s) (d ∷ t) ne),
  strcmp-different d c t s ht hs (not-same (d ∷ t) (c ∷ s) (λ e. ne (sym e))),
)
strcmp-unordered [] t hs ht above _ ne = absurd (omega arith)
strcmp-unordered (c ∷ s) [] hs ht _ above ne = absurd (omega arith)
