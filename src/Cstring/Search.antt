-- ===== src/Cstring/Search.antt =====
-- What the searches of kernel/libc/string.c find.
use dos.Prelude.{
  Bool-cases, List, Option, [], ap, ap₂, arith, drop, false, if◌then◌else◌, inl, inr, length, none,
  refl, some, suc, sym, true, zero, ℕ, ℕ_discrete, ◌+◌, ◌<◌, ◌∷◌, ◌≡◌, ◌⊎◌,
}
use dos.Cstring.{IsString, in_set, starts_with, strstr, strstr_from, strcspn, strspn, strtok}
use mathlib.Core.List.{◌++◌}

-- Whether `str2` stands in `str1` at the index `i`.
abbrev pub OccursAt : List ℕ → List ℕ → ℕ → Type 0
OccursAt str1 str2 i = (rest : List ℕ) × (drop i str1 ≡ str2 ++ rest)

starts_with_sound : (s t : List ℕ) → starts_with s t ≡ true → (rest : List ℕ) × (s ≡ t ++ rest)
unfolding starts_with
starts_with_sound s [] e = (s, refl)
starts_with_sound [] (d ∷ t) e = absurd (ground (arith, e))
starts_with_sound (c ∷ s) (d ∷ t) e =
    let heads : c ≡ d = ground (arith, e) in
    let (rest, eq) = starts_with_sound s t (ground (arith, e)) in (rest, ap₂ ◌∷◌ heads eq)

starts_with-append : (t rest : List ℕ) → starts_with (t ++ rest) t ≡ true
unfolding starts_with
starts_with-append [] rest = refl
starts_with-append (d ∷ t) rest = let below = starts_with-append t rest in ground (arith, below)

strstr_from-step :
    (c d : ℕ) (s t : List ℕ) (i : ℕ)
    → strstr_from (c ∷ s) (d ∷ t) i
      ≡ (if starts_with (c ∷ s) (d ∷ t) then some i else strstr_from s (d ∷ t) (i + 1))
unfolding strstr_from starts_with
strstr_from-step c d s t i = ground arith

OccursAt-starts :
    (c d : ℕ) (s t : List ℕ) → OccursAt (c ∷ s) (d ∷ t) 0 → starts_with (c ∷ s) (d ∷ t) ≡ true
OccursAt-starts c d s t (rest, e) = rw e (starts_with-append (d ∷ t) rest)

-- `str2` stands in `str1` at `i`, and nowhere before.
abbrev pub IsFirst : List ℕ → List ℕ → ℕ → Type 0
IsFirst str1 str2 i = OccursAt str1 str2 i × ((j : ℕ) → j < i → ¬ OccursAt str1 str2 j)

IsFirst-later :
    (c : ℕ) (s t : List ℕ) (n : ℕ)
    → ¬ OccursAt (c ∷ s) t 0
    → IsFirst s t n
    → IsFirst (c ∷ s) t (suc n)
IsFirst-later c s t n miss (here, before) = (here, earlier)
  where
    earlier : (j : ℕ) → j < suc n → ¬ OccursAt (c ∷ s) t j
    earlier zero lt occ = miss occ
    earlier (suc j) lt occ = before j (omega arith) occ

strstr_from-empty : (t : List ℕ) (i : ℕ) → strstr_from [] t i ≡ none
unfolding strstr_from
strstr_from-empty t i = refl

strstr_from-some :
    (s : List ℕ) (d : ℕ) (t : List ℕ) (i k : ℕ)
    → strstr_from s (d ∷ t) i ≡ some k
    → (n : ℕ) × (k ≡ i + n) × IsFirst s (d ∷ t) n
strstr_from-some [] d t i k e =
    let empty = strstr_from-empty (d ∷ t) i in absurd (ground (arith, e, empty))
strstr_from-some (c ∷ s) d t i k e =
    let step = strstr_from-step c d s t i in
    elim (Bool-cases (starts_with (c ∷ s) (d ∷ t))) [
      | inl starts ↦
          let here = starts_with_sound (c ∷ s) (d ∷ t) starts in
          let at_i : k ≡ i + 0 = ground (arith, e, step, starts) in
          (0, at_i, (here, λ j lt. absurd (omega arith)))
      | inr misses ↦
          let later : strstr_from s (d ∷ t) (i + 1) ≡ some k = ground (arith, e, step, misses) in
          let (n, eq, first) = strstr_from-some s d t (i + 1) k later in
          let miss : ¬ OccursAt (c ∷ s) (d ∷ t) 0 =
            λ occ. let starts = OccursAt-starts c d s t occ in ground (arith, starts, misses) in
          (suc n, omega arith, IsFirst-later c s (d ∷ t) n miss first)
    ]

strstr_from-none :
    (s : List ℕ) (d : ℕ) (t : List ℕ) (i : ℕ)
    → strstr_from s (d ∷ t) i ≡ none
    → (j : ℕ) → ¬ OccursAt s (d ∷ t) j
unfolding strstr_from
strstr_from-none [] d t i e zero (rest, eq) = absurd cc
strstr_from-none [] d t i e (suc j) (rest, eq) = absurd cc
strstr_from-none (c ∷ s) d t i e zero occ =
    let starts = OccursAt-starts c d s t occ in
    let step = strstr_from-step c d s t i in absurd (ground (arith, e, starts, step))
strstr_from-none (c ∷ s) d t i e (suc j) occ =
    let step = strstr_from-step c d s t i in
    strstr_from-none s d t (i + 1) (ground (arith, e, step)) j occ

-- `strstr` of a needle that is not empty is the first place where it stands, and is NULL only if it
-- stands nowhere.
pub strstr_lem :
    (s t : List ℕ)
    → 0 < length t
    → ((i : ℕ) → strstr s t ≡ some i → IsFirst s t i)
      × (strstr s t ≡ none → (j : ℕ) → ¬ OccursAt s t j)
unfolding strstr
strstr_lem s [] above = absurd (omega arith)
strstr_lem s (d ∷ t) above = (
  λ i e.
      let (n, same, first) = strstr_from-some s d t 0 i e in
      let at_n : i ≡ n = omega arith in rw at_n first,
  λ e. strstr_from-none s d t 0 e,
)

no_needle : (s : List ℕ) (i : ℕ) → IsString s → strstr_from s [] i ≡ none
unfolding strstr_from
no_needle [] i h = refl
no_needle (c ∷ s) i (above, _, bytes) =
    let rest = no_needle s (i + 1) bytes in ground (arith, rest, above)

-- `strstr` of the empty needle is NULL in every string, although the empty string stands at the
-- front of each.
pub strstr-empty : (s : List ℕ) → IsString s → (strstr s [] ≡ none) × OccursAt s [] 0
unfolding strstr
strstr-empty s h = (no_needle s 0 h, (s, refl))

-- Whether a set of delimiters holds a character.
abbrev pub IsAmong : ℕ → List ℕ → Type 0
IsAmong c [] = ⊥
IsAmong c (d ∷ t) = (c ≡ d) ⊎ IsAmong c t

in_set-true : (t : List ℕ) (c : ℕ) → in_set t c ≡ true → IsAmong c t
unfolding in_set
in_set-true [] c e = ground (arith, e)
in_set-true (d ∷ t) c e = elim (ℕ_discrete c d) [
  | yes eq ↦ inl eq
  | no ne ↦ let later : in_set t c ≡ true = ground (arith, e, ne) in inr (in_set-true t c later)
]

in_set-false : (t : List ℕ) (c : ℕ) → in_set t c ≡ false → ¬ IsAmong c t
unfolding in_set
in_set-false [] c e among = among
in_set-false (d ∷ t) c e (inl eq) = ground (arith, e, eq)
in_set-false (d ∷ t) c e (inr among) =
    let later : in_set t c ≡ false = ground (arith, e) in in_set-false t c later among

-- The first `n` characters have the property, and what follows them, if anything, has not.
pub data IsSpan (property : ℕ → Type 0) : List ℕ → ℕ → Type 0 where
  at_end : IsSpan property [] 0
  at_stop : {c : ℕ} {s : List ℕ} → ¬ property c → IsSpan property (c ∷ s) 0
  longer :
      {c n : ℕ} {s : List ℕ} → property c → IsSpan property s n → IsSpan property (c ∷ s) (suc n)

strcspn-IsSpan : (s t : List ℕ) → IsSpan (λ c. ¬ IsAmong c t) s (strcspn s t)
unfolding strcspn
strcspn-IsSpan [] t = at_end
strcspn-IsSpan (c ∷ s) t =
    let more : suc (strcspn s t) ≡ strcspn s t + 1 = omega arith in
    elim (Bool-cases (in_set t c)) [
      | inl e ↦ rw e (at_stop (λ not_in. not_in (in_set-true t c e)))
      | inr e ↦ rw (e, sym more) (longer (in_set-false t c e) (strcspn-IsSpan s t))
    ]

strspn-IsSpan : (s t : List ℕ) → IsSpan (λ c. IsAmong c t) s (strspn s t)
unfolding strspn
strspn-IsSpan [] t = at_end
strspn-IsSpan (c ∷ s) t =
    let more : suc (strspn s t) ≡ strspn s t + 1 = omega arith in
    elim (Bool-cases (in_set t c)) [
      | inl e ↦ rw (e, sym more) (longer (in_set-true t c e) (strspn-IsSpan s t))
      | inr e ↦ rw e (at_stop (in_set-false t c e))
    ]

-- `strspn` is the length of the longest start of the string with characters of the set only, and
-- `strcspn` of the longest with none of them.
pub spans :
    (s t : List ℕ)
    → IsSpan (λ c. IsAmong c t) s (strspn s t) × IsSpan (λ c. ¬ IsAmong c t) s (strcspn s t)
spans s t = (strspn-IsSpan s t, strcspn-IsSpan s t)

-- A token and what is left are the string again, with a delimiter between them.
abbrev pub IsCut : List ℕ → List ℕ → List ℕ × Option (List ℕ) → Type 0
IsCut s t (token, none) = s ≡ token
IsCut s t (token, some rest) = (c : ℕ) × IsAmong c t × (s ≡ token ++ c ∷ rest)

abbrev pub longer_token : ℕ → List ℕ × Option (List ℕ) → List ℕ × Option (List ℕ)
longer_token c (token, last) = (c ∷ token, last)

IsCut-longer :
    (c : ℕ) (s t : List ℕ) (p : List ℕ × Option (List ℕ))
    → IsCut s t p
    → IsCut (c ∷ s) t (longer_token c p)
IsCut-longer c s t (token, none) e = ap (λ s. c ∷ s) e
IsCut-longer c s t (token, some rest) (d, among, e) = (d, among, ap (λ s. c ∷ s) e)

pub strtok-step :
    (c : ℕ) (s t : List ℕ)
    → strtok (c ∷ s) t ≡ (if in_set t c then ([], some s) else longer_token c (strtok s t))
unfolding strtok
strtok-step c s t = refl

strtok-IsCut : (s t : List ℕ) → IsCut s t (strtok s t)
unfolding strtok
strtok-IsCut [] t = refl
strtok-IsCut (c ∷ s) t = elim (Bool-cases (in_set t c)) [
  | inl e ↦ rw (strtok-step c s t, e) (c, in_set-true t c e, refl)
  | inr e ↦ rw (strtok-step c s t, e) (IsCut-longer c s t (strtok s t) (strtok-IsCut s t))
]

abbrev pub token_of : List ℕ × Option (List ℕ) → List ℕ
token_of (token, last) = token

strtok-length : (s t : List ℕ) → length (token_of (strtok s t)) ≡ strcspn s t
unfolding strcspn strtok
strtok-length [] t = refl
strtok-length (c ∷ s) t = elim (Bool-cases (in_set t c)) [
  | inl e ↦ rw (strtok-step c s t, e) refl
  | inr e ↦ rw (strtok-step c s t, e) (let rest = strtok-length s t in omega (arith, rest))
]

-- `strtok` cuts the string at its first delimiter: the token and what is left make the string
-- again with one delimiter between them, or the token is all of it, and the token is as long as the
-- longest start without a delimiter. So a delimiter at the front gives an empty token.
pub strtok_lem :
    (s t : List ℕ) → IsCut s t (strtok s t) × (length (token_of (strtok s t)) ≡ strcspn s t)
strtok_lem s t = (strtok-IsCut s t, strtok-length s t)
