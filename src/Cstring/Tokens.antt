-- ===== src/Cstring/Tokens.antt =====
-- `strlen`, and `strtok` of kernel/libc/string.c with one delimiter.
use dos.Prelude.{
  List, [], ap, arith, false, length, none, refl, some, true, ℕ, ◌++◌, ◌∙◌, ◌∷◌, ◌≡◌, ◌≢◌,
}
use dos.Cstring.{strlen, in_set, strtok}
use dos.Cstring.Search.{strtok-step, longer_token}

-- No character is `d`.
abbrev pub Lacks : ℕ → List ℕ → Type 0
Lacks d [] = Unit {0}
Lacks d (c ∷ str) = (c ≢ d) × Lacks d str

in_set_one : (c d : ℕ) → c ≢ d → in_set (d ∷ []) c ≡ false
unfolding in_set
in_set_one c d other = ground (arith, other)

in_set_self : (d : ℕ) → in_set (d ∷ []) d ≡ true
unfolding in_set
in_set_self d = ground arith

strtok_nil : (t : List ℕ) → strtok [] t ≡ ([], none)
unfolding strtok
strtok_nil t = refl

-- The token ends at the delimiter.
pub strtok-append :
    (d : ℕ) (token rest : List ℕ)
    → Lacks d token
    → strtok (token ++ d ∷ rest) (d ∷ []) ≡ (token, some rest)
strtok-append d [] rest lacks = strtok-step d rest (d ∷ []) ∙ rw (in_set_self d) refl
strtok-append d (c ∷ token) rest (other, lacks) =
    strtok-step c (token ++ d ∷ rest) (d ∷ [])
    ∙ rw (in_set_one c d other) (ap (longer_token c) (strtok-append d token rest lacks))

-- Without a delimiter it is the string.
pub strtok_whole : (d : ℕ) (token : List ℕ) → Lacks d token → strtok token (d ∷ []) ≡ (token, none)
strtok_whole d [] lacks = strtok_nil (d ∷ [])
strtok_whole d (c ∷ token) (other, lacks) =
    strtok-step c token (d ∷ [])
    ∙ rw (in_set_one c d other) (ap (longer_token c) (strtok_whole d token lacks))

pub strlen_lem : (str : List ℕ) → strlen str ≡ length str
unfolding strlen
strlen_lem [] = refl
strlen_lem (c ∷ str) = let rest = strlen_lem str in omega (arith, rest)
