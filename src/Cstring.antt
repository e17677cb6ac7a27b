-- ===== src/Cstring.antt =====
-- kernel/libc/string.c. A C string is the list of its bytes before the NUL; its characters are
-- read as bytes, and as a `char`, which is signed, where the source does arithmetic with them.
pub mod Memory
pub mod Compare
pub mod Search
pub mod Tokens
pub mod Copy
pub mod Find
mod Tests
use dos.Prelude.{
  Bool, List, Option, [], false, get_or, if◌then◌else◌, ltb, map, none, not, some, suc, true, zero,
  ℕ, ◌&&◌, ◌+◌, ◌-◌, ◌<◌, ◌==◌, ◌∷◌,
}
use dos.Prelude.Int.{ℤ, pos, negsuc, minus}
use dos.Ctype.{toupper, tolower}

-- `*str` of a string, the NUL included.
abbrev pub head_char : List ℕ → ℕ
head_char [] = 0
head_char (c ∷ s) = c

-- A byte as a `char`.
abbrev pub to_char : ℕ → ℤ
to_char c = if ltb c 128 then pos c else minus c 256

-- The opposite of a `char`.
abbrev pub minus_char : ℕ → ℤ
minus_char c = if ltb c 128 then minus 0 c else pos (256 - c)

-- The difference of two characters.
abbrev pub char_diff : ℕ → ℕ → ℤ
char_diff a b =
    if ltb a 128
    then (if ltb b 128 then minus a b else pos (a + 256 - b))
    else (if ltb b 128 then minus a (b + 256) else minus a b)

-- A C string: bytes, none of them NUL.
abbrev pub IsString : List ℕ → Type 0
IsString [] = Unit {0}
IsString (c ∷ s) = (0 < c) × (c < 256) × IsString s

pub strlen : List ℕ → ℕ
strlen [] = 0
strlen (c ∷ s) = strlen s + 1

-- `memcmp` of the first `num` bytes of two strings with their NULs. Behind two NULs the rest of the
-- memory would decide; the callers below go no further than the shorter string.
pub memcmp : List ℕ → List ℕ → ℕ → ℤ
memcmp s t zero = pos 0
memcmp [] t (suc num) = minus 0 (head_char t)
memcmp (c ∷ s) [] (suc num) = pos c
memcmp (c ∷ s) (d ∷ t) (suc num) = let rest = memcmp s t num in if c == d then rest else minus c d

pub strncmp : List ℕ → List ℕ → ℕ → ℤ
unfolding memcmp
strncmp str1 str2 num =
    if head_char str1 == 0
    then to_char (head_char str2)
    else if head_char str2 == 0
    then minus_char (head_char str1)
    else memcmp str1 str2 num

-- `str[i]`, where `i` is at most the length.
abbrev pub char_at : List ℕ → ℕ → ℕ
char_at s i = get_or s i 0

abbrev pub is_zero : ℤ → Bool
is_zero (pos n) = n == 0
is_zero (negsuc n) = false

-- `a || b` on integers.
abbrev pub or_int : ℤ → ℤ → ℤ
or_int a b = if is_zero a && is_zero b then pos 0 else pos 1

pub strcmp : List ℕ → List ℕ → ℤ
unfolding strncmp strlen
strcmp str1 str2 =
    let len_1 = strlen str1 in
    let len_2 = strlen str2 in
    if head_char str1 == 0
    then to_char (head_char str2)
    else if head_char str2 == 0
    then minus_char (head_char str1)
    else or_int (strncmp str1 str2 (if ltb len_1 len_2 then len_1 else len_2)) (
        if ltb len_1 len_2
        then char_diff (char_at str1 len_1) (char_at str2 len_1)
        else char_diff (char_at str1 len_2) (char_at str2 len_2))

-- The loop of `strincmp`.
pub strincmp_loop : List ℕ → List ℕ → ℕ → ℤ
strincmp_loop s t zero = pos 0
strincmp_loop [] t (suc num) = char_diff 0 (head_char t)
strincmp_loop (c ∷ s) [] (suc num) = char_diff c 0
strincmp_loop (c ∷ s) (d ∷ t) (suc num) =
    let rest = strincmp_loop s t num in if toupper c == toupper d then rest else char_diff c d

pub strincmp : List ℕ → List ℕ → ℕ → ℤ
unfolding strincmp_loop
strincmp str1 str2 num =
    if head_char str1 == 0
    then to_char (head_char str2)
    else if head_char str2 == 0
    then minus_char (head_char str1)
    else strincmp_loop str1 str2 num

pub stricmp : List ℕ → List ℕ → ℤ
unfolding strincmp strlen
stricmp str1 str2 =
    let len_1 = strlen str1 in
    let len_2 = strlen str2 in
    if head_char str1 == 0
    then to_char (head_char str2)
    else if head_char str2 == 0
    then minus_char (head_char str1)
    else or_int (strincmp str1 str2 (if ltb len_1 len_2 then len_1 else len_2)) (
        if ltb len_1 len_2
        then char_diff (char_at str1 len_1) (char_at str2 len_1)
        else char_diff (char_at str1 len_2) (char_at str2 len_2))

pub strupr : List ℕ → List ℕ
strupr s = map toupper s

pub strlwr : List ℕ → List ℕ
strlwr s = map tolower s

-- Whether the inner loops of `strcspn`, `strspn` and `strpbrk` stop before the NUL of `str2`.
pub in_set : List ℕ → ℕ → Bool
in_set [] c = false
in_set (d ∷ str2) c = if c == d then true else in_set str2 c

pub strcspn : List ℕ → List ℕ → ℕ
unfolding in_set
strcspn [] str2 = 0
strcspn (c ∷ str1) str2 = let rest = strcspn str1 str2 in if in_set str2 c then 0 else rest + 1

pub strspn : List ℕ → List ℕ → ℕ
unfolding in_set
strspn [] str2 = 0
strspn (c ∷ str1) str2 = let rest = strspn str1 str2 in if not (in_set str2 c) then 0 else rest + 1

-- A pointer into `str1` is the index; `none` is NULL.
pub strpbrk_from : List ℕ → List ℕ → ℕ → Option ℕ
unfolding in_set
strpbrk_from [] str2 i = none
strpbrk_from (c ∷ str1) str2 i =
    let rest = strpbrk_from str1 str2 (i + 1) in if in_set str2 c then some i else rest

pub strpbrk : List ℕ → List ℕ → Option ℕ
unfolding strpbrk_from
strpbrk str1 str2 = strpbrk_from str1 str2 0

-- The inner loop of `strstr`: whether `str2` stands at the front. The NUL of the text differs from
-- every character of `str2`.
pub starts_with : List ℕ → List ℕ → Bool
starts_with str1 [] = true
starts_with [] (d ∷ str2) = false
starts_with (c ∷ str1) (d ∷ str2) =
    let rest = starts_with str1 str2 in if not (c == d) then false else rest

pub strstr_from : List ℕ → List ℕ → ℕ → Option ℕ
unfolding starts_with
strstr_from [] str2 i = none
strstr_from (c ∷ str1) str2 i =
    let rest = strstr_from str1 str2 (i + 1) in
    if c == head_char str2 then (if starts_with (c ∷ str1) str2 then some i else rest) else rest

pub strstr : List ℕ → List ℕ → Option ℕ
unfolding strstr_from
strstr str1 str2 = strstr_from str1 str2 0

-- `strtok` on the string that is scanned: the token, and what `last` points to then.
pub strtok : List ℕ → List ℕ → List ℕ × Option (List ℕ)
unfolding in_set
strtok [] delimiters = ([], none)
strtok (c ∷ str) delimiters =
    let (token, last) = strtok str delimiters in
    if in_set delimiters c then ([], some str) else (c ∷ token, last)
