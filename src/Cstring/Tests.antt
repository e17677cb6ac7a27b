-- ===== src/Cstring/Tests.antt =====
-- Concrete strings for kernel/libc/string.c.
use dos.Prelude.{List, [], arith, false, refl, some, true, ℕ, ◌↔◌, ◌∷◌, ◌≡◌, ◌≢◌}
use dos.Prelude.Int.{pos, minus}
use dos.Cstring.{
  strcmp, strncmp, stricmp, strincmp, strupr, strlwr, strspn, strpbrk, strstr, strtok, IsString,
}
use dos.Cstring.Memory.{memmove, memmove_lem, copy_block}
use dos.Cstring.Compare.{strcmp-is_zero}

abbrev abc : List ℕ
abc = 97 ∷ 98 ∷ 99 ∷ []

abbrev abd : List ℕ
abd = 97 ∷ 98 ∷ 100 ∷ []

abbrev bc : List ℕ
bc = 98 ∷ 99 ∷ []

abc-IsString : IsString abc
abc-IsString =
    (omega arith, omega arith, (omega arith, omega arith, (omega arith, omega arith, tt)))

abd-IsString : IsString abd
abd-IsString =
    (omega arith, omega arith, (omega arith, omega arith, (omega arith, omega arith, tt)))

memmove_example : memmove true false 3 1 10 (λ x. x) ≡ copy_block 10 3 1 (λ x. x)
memmove_example = memmove_lem true false 3 1 10 (λ x. x) (omega arith)

strcmp-is_zero_example : (strcmp abc abd ≡ pos 0) ↔ (abc ≡ abd)
strcmp-is_zero_example = strcmp-is_zero abc abd abc-IsString abd-IsString

abc-abd : abc ≢ abd
abc-abd e = absurd (ground (arith, e))

searches :
    (strstr abc bc ≡ some 1)
    × (strpbrk abc bc ≡ some 1)
    × (strspn bc abc ≡ 2)
    × (strtok abc bc ≡ (97 ∷ [], some (99 ∷ [])))
unfolding strstr strpbrk strspn strtok
searches = (refl, refl, refl, refl)

comparisons :
    (strncmp abc abd 2 ≡ pos 0)
    × (stricmp (strupr abc) abc ≡ pos 0)
    × (strincmp abc (strlwr abd) 3 ≡ minus 99 100)
unfolding strncmp stricmp strupr strincmp strlwr dos.Ctype.toupper dos.Ctype.tolower
comparisons = (refl, refl, refl)
