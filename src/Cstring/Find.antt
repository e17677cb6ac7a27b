-- ===== src/Cstring/Find.antt =====
-- `memchr` and `strchr` of kernel/libc/string.c, on the bytes of the memory. A pointer into the
-- memory is given as the index from the start of the search.
use dos.Prelude.{
  Option, arith, false, if◌then◌else◌, none, refl, some, subst, suc, sym, true, zero, ℕ, ℕ_discrete,
  ◌%◌, ◌+◌, ◌<◌, ◌==◌, ◌>>=◌, ◌≡◌, ◌≤◌,
}
use dos.Cstring.Copy.{strlen_at, IsStringAt, strlen_at-IsStringAt}

-- The loop of `memchr` from the index `i`.
pub memchr_from : ℕ → (ℕ → ℕ) → ℕ → ℕ → ℕ → Option ℕ
memchr_from zero mem ptr value i = none
memchr_from (suc left) mem ptr value i =
    let rest = memchr_from left mem ptr value (i + 1) in
    if mem (ptr + i) == value % 256 then some i else rest

pub memchr : ℕ → ℕ → ℕ → (ℕ → ℕ) → Option ℕ
unfolding memchr_from
memchr ptr value num mem = memchr_from num mem ptr value 0

-- The outer none is that the string has no NUL among the first bytes.
pub strchr : ℕ → ℕ → ℕ → (ℕ → ℕ) → Option (Option ℕ)
unfolding memchr
strchr fuel str character mem = do
  len ← strlen_at fuel mem str
  some (memchr str character (len + 1) mem)

-- A result of a search over the indices from `i` to `end`: the first that the byte stands at.
abbrev pub IsFirstByte : (ℕ → Type 0) → ℕ → ℕ → Option ℕ → Type 0
IsFirstByte here i end none = (j : ℕ) → i ≤ j → j < end → ¬ here j
IsFirstByte here i end (some k) =
    (i ≤ k) × (k < end) × here k × ((j : ℕ) → i ≤ j → j < k → ¬ here j)

IsFirstByte-later :
    (here : ℕ → Type 0) (i end : ℕ) (r : Option ℕ)
    → ¬ here i
    → IsFirstByte here (i + 1) end r
    → IsFirstByte here i end r
IsFirstByte-later here i end none miss rest = λ j low high there. elim (ℕ_discrete i j) [
  | yes same ↦ miss (subst here (sym same) there)
  | no other ↦ rest j (omega (arith, low, other)) high there
]
IsFirstByte-later here i end (some k) miss (low, high, found, before) = (
  omega (arith, low),
  high,
  found,
  λ j j_low j_high there. elim (ℕ_discrete i j) [
    | yes same ↦ miss (subst here (sym same) there)
    | no other ↦ before j (omega (arith, j_low, other)) j_high there
  ],
)

memchr_from-IsFirstByte :
    (left : ℕ) (mem : ℕ → ℕ) (ptr value i : ℕ)
    → IsFirstByte (λ j. mem (ptr + j) ≡ value % 256) i (i + left) (memchr_from left mem ptr value i)
unfolding memchr_from
memchr_from-IsFirstByte zero mem ptr value i = λ j low high. absurd (omega (arith, low, high))
memchr_from-IsFirstByte (suc left) mem ptr value i =
    let here = λ (j : ℕ). mem (ptr + j) ≡ value % 256 in
    elim (ℕ_discrete (mem (ptr + i)) (value % 256)) [
      | yes same ↦
          let hit : (mem (ptr + i) == value % 256) ≡ true = ground (arith, same) in
          rw hit (omega arith, omega arith, same, λ j low high. absurd (omega (arith, low, high)))
      | no other ↦
          let miss : (mem (ptr + i) == value % 256) ≡ false = ground (arith, other) in
          let shift : i + 1 + left ≡ i + suc left = omega arith in
          let rest = memchr_from-IsFirstByte left mem ptr value (i + 1) in
          rw miss (
            IsFirstByte-later here i (i + suc left) (memchr_from left mem ptr value (i + 1)) other (
              subst (λ e. IsFirstByte here (i + 1) e (memchr_from left mem ptr value (i + 1))) shift
                rest))
    ]

-- `strchr` of a string ends, and gives the first place of the character in the string with its NUL,
-- or NULL if it is nowhere there.
pub strchr_lem :
    (fuel str character len : ℕ) (mem : ℕ → ℕ)
    → IsStringAt mem str len
    → len < fuel
    → (r : Option ℕ) × (strchr fuel str character mem ≡ some r)
      × IsFirstByte (λ j. mem (str + j) ≡ character % 256) 0 (len + 1) r
unfolding strchr memchr
strchr_lem fuel str character len mem h enough = (
  memchr str character (len + 1) mem,
  rw (strlen_at-IsStringAt fuel mem str len h enough) refl,
  first,
)
  where
    first :
        IsFirstByte
          (λ j. mem (str + j) ≡ character % 256)
          0
          (len + 1)
          (memchr str character (len + 1) mem)
    first =
        subst
          (λ e.
            IsFirstByte (λ j. mem (str + j) ≡ character % 256) 0 e
              (memchr_from (len + 1) mem str character 0))
          (omega arith) (memchr_from-IsFirstByte (len + 1) mem str character 0)
