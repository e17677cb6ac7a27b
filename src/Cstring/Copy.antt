-- ===== src/Cstring/Copy.antt =====
-- The functions of kernel/libc/string.c that write strings into the memory, and `memchr`.
use dos.Prelude.{
  Bool, Option, ap, arith, false, fun_ext, if◌then◌else◌, leb, ltb, none, refl, some, suc, sym,
  true, zero, ℕ, ◌&&◌, ◌+◌, ◌-◌, ◌<◌, ◌==◌, ◌>>=◌, ◌∙◌, ◌≡◌, ◌≢◌, ◌≤◌, ◌⊎◌,
}
use dos.Cstring.Memory.{memcpy, memcpy_lem, copy_block}

-- `strlen` of the string at an address. None is that no NUL is among the first bytes.
pub strlen_at : ℕ → (ℕ → ℕ) → ℕ → Option ℕ
strlen_at zero mem a = none
strlen_at (suc fuel) mem a =
    let rest = strlen_at fuel mem (a + 1) in
    if mem a == 0 then some 0 else (rest >>= (λ l. some (l + 1)))

abbrev pub store_nul : (ℕ → ℕ) → ℕ → ℕ → ℕ
store_nul mem a x = if x == a then 0 else mem x

pub strcpy : ℕ → Bool → Bool → ℕ → ℕ → (ℕ → ℕ) → Option (ℕ → ℕ)
unfolding strlen_at
strcpy fuel sse mmx destination source mem = do
  len ← strlen_at fuel mem source
  some (store_nul (memcpy sse mmx destination source len mem) (destination + len))

-- The loop of `strncpy` that writes NULs.
pub pad : ℕ → ℕ → (ℕ → ℕ) → ℕ → ℕ
pad zero a mem = mem
pad (suc left) a mem = pad left (a + 1) (store_nul mem a)

pub strncpy : ℕ → Bool → Bool → ℕ → ℕ → ℕ → (ℕ → ℕ) → Option (ℕ → ℕ)
unfolding strlen_at pad
strncpy fuel sse mmx destination source n mem = do
  len ← strlen_at fuel mem source
  let copied = memcpy sse mmx destination source (if ltb len n then len else n) mem
  some (store_nul (pad (n - len) (destination + len) copied) (destination + n))

pub strncat : ℕ → Bool → Bool → ℕ → ℕ → ℕ → (ℕ → ℕ) → Option (ℕ → ℕ)
unfolding strlen_at strncpy
strncat fuel sse mmx destination source n mem = do
  dest_len ← strlen_at fuel mem destination
  strncpy fuel sse mmx (destination + dest_len) source n mem

pub strcat : ℕ → Bool → Bool → ℕ → ℕ → (ℕ → ℕ) → Option (ℕ → ℕ)
unfolding strlen_at strncat
strcat fuel sse mmx destination source mem = do
  len ← strlen_at fuel mem source
  strncat fuel sse mmx destination source len mem

-- The string at an address has this length.
pub record IsStringAt (mem : ℕ → ℕ) (a len : ℕ) : Type 0 where
  pub inside : (i : ℕ) → i < len → mem (a + i) ≢ 0
  pub ended : mem (a + len) ≡ 0

pub strlen_at-IsStringAt :
    (fuel : ℕ) (mem : ℕ → ℕ) (a len : ℕ)
    → IsStringAt mem a len
    → len < fuel
    → strlen_at fuel mem a ≡ some len
unfolding strlen_at
strlen_at-IsStringAt zero mem a len h enough = absurd (omega arith)
strlen_at-IsStringAt (suc fuel) mem a zero h enough =
    let here : a + 0 ≡ a = omega arith in
    let at_end : mem a ≡ 0 = ap mem (sym here) ∙ h.ended in
    let done : (mem a == 0) ≡ true = ground (arith, at_end) in rw done refl
strlen_at-IsStringAt (suc fuel) mem a (suc l) h enough =
    let here : a + 0 ≡ a = omega arith in
    let some_char : mem a ≢ 0 = λ e. h.inside 0 (omega arith) (ap mem here ∙ e) in
    let more : (mem a == 0) ≡ false = ground (arith, some_char) in
    let shift : (i : ℕ) → a + 1 + i ≡ a + suc i = λ i. omega arith in
    let tail : IsStringAt mem (a + 1) l = record {
      inside = λ i lt e. h.inside (suc i) (omega (arith, lt)) (ap mem (sym (shift i)) ∙ e);
      ended = ap mem (shift l) ∙ h.ended;
    } in
    let plus : l + 1 ≡ suc l = omega arith in
    rw (more, strlen_at-IsStringAt fuel mem (a + 1) l tail (omega (arith, enough))) (ap some plus)

pad_lem :
    (k a : ℕ) (mem : ℕ → ℕ) (x : ℕ)
    → pad k a mem x ≡ (if leb a x && ltb x (a + k) then 0 else mem x)
unfolding pad
pad_lem zero a mem x = ground arith
pad_lem (suc k) a mem x = let rest = pad_lem k (a + 1) (store_nul mem a) x in ground (arith, rest)

-- `strcpy` of a string that does not overlap its destination in front of it ends, and copies the
-- string with its NUL and nothing else.
pub strcpy_lem :
    (fuel : ℕ) (sse mmx : Bool) (d s len : ℕ) (mem : ℕ → ℕ)
    → IsStringAt mem s len
    → len < fuel
    → (d ≤ s) ⊎ (s + len ≤ d)
    → strcpy fuel sse mmx d s mem ≡ some (copy_block (len + 1) d s mem)
unfolding strcpy
strcpy_lem fuel sse mmx d s len mem h enough forward =
    rw (strlen_at-IsStringAt fuel mem s len h enough, memcpy_lem sse mmx d s len mem forward)
      (ap some (
        fun_ext λ x.
          let nul : x ≡ d + len → mem (s + (x - d)) ≡ 0 =
            λ e. let there : s + (x - d) ≡ s + len = omega (arith, e) in ap mem there ∙ h.ended in
          ground (arith, nul)))

-- `strncpy` of a string that does not overlap its destination in front of it ends, and fills the `n`
-- bytes of the destination with the string, cut or padded with NULs; but it writes a NUL to the byte
-- behind them too.
pub strncpy_lem :
    (fuel : ℕ) (sse mmx : Bool) (d s n len : ℕ) (mem : ℕ → ℕ)
    → IsStringAt mem s len
    → len < fuel
    → (d ≤ s) ⊎ (s + len ≤ d)
    → (mem' : ℕ → ℕ) × (strncpy fuel sse mmx d s n mem ≡ some mem')
      × ((x : ℕ)
          → mem' x ≡ (
              if x == d + n
              then 0
              else if leb d x && ltb x (d + n)
              then (if ltb x (d + len) then mem (s + (x - d)) else 0)
              else mem x))
unfolding strncpy
strncpy_lem fuel sse mmx d s n len mem h enough forward =
    let count = if ltb len n then len else n in
    let up : (d ≤ s) ⊎ (s + count ≤ d) = ground (arith, forward) in
    let copied = memcpy sse mmx d s count mem in
    let block = memcpy_lem sse mmx d s count mem up in
    (
      store_nul (pad (n - len) (d + len) copied) (d + n),
      rw (strlen_at-IsStringAt fuel mem s len h enough) refl,
      λ x.
          let padded = pad_lem (n - len) (d + len) copied x in
          let byte : copied x ≡ copy_block count d s mem x = ap (λ m. m x) block in
          ground (arith, padded, byte),
    )
