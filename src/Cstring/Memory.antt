-- ===== src/Cstring/Memory.antt =====
-- `memcpy` and `memmove` of kernel/libc/string.c, on the bytes of the memory. The two flags are the
-- tests of `cpuinfo` for SSE and MMX, whose loads and stores move 16 and 8 bytes at once.
use dos.Prelude.{
  Bool, Bool-cases, ap, arith, false, fun_ext, if◌then◌else◌, inl, inr, leb, ltb, suc, true, zero,
  ℕ, ◌&&◌, ◌*◌, ◌+◌, ◌-◌, ◌/◌, ◌^◌, ◌∙◌, ◌≡◌, ◌≤◌, ◌⊎◌,
}
use native.Mathlib.Nat.{div-mul-le_self}

-- One load and one store of `k` bytes: all are read before any is written.
abbrev pub copy_block : ℕ → ℕ → ℕ → (ℕ → ℕ) → ℕ → ℕ
copy_block k d s mem x = if leb d x && ltb x (d + k) then mem (s + (x - d)) else mem x

-- A loop over `rounds` blocks of `k` bytes.
pub copy_blocks : ℕ → ℕ → ℕ → ℕ → (ℕ → ℕ) → ℕ → ℕ
copy_blocks k zero d s mem = mem
copy_blocks k (suc rounds) d s mem = copy_blocks k rounds (d + k) (s + k) (copy_block k d s mem)

-- One of the loops of `memcpy` with what is left to it: the blocks of `k` bytes, then `next`.
abbrev pub stage : ℕ → ℕ → ℕ → ℕ → (ℕ → ℕ) → (ℕ → ℕ → ℕ → (ℕ → ℕ) → ℕ → ℕ) → ℕ → ℕ
stage k d s n mem next =
    next (d + n / k * k) (s + n / k * k) (n - n / k * k) (copy_blocks k (n / k) d s mem)

pub memcpy : Bool → Bool → ℕ → ℕ → ℕ → (ℕ → ℕ) → ℕ → ℕ
unfolding copy_blocks
memcpy sse mmx destination source n mem =
    let bytes = λ (d s n : ℕ) (mem : ℕ → ℕ). copy_blocks 1 n d s mem in
    let halves = λ (d s n : ℕ) (mem : ℕ → ℕ). stage 2 d s n mem bytes in
    let words = λ (d s n : ℕ) (mem : ℕ → ℕ). stage 4 d s n mem halves in
    let with_mmx =
      λ (d s n : ℕ) (mem : ℕ → ℕ). if mmx then stage 8 d s n mem words else words d s n mem in
    if sse then stage 16 destination source n mem with_mmx else with_mmx destination source n mem

-- The loop of `memmove` that goes down, with `i` bytes left: its index is `i - 1`.
pub copy_down : ℕ → ℕ → ℕ → (ℕ → ℕ) → ℕ → ℕ
copy_down zero d s mem = mem
copy_down (suc i) d s mem = copy_down i d s (copy_block 1 (d + i) (s + i) mem)

-- The rounds of that loop: its index is an `int` that starts at `n - 1`, for a `size_t` of 32 bits.
-- From `2 ^ 31 + 1` on it is negative at once, and the loop does nothing.
pub down_rounds : ℕ → ℕ
down_rounds n = if leb n (2 ^ 31) then n else 0

pub memmove : Bool → Bool → ℕ → ℕ → ℕ → (ℕ → ℕ) → ℕ → ℕ
unfolding memcpy copy_down
memmove sse mmx dest source n mem =
    if ltb dest source
    then memcpy sse mmx dest source n mem
    else copy_down (down_rounds n) dest source mem

-- Going up is safe if the destination starts below the source or behind its end.
abbrev pub IsForward : ℕ → ℕ → ℕ → Type 0
IsForward d s n = (d ≤ s) ⊎ (s + n ≤ d)

-- Two blocks one after the other make one.
copy_block-split :
    (a b d s : ℕ) (mem : ℕ → ℕ)
    → IsForward d s (a + b)
    → copy_block b (d + a) (s + a) (copy_block a d s mem) ≡ copy_block (a + b) d s mem
copy_block-split a b d s mem h = fun_ext λ x.
    let shift : d + a ≤ x → s + a + (x - (d + a)) ≡ s + (x - d) = λ past. omega arith in
    ground (arith, shift, h)

copy_blocks-eq :
    (k rounds d s : ℕ) (mem : ℕ → ℕ)
    → IsForward d s (rounds * k)
    → copy_blocks k rounds d s mem ≡ copy_block (rounds * k) d s mem
unfolding copy_blocks
copy_blocks-eq k zero d s mem h = fun_ext λ x. ground arith
copy_blocks-eq k (suc rounds) d s mem h =
    let more : k + rounds * k ≡ suc rounds * k = omega arith in
    let up : IsForward (d + k) (s + k) (rounds * k) = ground (arith, more) in
    copy_blocks-eq k rounds (d + k) (s + k) (copy_block k d s mem) up
    ∙ copy_block-split k (rounds * k) d s mem (rw more h)
    ∙ ap (λ n. copy_block n d s mem) more

-- A way of copying that is right for every run that may be copied upwards.
abbrev Copies : (ℕ → ℕ → ℕ → (ℕ → ℕ) → ℕ → ℕ) → Type 0
Copies f = (d s n : ℕ) (mem : ℕ → ℕ) → IsForward d s n → f d s n mem ≡ copy_block n d s mem

bytes-Copies : Copies (λ d s n mem. copy_blocks 1 n d s mem)
bytes-Copies d s n mem h =
    let same : n * 1 ≡ n = omega arith in
    copy_blocks-eq 1 n d s mem (rw same h) ∙ ap (λ t. copy_block t d s mem) same

stage-Copies :
    (k : ℕ) (next : ℕ → ℕ → ℕ → (ℕ → ℕ) → ℕ → ℕ)
    → Copies next
    → Copies (λ d s n mem. stage k d s n mem next)
stage-Copies k next right d s n mem h =
    let whole = n / k * k in
    let below : whole ≤ n = div-mul-le_self n k in
    let parts : whole + (n - whole) ≡ n = omega arith in
    rw (copy_blocks-eq k (n / k) d s mem (ground (arith, below, h))) (
      right (d + whole) (s + whole) (n - whole) (copy_block whole d s mem)
        (ground (arith, below, h))
      ∙ copy_block-split whole (n - whole) d s mem (rw parts h)
      ∙ ap (λ t. copy_block t d s mem) parts)

-- The loops of `memcpy` that need neither SSE nor MMX.
abbrev copy_words : ℕ → ℕ → ℕ → (ℕ → ℕ) → ℕ → ℕ
copy_words d s n mem =
    stage 4 d s n mem (λ d s n mem. stage 2 d s n mem (λ d s n mem. copy_blocks 1 n d s mem))

words-Copies : Copies copy_words
words-Copies =
    stage-Copies 4 (λ d s n mem. stage 2 d s n mem (λ d s n mem. copy_blocks 1 n d s mem))
      (stage-Copies 2 (λ d s n mem. copy_blocks 1 n d s mem) bytes-Copies)

-- `memcpy`, whichever instructions it uses, copies exactly the `n` bytes and changes no other,
-- where the destination starts below the source or behind its end.
pub memcpy_lem :
    (sse mmx : Bool) (d s n : ℕ) (mem : ℕ → ℕ)
    → (d ≤ s) ⊎ (s + n ≤ d)
    → memcpy sse mmx d s n mem ≡ copy_block n d s mem
unfolding memcpy
memcpy_lem false false d s n mem h = words-Copies d s n mem h
memcpy_lem false true d s n mem h = stage-Copies 8 copy_words words-Copies d s n mem h
memcpy_lem true false d s n mem h = stage-Copies 16 copy_words words-Copies d s n mem h
memcpy_lem true true d s n mem h =
    stage-Copies 16 (λ d s n mem. stage 8 d s n mem copy_words)
      (stage-Copies 8 copy_words words-Copies) d s n mem h

copy_down-eq : (n d s : ℕ) (mem : ℕ → ℕ) → s ≤ d → copy_down n d s mem ≡ copy_block n d s mem
unfolding copy_down
copy_down-eq zero d s mem h = fun_ext λ x. ground arith
copy_down-eq (suc i) d s mem h =
    copy_down-eq i d s (copy_block 1 (d + i) (s + i) mem) h
    ∙ fun_ext λ x.
      let shift : x ≡ d + i → s + i + (x - (d + i)) ≡ s + (x - d) = λ at_end. omega arith in
      ground (arith, shift, h)

down_rounds-all : (n : ℕ) → n ≤ 2 ^ 31 → down_rounds n ≡ n
unfolding down_rounds
down_rounds-all n small = ground (arith, small)

-- `memmove` of at most `2 ^ 31` bytes, whichever instructions `memcpy` uses, gives every one of the
-- `n` bytes of the destination what the source held before, and changes no other byte, however the
-- two overlap.
pub memmove_lem :
    (sse mmx : Bool) (d s n : ℕ) (mem : ℕ → ℕ)
    → n ≤ 2 ^ 31
    → memmove sse mmx d s n mem ≡ copy_block n d s mem
unfolding memmove
memmove_lem sse mmx d s n mem small = elim (Bool-cases (ltb d s)) [
  | inl up ↦ rw up (memcpy_lem sse mmx d s n mem (inl (ground (arith, up))))
  | inr down ↦ rw (down, down_rounds-all n small) (copy_down-eq n d s mem (ground (arith, down)))
]
