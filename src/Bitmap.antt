-- ===== src/Bitmap.antt =====
-- kernel/modules/bitmap.c: the allocator of physical page frames, one bit to a frame.
-- Addresses, `size_t` and `uintptr_t` have 32 bits. A thread that finds the lock taken spins until
-- it is free, so an operation is modelled from the moment at which it has the lock.
pub mod Scan
pub mod Pages
pub mod Alloc
pub mod Contiguous
pub mod Free
pub mod Count
pub mod Init
mod Tests
use dos.Prelude.{
  Bool, List, Option, [], bit_and, false, get_or, if◌then◌else◌, ltb, min, none, not, set, some,
  suc, true, zero, ℕ, ◌%◌, ◌&&◌, ◌*◌, ◌+◌, ◌-◌, ◌/◌, ◌==◌, ◌^◌, ◌∷◌,
}
use dos.Bits.{isset_bit, enable_bit, disable_bit}

abbrev pub page_size : ℕ
page_size = 4096

-- The static variables: the words of the map, the number of frames, the address of frame 0, and
-- the flag of the lock.
pub record Bitmap : Type 0 where
  pub words : List ℕ
  pub frames : ℕ
  pub start_addr : ℕ
  pub locked : ℕ

abbrev pub null : ℕ
null = 0

abbrev pub spinlock_lock : Bitmap → Bitmap
spinlock_lock b = record b { locked = 1 }

abbrev pub spinlock_unlock : Bitmap → Bitmap
spinlock_unlock b = record b { locked = 0 }

abbrev pub bitmap_len : Bitmap → ℕ
bitmap_len b = b.frames / 32

abbrev pub word_at : List ℕ → ℕ → ℕ
word_at ws i = get_or ws i 0

-- The address of bit `j` of word `i`.
abbrev pub frame_addr : Bitmap → ℕ → ℕ → ℕ
frame_addr b i j = (b.start_addr + (i * 32 + j) * page_size) % 2 ^ 32

-- `memset(bitmap, 0, n)`, a word at a time: the low `n` bytes of what is left are cleared.
pub clear_bytes : List ℕ → ℕ → List ℕ
clear_bytes [] n = []
clear_bytes (w ∷ ws) n = (w / 256 ^ min n 4 * 256 ^ min n 4) ∷ clear_bytes ws (n - 4)

-- Rounds up to the nearest page.
pub round_up : ℕ → ℕ
round_up n = if n % page_size == 0 then n else (n + (page_size - n % page_size)) % 2 ^ 32

-- `bitmap_init`, over the words that lie in memory from the rounded start on. The lock is new.
pub bitmap_init : List ℕ → ℕ → ℕ → Bitmap
bitmap_init memory start_address max_memory =
    let start = round_up start_address in
    let frames = round_up ((max_memory + 2 ^ 32 - start) % 2 ^ 32) / page_size in
    record {
      words = set (clear_bytes memory (frames / 8)) 0 0xFFFFFFFF;
      frames = frames;
      start_addr = start;
      locked = 0;
    }

-- The two nested loops of the allocators: `test i j` is whether the body reaches its `return`.
pub scan_bits : (ℕ → Bool) → ℕ → ℕ → Option ℕ
scan_bits test zero j = none
scan_bits test (suc left) j =
    let rest = scan_bits test left (j + 1) in if test j then some j else rest

pub scan_words : (ℕ → ℕ → Bool) → ℕ → ℕ → Option (ℕ × ℕ)
scan_words test zero i = none
scan_words test (suc left) i =
    let rest = scan_words test left (i + 1) in
    elim (scan_bits (test i) 32 0) [ some j ↦ some (i, j) | none ↦ rest ]

abbrev pub is_free : List ℕ → ℕ → ℕ → Bool
is_free ws i j = not (isset_bit (word_at ws i) j)

-- `bitmap_alloc_page`, with the new state beside the pointer.
unfoldable pub bitmap_alloc_page : Bitmap → ℕ × Bitmap
unfolding scan_words scan_bits
bitmap_alloc_page b0 =
    let b = spinlock_lock b0 in
    elim (scan_words (is_free b.words) (bitmap_len b) 0) [
      | none ↦ (null, spinlock_unlock b)
      | some (i, j) ↦ (
        frame_addr b i j,
        spinlock_unlock (record b { words = set b.words i (enable_bit (word_at b.words i) j) }),
      )
    ]

-- `if (jj == sizeof(uint32_t) * 8) { jj = 0; ii++; }`, on each variable.
abbrev pub next_word : ℕ → ℕ → ℕ
next_word ii jj = if jj == 32 then ii + 1 else ii

abbrev pub next_bit : ℕ → ℕ
next_bit jj = if jj == 32 then 0 else jj

-- The check loop of `bitmap_alloc_contiguous_pages`, with `left` rounds left.
pub run_is_free : List ℕ → ℕ → ℕ → ℕ → ℕ → Bool
run_is_free ws len zero ii jj = true
run_is_free ws len (suc left) ii jj =
    let ii' = next_word ii jj in
    let jj' = next_bit jj in
    let rest = run_is_free ws len left ii' (jj' + 1) in
    if ii' == len then false else if isset_bit (word_at ws ii') jj' then false else rest

-- Its marking loop.
pub mark_run : List ℕ → ℕ → ℕ → ℕ → List ℕ
mark_run ws zero ii jj = ws
mark_run ws (suc left) ii jj =
    let ii' = next_word ii jj in
    let jj' = next_bit jj in
    mark_run (set ws ii' (enable_bit (word_at ws ii') jj')) left ii' (jj' + 1)

unfoldable pub bitmap_alloc_contiguous_pages : Bitmap → ℕ → ℕ × Bitmap
unfolding scan_words scan_bits run_is_free mark_run
bitmap_alloc_contiguous_pages b0 pages =
    let b = spinlock_lock b0 in
    let test = λ (i j : ℕ).
      is_free b.words i j && run_is_free b.words (bitmap_len b) (pages - 1) i (j + 1) in
    elim (scan_words test (bitmap_len b) 0) [
      | none ↦ (null, spinlock_unlock b)
      | some (i, j) ↦
          (frame_addr b i j, spinlock_unlock (record b { words = mark_run b.words pages i j }))
    ]

-- `(addr - start_addr) / BITMAP_PAGE_SIZE` as a `size_t`. The difference of two pointers is a
-- signed word, so the division truncates towards zero.
pub page_index : ℕ → ℕ → ℕ
page_index start addr =
    let d = (addr + 2 ^ 32 - start) % 2 ^ 32 in
    if ltb d (2 ^ 31) then d / page_size else (2 ^ 32 - (2 ^ 32 - d) / page_size) % 2 ^ 32

pub free_loop : ℕ → List ℕ → ℕ → ℕ → List ℕ
free_loop start ws zero addr = ws
free_loop start ws (suc left) addr =
    let p = page_index start addr in
    free_loop start (set ws (p / 32) (disable_bit (word_at ws (p / 32)) (p % 32))) left
      ((addr + page_size) % 2 ^ 32)

unfoldable pub bitmap_free_pages : Bitmap → ℕ → ℕ → Bitmap
unfolding free_loop page_index
bitmap_free_pages b0 addr pages =
    let b = spinlock_lock b0 in
    spinlock_unlock (record b { words = free_loop b.start_addr b.words pages addr })

-- The bits of a word that are set among the `left` from `j` on.
pub count_bits : ℕ → ℕ → ℕ → ℕ
count_bits w zero j = 0
count_bits w (suc left) j = (if isset_bit w j then 1 else 0) + count_bits w left (j + 1)

-- `popcnt64` on a 32-bit machine, over the instruction `popcnt`.
pub popcnt64 : (ℕ → ℕ) → ℕ → ℕ
popcnt64 popcnt32 val = popcnt32 (bit_and val 0xFFFFFFFF) + popcnt32 (val / 2 ^ 32)

-- The loop of `bitmap_allocated_pages`; `has_popcnt` is the test of `cpuinfo`.
pub count_words : (ℕ → ℕ) → Bool → List ℕ → ℕ → ℕ → ℕ
count_words popcnt32 has_popcnt ws zero i = 0
count_words popcnt32 has_popcnt ws (suc left) i =
    (if has_popcnt then popcnt64 popcnt32 (word_at ws i) else count_bits (word_at ws i) 32 0)
    + count_words popcnt32 has_popcnt ws left (i + 1)

pub bitmap_allocated_pages : (ℕ → ℕ) → Bool → Bitmap → ℕ
unfolding count_words popcnt64 count_bits
bitmap_allocated_pages popcnt32 has_popcnt b =
    count_words popcnt32 has_popcnt b.words (bitmap_len b) 0

pub bitmap_total_pages : Bitmap → ℕ
bitmap_total_pages b = b.frames
