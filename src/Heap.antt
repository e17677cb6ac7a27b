-- ===== src/Heap.antt =====
-- kernel/modules/heap.c. The heap is the list of its blocks, latest first. Each block begins with
-- its header of 20 bytes at `addr`; `bitmap i` is the byte `bitmap[i]` behind the header, where an
-- index that has wrapped below 0 is read like any other.
pub mod Runs
pub mod Search
pub mod Taken
pub mod Alloc
pub mod Free
pub mod Twice
pub mod Blocks
pub mod Add
mod Tests
use dos.Prelude.{
  Bool, List, Option, [], false, if◌then◌else◌, leb, ltb, none, some, suc, true, zero, ℕ, ◌%◌, ◌&&◌,
  ◌*◌, ◌+◌, ◌-◌, ◌/◌, ◌==◌, ◌>>=◌, ◌^◌, ◌||◌, ◌∷◌,
}

pub record HeapBlock : Type 0 where
  pub addr : ℕ
  pub size : ℕ
  pub used : ℕ
  pub block_size : ℕ
  pub lfb : ℕ
  pub bitmap : ℕ → ℕ

abbrev pub header_size : ℕ
header_size = 20

-- Unsigned subtraction on 32 bits.
abbrev pub sub32 : ℕ → ℕ → ℕ
sub32 a b = (a + 2 ^ 32 - b % 2 ^ 32) % 2 ^ 32

-- `(n / k) * k < n ? n / k + 1 : n / k`.
abbrev pub div_up : ℕ → ℕ → ℕ
div_up n k = if ltb (n / k * k) n then n / k + 1 else n / k

-- A loop that gives `k` bytes from `x` on the same value.
abbrev pub fill : (ℕ → ℕ) → ℕ → ℕ → ℕ → ℕ → ℕ
fill bitmap x k v i = if leb x i && ltb i (x + k) then v else bitmap i

-- `heap_add_block`. The loops write `bitmap[0]` to `bitmap[block_count - 1]`; what the memory holds
-- before is an argument.
pub heap_add_block : List HeapBlock → (ℕ → ℕ) → ℕ → ℕ → ℕ → List HeapBlock
heap_add_block this memory addr size block_size =
    let size' = sub32 size header_size in
    let block_count = size' / block_size in
    let reserved = div_up block_count block_size in
    record {
      addr = addr;
      size = size';
      used = reserved;
      block_size = block_size;
      lfb = sub32 reserved 1;
      bitmap = fill (fill memory 0 block_count 0) 0 reserved 5;
    }
    ∷ this

-- The loop of `heap_get_new_id` from the value `c` on.
pub next_id : ℕ → ℕ → ℕ → ℕ
next_id zero b c = c
next_id (suc fuel) b c =
    let rest = next_id fuel b ((c + 1) % 256) in if c == b || c == 0 then rest else c

-- At most two values are passed over.
pub heap_get_new_id : ℕ → ℕ → ℕ
unfolding next_id
heap_get_new_id a b = next_id 3 b ((a + 1) % 256)

-- How many of the `left` blocks from `x` on are free, up to the first that is not.
pub count_free : ℕ → (ℕ → ℕ) → ℕ → ℕ → ℕ
count_free zero bitmap block_count x = 0
count_free (suc left) bitmap block_count x =
    let rest = count_free left bitmap block_count (x + 1) in
    if bitmap x == 0 && ltb x block_count then rest + 1 else 0

-- The search of `heap_alloc` in one block from `x` on. The outer none is that the fuel has run out.
pub search_blocks : ℕ → (ℕ → ℕ) → ℕ → ℕ → ℕ → Bool → ℕ → Option (Option ℕ)
unfolding count_free
search_blocks zero bitmap block_count blocks_needed lfb wrapped x = none
search_blocks (suc fuel) bitmap block_count blocks_needed lfb wrapped x =
    let wraps = leb block_count x in
    let x' = if wraps then 0 else x in
    let y = count_free blocks_needed bitmap block_count x' in
    let rest =
      search_blocks fuel bitmap block_count blocks_needed lfb (wrapped || wraps)
        (if bitmap x' == 0 then x' + y else x' + 1) in
    if x == lfb
    then some none
    else if wraps && wrapped
    then some none
    else if bitmap x' == 0 && y == blocks_needed
    then some (some x')
    else rest

abbrev pub block_count : HeapBlock → ℕ
block_count hb = hb.size / hb.block_size

abbrev pub blocks_needed : HeapBlock → ℕ → ℕ
blocks_needed hb size = div_up size hb.block_size

-- `heap_alloc` in one block, where the index of the free run is known.
pub take_run : HeapBlock → ℕ → ℕ → ℕ × HeapBlock
take_run hb needed x =
    let new_id = heap_get_new_id (hb.bitmap (sub32 x 1)) (hb.bitmap (x + needed)) in
    (
      (x * hb.block_size + hb.addr + header_size) % 2 ^ 32,
      record hb {
        bitmap = fill hb.bitmap x needed new_id;
        lfb = sub32 (x + needed) 2;
        used = (hb.used + needed) % 2 ^ 32;
      },
    )

-- Each round moves up or wraps, which it does once.
abbrev pub search_fuel : HeapBlock → ℕ
search_fuel hb = 2 * block_count hb + 3

abbrev pub take_found : HeapBlock → ℕ → Option ℕ → Option (ℕ × HeapBlock)
take_found hb needed none = none
take_found hb needed (some x) = some (take_run hb needed x)

pub alloc_in : HeapBlock → ℕ → Option (Option (ℕ × HeapBlock))
unfolding search_blocks take_run
alloc_in hb size =
    let count = block_count hb in
    let needed = blocks_needed hb size in
    let start = if leb count (hb.lfb + 1) then 0 else hb.lfb + 1 in
    let found = search_blocks (search_fuel hb) hb.bitmap count needed hb.lfb false start in
    if leb size (sub32 hb.size (hb.used * hb.block_size))
    then (found >>= λ r. some (take_found hb needed r))
    else some none

-- The address, 0 for NULL, and the heap.
pub heap_alloc : List HeapBlock → ℕ → Option (ℕ × List HeapBlock)
unfolding alloc_in
heap_alloc [] size = some (0, [])
heap_alloc (hb ∷ this) size =
    let later = heap_alloc this size >>= (λ (r : ℕ × List HeapBlock). some (r.0, hb ∷ r.1)) in
    alloc_in hb size >>= (λ r. elim r [ none ↦ later | some (p, hb') ↦ some (p, hb' ∷ this) ])

-- Whether an address is inside a block.
abbrev pub holds : HeapBlock → ℕ → Bool
holds hb addr = ltb hb.addr addr && ltb addr (hb.addr + header_size + hb.size)

pub heap_allocated_size : List HeapBlock → ℕ → ℕ
heap_allocated_size [] addr = 0
heap_allocated_size (hb ∷ this) addr =
    let base = hb.addr + header_size in
    let x = sub32 addr base / hb.block_size * hb.block_size + base in
    let rest = heap_allocated_size this addr in
    if addr == 0 then 0 else if holds hb addr then sub32 hb.block_size (sub32 addr x) else rest

-- The loop of `heap_free`, with `left` blocks up to the end of the bitmap.
pub free_loop : ℕ → ℕ → ℕ → (ℕ → ℕ) → ℕ × (ℕ → ℕ)
free_loop zero id x bitmap = (x, bitmap)
free_loop (suc left) id x bitmap =
    let rest = free_loop left id (x + 1) (fill bitmap x 1 0) in
    if bitmap x == id then rest else (x, bitmap)

pub free_in : HeapBlock → ℕ → HeapBlock
unfolding free_loop
free_in hb addr =
    let bi = sub32 addr (hb.addr + header_size) / hb.block_size in
    let (x, bitmap) = free_loop (block_count hb - bi) (hb.bitmap bi) bi hb.bitmap in
    record hb { bitmap = bitmap; used = sub32 hb.used (x - bi) }

pub heap_free : List HeapBlock → ℕ → Bool × List HeapBlock
unfolding free_in
heap_free [] addr = (false, [])
heap_free (hb ∷ this) addr =
    let (freed, rest) = heap_free this addr in
    if holds hb addr then (true, free_in hb addr ∷ this) else (freed, hb ∷ rest)
