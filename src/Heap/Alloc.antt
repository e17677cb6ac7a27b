-- ===== src/Heap/Alloc.antt =====
-- `heap_alloc` of kernel/modules/heap.c: what it hands out, and that the blocks stay well formed.
use dos.Prelude.{
  Bool-cases, List, Option, [], arith, false, if◌then◌else◌, inl, inr, leb, none, refl, some, ℕ,
  ◌*◌, ◌+◌, ◌<◌, ◌∷◌, ◌≡◌, ◌≤◌,
}
use dos.Heap.{
  HeapBlock, sub32, block_count, blocks_needed, take_found, search_fuel, alloc_in, heap_alloc,
}
use dos.Heap.Search.{IsRun, search_blocks_lem}
use dos.Heap.Taken.{IsValid, IsTaken, div_up_pos, take_run-IsTaken, IsTaken-IsValid}

-- A result of `alloc_in`.
abbrev pub IsAllocated : HeapBlock → ℕ → Option (ℕ × HeapBlock) → Type 0
IsAllocated hb size none = Unit {0}
IsAllocated hb size (some (p, hb')) = IsTaken hb size p hb'

take_found-IsAllocated :
    (hb : HeapBlock) (size : ℕ) (r : Option ℕ)
    → IsValid hb
    → 0 < size
    → IsRun hb.bitmap (block_count hb) (blocks_needed hb size) r
    → IsAllocated hb size (take_found hb (blocks_needed hb size) r)
take_found-IsAllocated hb size none valid above run = tt
take_found-IsAllocated hb size (some x) valid above (free, inside) =
    take_run-IsTaken hb size x valid above free inside

alloc_in-IsAllocated :
    (hb : HeapBlock) (size : ℕ)
    → IsValid hb
    → 0 < size
    → (r : Option (ℕ × HeapBlock)) × (alloc_in hb size ≡ some r) × IsAllocated hb size r
unfolding alloc_in
alloc_in-IsAllocated hb size valid above =
    let count = block_count hb in
    let start = if leb count (hb.lfb + 1) then 0 else hb.lfb + 1 in
    let low : start ≤ count = ground arith in
    let (r, e, run) =
      search_blocks_lem hb.bitmap count (blocks_needed hb size) hb.lfb valid.count_pos
        (div_up_pos size hb.block_size above) (search_fuel hb) false start low
        (omega (arith, low)) in
    elim (Bool-cases (leb size (sub32 hb.size (hb.used * hb.block_size)))) [
      | inl room ↦ (
        take_found hb (blocks_needed hb size) r,
        rw room (rw e refl),
        take_found-IsAllocated hb size r valid above run,
      )
      | inr full ↦ (none, rw full refl, tt)
    ]

-- Every block is well formed.
pub data AllValid : List HeapBlock → Type 0 where
  nil : AllValid []
  cons :
      {hb : HeapBlock} {this : List HeapBlock} → IsValid hb → AllValid this → AllValid (hb ∷ this)

-- One block of the heap has served the request at `p`, or none has, and `p` is NULL.
pub data IsServed (size : ℕ) : List HeapBlock → ℕ → List HeapBlock → Type 0 where
  nowhere : IsServed size [] 0 []
  here :
      {hb hb' : HeapBlock} {p : ℕ} {this : List HeapBlock}
      → IsTaken hb size p hb'
      → IsServed size (hb ∷ this) p (hb' ∷ this)
  later :
      {hb : HeapBlock} {p : ℕ} {this this' : List HeapBlock}
      → IsServed size this p this'
      → IsServed size (hb ∷ this) p (hb ∷ this')

pub IsServed-AllValid :
    {size p : ℕ} {this this' : List HeapBlock}
    → AllValid this
    → IsServed size this p this'
    → AllValid this'
IsServed-AllValid valid nowhere = valid
IsServed-AllValid (cons hb rest) (here taken) = cons (IsTaken-IsValid hb taken) rest
IsServed-AllValid (cons hb rest) (later served) = cons hb (IsServed-AllValid rest served)

block-IsServed :
    (hb : HeapBlock) (size : ℕ) (this : List HeapBlock) (r : Option (ℕ × HeapBlock))
    → alloc_in hb size ≡ some r
    → IsAllocated hb size r
    → (p : ℕ) × (this' : List HeapBlock) × (heap_alloc this size ≡ some (p, this'))
      × IsServed size this p this'
    → (p : ℕ) × (this' : List HeapBlock) × (heap_alloc (hb ∷ this) size ≡ some (p, this'))
      × IsServed size (hb ∷ this) p this'
unfolding heap_alloc
block-IsServed hb size this none e allocated (p, this', e', served) =
    (p, hb ∷ this', rw e (rw e' refl), later served)
block-IsServed hb size this (some (p, hb')) e taken rest = (p, hb' ∷ this, rw e refl, here taken)

heap_alloc-IsServed :
    (this : List HeapBlock) (size : ℕ)
    → AllValid this
    → 0 < size
    → (p : ℕ) × (this' : List HeapBlock) × (heap_alloc this size ≡ some (p, this'))
      × IsServed size this p this'
unfolding heap_alloc
heap_alloc-IsServed [] size valid above = (0, [], refl, nowhere)
heap_alloc-IsServed (hb ∷ this) size (cons hb_valid rest) above =
    let (r, e, allocated) = alloc_in-IsAllocated hb size hb_valid above in
    block-IsServed hb size this r e allocated (heap_alloc-IsServed this size rest above)

-- `heap_alloc` of at least one byte in a heap of well-formed blocks ends, and leaves the blocks well
-- formed. Either it gives NULL and changes nothing, or it turns one run of free blocks, long enough
-- and inside its block, into an allocation with an id that is not that of its neighbours, gives the
-- address where the run begins, and changes nothing else but the block's counts.
pub heap_alloc_lem :
    (this : List HeapBlock) (size : ℕ)
    → AllValid this
    → 0 < size
    → (p : ℕ) × (this' : List HeapBlock) × (heap_alloc this size ≡ some (p, this'))
      × IsServed size this p this'
      × AllValid this'
heap_alloc_lem this size valid above =
    let (p, this', e, served) = heap_alloc-IsServed this size valid above in
    (p, this', e, served, IsServed-AllValid valid served)
