-- ===== src/Heap/Tests.antt =====
-- A heap of kernel/modules/heap.c with one block of 1000 bytes at 4096, in pieces of 16 bytes.
use dos.Prelude.{
  List, Option, [], arith, inr, map, none, refl, some, subst, sym, true, ℕ, ◌*◌, ◌+◌, ◌<◌, ◌∷◌, ◌≡◌,
  ◌≤◌, ◌⊎◌,
}
use dos.Heap.{
  HeapBlock, header_size, sub32, block_count, fill, heap_add_block, heap_alloc, heap_free, free_in,
  take_run,
}
use dos.Heap.Taken.{IsValid, IsTaken, take_run-IsTaken}
use dos.Heap.Alloc.{IsServed, AllValid, nil, cons, heap_alloc_lem}
use dos.Heap.Free.{settled}
use dos.Heap.Blocks.{heap_free-heap_alloc}
use dos.Heap.Twice.{free_in-twice}
use dos.Heap.Add.{heap_add_block-AllValid}

abbrev zeros : ℕ → ℕ
zeros i = 0

heap_add_block_example :
    (hb : HeapBlock) × (heap_add_block [] zeros 4096 1000 16 ≡ hb ∷ [])
    × (hb.addr ≡ 4096)
    × (hb.size + header_size ≡ 1000)
    × (hb.block_size ≡ 16)
    × ((i : ℕ) → i < hb.used → hb.bitmap i ≡ 5)
    × ((i : ℕ) → hb.used ≤ i → i < block_count hb → hb.bitmap i ≡ 0)
    × (block_count hb ≤ hb.used * 16)
    × (hb.used * 16 < block_count hb + 16)
    × AllValid (hb ∷ [])
heap_add_block_example =
    heap_add_block-AllValid [] zeros 4096 1000 16 nil (λ i. omega arith) (omega arith) (omega arith)
      (omega arith)

abbrev one_block : List HeapBlock
one_block = heap_add_block [] zeros 4096 1000 16

one_block-AllValid : AllValid one_block
one_block-AllValid =
    let (hb, same, _, _, _, _, _, _, _, valid) =
      heap_add_block-AllValid [] zeros 4096 1000 16 nil (λ i. omega arith) (omega arith)
        (omega arith) (omega arith) in
    subst AllValid (sym same) valid

-- The second of two blocks is used when the first has no room.
abbrev two_blocks : List HeapBlock
two_blocks = heap_add_block one_block zeros 8192 100 16

two_blocks-AllValid : AllValid two_blocks
two_blocks-AllValid =
    let (hb, same, _, _, _, _, _, _, _, valid) =
      heap_add_block-AllValid one_block zeros 8192 100 16 one_block-AllValid (λ i. omega arith)
        (omega arith) (omega arith) (omega arith) in
    subst AllValid (sym same) valid

abbrev address : Option (ℕ × List HeapBlock) → ℕ
address none = 0
address (some (p, this)) = p

abbrev heap : Option (ℕ × List HeapBlock) → List HeapBlock
heap none = []
heap (some (p, this)) = this

first_address : address (heap_alloc one_block 40) ≡ 4096 + 20 + 4 * 16
unfolding heap_alloc heap_add_block
first_address = refl

-- 61 blocks, of which 4 hold the bitmap.
largest_request : address (heap_alloc one_block (57 * 16)) ≡ 4096 + 20 + 4 * 16
unfolding heap_alloc heap_add_block
largest_request = refl

too_large : address (heap_alloc one_block (57 * 16 + 1)) ≡ 0
unfolding heap_alloc heap_add_block
too_large = refl

second_block : address (heap_alloc two_blocks 200) ≡ 4096 + 20 + 4 * 16
unfolding heap_alloc heap_add_block
second_block = refl

heap_alloc_example :
    (p : ℕ) × (this' : List HeapBlock) × (heap_alloc two_blocks 200 ≡ some (p, this'))
    × IsServed 200 two_blocks p this'
    × AllValid this'
heap_alloc_example = heap_alloc_lem two_blocks 200 two_blocks-AllValid (omega arith)

heap_free-heap_alloc_example :
    (p : ℕ) × (this' : List HeapBlock) × (heap_alloc two_blocks 200 ≡ some (p, this'))
    × (((p ≡ 0) × (this' ≡ two_blocks))
        ⊎ (((heap_free this' p).0 ≡ true)
            × (map settled (heap_free this' p).1 ≡ map settled two_blocks)))
unfolding heap_add_block
heap_free-heap_alloc_example =
    heap_free-heap_alloc two_blocks 200 two_blocks-AllValid ((inr (omega arith), tt), (tt, tt))
      (omega arith)

-- What `heap_add_block` makes of 1000 bytes at 4096.
abbrev block : HeapBlock
block = record {
  addr = 4096;
  size = 980;
  used = 4;
  block_size = 16;
  lfb = 3;
  bitmap = fill (fill zeros 0 61 0) 0 4 5;
}

one_block_lem : one_block ≡ block ∷ []
unfolding heap_add_block
one_block_lem = refl

block-IsValid : AllValid (block ∷ []) → IsValid block
block-IsValid (cons valid rest) = valid

block-IsTaken : IsTaken block 40 (take_run block 3 4).0 (take_run block 3 4).1
block-IsTaken =
    take_run-IsTaken block 40 4 (block-IsValid (subst AllValid one_block_lem one_block-AllValid))
      (omega arith) (λ i low high. ground (arith, low, high)) (omega arith)

free_in-twice_example :
    IsValid (free_in (take_run block 3 4).1 (take_run block 3 4).0)
    × ((free_in
          (free_in (take_run block 3 4).1 (take_run block 3 4).0)
          (take_run block 3 4).0).bitmap
        ≡ (free_in (take_run block 3 4).1 (take_run block 3 4).0).bitmap)
    × ((d : ℕ) × (0 < d)
        × (d ≤ block_count block)
        × ((free_in
              (free_in (take_run block 3 4).1 (take_run block 3 4).0)
              (take_run block 3 4).0).used
            ≡ sub32 (free_in (take_run block 3 4).1 (take_run block 3 4).0).used d))
    × ¬ IsValid
        (free_in (free_in (take_run block 3 4).1 (take_run block 3 4).0) (take_run block 3 4).0)
free_in-twice_example =
    free_in-twice block (take_run block 3 4).1 40 (take_run block 3 4).0
      (block-IsValid (subst AllValid one_block_lem one_block-AllValid)) block-IsTaken
