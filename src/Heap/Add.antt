-- ===== src/Heap/Add.antt =====
-- `heap_add_block` of kernel/modules/heap.c: a new block is well formed.
use dos.Prelude.{
  Bool-cases, List, arith, inl, inr, ltb, refl, suc, sym, zero, ℕ, ◌*◌, ◌+◌, ◌-◌, ◌/◌, ◌<◌, ◌^◌,
  ◌∙◌, ◌∷◌, ◌≡◌, ◌≢◌, ◌≤◌,
}
use native.Mathlib.Nat.{div-add-mod', mod-lt, div-eq-sub-div, div-mul-le_self, le-mul_of_pos_right}
use dos.Heap.{HeapBlock, header_size, sub32, div_up, fill, block_count, heap_add_block}
use dos.Heap.Runs.{
  FreeRun, count_used, count_used-fill, count_used-le, count_used_free, fill_inside, fill_outside,
}
use dos.Heap.Taken.{IsValid, div_up_pos, fill_byte}
use dos.Heap.Alloc.{AllValid, cons}

count_used-empty : (memory : ℕ → ℕ) (n m : ℕ) → m ≤ n → count_used (fill memory 0 n 0) m ≡ 0
count_used-empty memory n zero le = omega (arith, count_used-le (fill memory 0 n 0) 0)
count_used-empty memory n (suc m) le =
    count_used_free (fill memory 0 n 0) m
      (fill_inside memory 0 n 0 m (omega arith) (omega (arith, le)))
    ∙ count_used-empty memory n m (omega (arith, le))

div_up-le : (n k : ℕ) → 0 < k → div_up n k ≤ n
div_up-le n k above =
    let whole = div-mul-le_self n k in
    let more = le-mul_of_pos_right (n / k) above in ground (arith, whole, more)

div_up_bounds : (n k : ℕ) → 0 < k → (n ≤ div_up n k * k) × (div_up n k * k < n + k)
div_up_bounds n k above =
    let split = div-add-mod' n k in
    let small = mod-lt n above in
    let step : (n / k + 1) * k ≡ n / k * k + k = grind arith in
    elim (Bool-cases (ltb (n / k * k) n)) [
      | inl more ↦ rw more (omega (arith, split, small, step), ground (arith, more, step))
      | inr exact ↦ rw exact (ground (arith, exact), omega (arith, split, above))
    ]

div_pos : (n k : ℕ) → 0 < k → k ≤ n → 0 < n / k
div_pos n k above le = let step = div-eq-sub-div above le in omega (arith, step)

-- The block behind its header, of `size` bytes.
new_block : (ℕ → ℕ) → ℕ → ℕ → ℕ → HeapBlock
new_block memory addr size block_size =
    let block_count = size / block_size in
    let reserved = div_up block_count block_size in
    record {
      addr = addr;
      size = size;
      used = reserved;
      block_size = block_size;
      lfb = sub32 reserved 1;
      bitmap = fill (fill memory 0 block_count 0) 0 reserved 5;
    }

new_block-IsValid :
    (memory : ℕ → ℕ) (addr size block_size : ℕ)
    → ((i : ℕ) → memory i < 256)
    → 0 < block_size
    → block_size ≤ size
    → addr + header_size + size < 2 ^ 32
    → IsValid (new_block memory addr size block_size)
unfolding new_block
new_block-IsValid memory addr size block_size bytes above room fits =
    let count = size / block_size in
    let some_blocks = div_pos size block_size above room in
    let reserved = div_up_pos count block_size some_blocks in
    let inside = div_up-le count block_size above in
    let empty = count_used-empty memory count count (omega arith) in
    let free : FreeRun (fill memory 0 count 0) 0 (div_up count block_size) =
      λ i low high. fill_inside memory 0 count 0 i low (omega (arith, high, inside)) in
    let five : 5 ≢ zero = λ e. absurd (omega (arith, e)) in
    record {
      block_pos = above;
      count_pos = some_blocks;
      reserved = λ e. five (
          sym (
            fill_inside (fill memory 0 count 0) 0 (div_up count block_size) 5 0 (omega arith)
              (omega (arith, reserved)))
          ∙ e);
      bytes = λ i.
          fill_byte (fill memory 0 count 0) 0 (div_up count block_size) 5 i
            (fill_byte memory 0 count 0 i (bytes i) (omega arith)) (omega arith);
      counted =
          let filled =
            count_used-fill (fill memory 0 count 0) 0 (div_up count block_size) 5 count free five
              (omega (arith, inside)) in
          omega (arith, filled, empty);
      fits = fits;
    }

-- A block of memory that has room for its header and for at least one block of `block_size` bytes,
-- and that does not reach the end of the address space, is added in front of the blocks of the heap,
-- which stay as they are. It has what is left of the memory behind the header, as many of its blocks
-- as it takes for the bitmap are used and marked with 5, the others are free, and all blocks of the
-- heap are well formed.
pub heap_add_block-AllValid :
    (this : List HeapBlock) (memory : ℕ → ℕ) (addr size block_size : ℕ)
    → AllValid this
    → ((i : ℕ) → memory i < 256)
    → 0 < block_size
    → header_size + block_size ≤ size
    → addr + size < 2 ^ 32
    → (hb : HeapBlock) × (heap_add_block this memory addr size block_size ≡ hb ∷ this)
      × (hb.addr ≡ addr)
      × (hb.size + header_size ≡ size)
      × (hb.block_size ≡ block_size)
      × ((i : ℕ) → i < hb.used → hb.bitmap i ≡ 5)
      × ((i : ℕ) → hb.used ≤ i → i < block_count hb → hb.bitmap i ≡ 0)
      × (block_count hb ≤ hb.used * block_size)
      × (hb.used * block_size < block_count hb + block_size)
      × AllValid (hb ∷ this)
unfolding heap_add_block new_block
heap_add_block-AllValid this memory addr size block_size valid bytes above room fits =
    let size' : sub32 size header_size ≡ size - header_size = omega (arith, room, fits) in
    let left = size - header_size in
    let hb = new_block memory addr left block_size in
    let count = left / block_size in
    let inside = div_up-le count block_size above in
    let (covers, tight) = div_up_bounds count block_size above in
    (
      hb,
      rw size' refl,
      refl,
      omega (arith, room),
      refl,
      λ i low. fill_inside (fill memory 0 count 0) 0 hb.used 5 i (omega arith) (omega (arith, low)),
      λ i high low.
          fill_outside (fill memory 0 count 0) 0 hb.used 5 i (inr (omega (arith, high)))
          ∙ fill_inside memory 0 count 0 i (omega arith) (omega (arith, low)),
      covers,
      tight,
      cons
          (new_block-IsValid memory addr left block_size bytes above (omega (arith, room))
            (omega (arith, room, fits)))
          valid,
    )
