-- ===== src/Heap/Taken.antt =====
-- A block of kernel/modules/heap.c that is well formed, and one that has given an allocation.
use dos.Prelude.{
  ap, ap₂, arith, inl, refl, sym, ℕ, ℕ_discrete, ◌%◌, ◌*◌, ◌+◌, ◌-◌, ◌/◌, ◌<◌, ◌^◌, ◌∙◌, ◌≡◌, ◌≢◌,
  ◌≤◌,
}
use native.Mathlib.Nat.{mul-le-mul_right, div-mul-le_self, le-mul_of_pos_right, zero-mul}
use dos.Heap.{
  HeapBlock, header_size, sub32, div_up, fill, heap_get_new_id, block_count, blocks_needed,
  take_run,
}
use dos.Heap.Runs.{
  FreeRun, count_used, count_used-fill, count_used-le, fill_outside, heap_get_new_id_lem,
}

-- A block whose bitmap begins with the blocks that hold the bitmap, and whose count is right.
pub record IsValid (hb : HeapBlock) : Type 0 where
  pub block_pos : 0 < hb.block_size
  pub count_pos : 0 < block_count hb
  pub reserved : hb.bitmap 0 ≢ 0
  pub bytes : (i : ℕ) → hb.bitmap i < 256
  pub counted : hb.used ≡ count_used hb.bitmap (block_count hb)
  pub fits : hb.addr + header_size + hb.size < 2 ^ 32

-- A run of free blocks has become an allocation at the address `p`, with an id of its own.
pub record IsTaken (hb : HeapBlock) (size p : ℕ) (hb' : HeapBlock) : Type 0 where
  pub start : ℕ
  pub id : ℕ
  pub free : FreeRun hb.bitmap start (blocks_needed hb size)
  pub some_blocks : 0 < blocks_needed hb size
  pub above : 0 < start
  pub inside : start + blocks_needed hb size ≤ block_count hb
  pub address : p ≡ hb.addr + header_size + start * hb.block_size
  pub taken : hb'.bitmap ≡ fill hb.bitmap start (blocks_needed hb size) id
  pub used : hb'.used ≡ hb.used + blocks_needed hb size
  pub same : record hb' { bitmap = hb.bitmap; used = hb.used; lfb = hb.lfb } ≡ hb
  pub id_used : id ≢ 0
  pub id_byte : id < 256
  pub left : id ≢ hb.bitmap (start - 1)
  pub right : id ≢ hb.bitmap (start + blocks_needed hb size)

pub div_up_pos : (n k : ℕ) → 0 < n → 0 < div_up n k
div_up_pos n k above = elim (ℕ_discrete (n / k) 0) [
  | yes e ↦ let none_whole : n / k * k ≡ 0 = rw e (zero-mul k) in ground (arith, none_whole, above)
  | no some_whole ↦ ground (arith, some_whole)
]

-- An index in the bitmap is an offset in the block.
pub offset-le : (hb : HeapBlock) (x : ℕ) → x ≤ block_count hb → x * hb.block_size ≤ hb.size
offset-le hb x le =
    let scaled = mul-le-mul_right hb.block_size le in
    let whole = div-mul-le_self hb.size hb.block_size in omega (arith, scaled, whole)

pub index-le : (hb : HeapBlock) (x : ℕ) → 0 < hb.block_size → x ≤ block_count hb → x ≤ hb.size
index-le hb x above le =
    let scaled = le-mul_of_pos_right x above in
    let offset = offset-le hb x le in omega (arith, scaled, offset)

pub take_run-IsTaken :
    (hb : HeapBlock) (size x : ℕ)
    → IsValid hb
    → 0 < size
    → FreeRun hb.bitmap x (blocks_needed hb size)
    → x + blocks_needed hb size ≤ block_count hb
    → IsTaken hb size
        (take_run hb (blocks_needed hb size) x).0
        (take_run hb (blocks_needed hb size) x).1
unfolding take_run
take_run-IsTaken hb size x valid above free inside =
    let needed = blocks_needed hb size in
    let some_blocks = div_up_pos size hb.block_size above in
    let not_first : 0 < x = elim (ℕ_discrete x 0) [
      | yes e ↦ absurd (valid.reserved (free 0 (omega (arith, e)) (omega (arith, e, some_blocks))))
      | no other ↦ omega (arith, other)
    ] in
    let index = index-le hb x valid.block_pos (omega (arith, inside)) in
    let offset = offset-le hb x (omega (arith, inside)) in
    let before : sub32 x 1 ≡ x - 1 = omega (arith, index, not_first, valid.fits) in
    let (left, right, some_id, byte) =
      heap_get_new_id_lem (hb.bitmap (sub32 x 1)) (hb.bitmap (x + needed)) (valid.bytes (sub32 x 1))
        (valid.bytes (x + needed)) in
    let more =
      count_used-fill hb.bitmap x needed
        (heap_get_new_id (hb.bitmap (sub32 x 1)) (hb.bitmap (x + needed))) (block_count hb) free
        some_id inside in
    let few =
      count_used-le
        (fill hb.bitmap x needed (heap_get_new_id (hb.bitmap (sub32 x 1)) (hb.bitmap (x + needed))))
        (block_count hb) in
    let all = index-le hb (block_count hb) valid.block_pos (omega arith) in
    let used : (hb.used + needed) % 2 ^ 32 ≡ hb.used + needed =
      omega (arith, more, few, all, valid.counted, valid.fits) in
    record {
      start = x;
      id = heap_get_new_id (hb.bitmap (sub32 x 1)) (hb.bitmap (x + needed));
      free = free;
      some_blocks = some_blocks;
      above = not_first;
      inside = inside;
      address = omega (arith, offset, valid.fits);
      taken = refl;
      used = used;
      same = refl;
      id_used = some_id;
      id_byte = byte;
      left = λ e. left (e ∙ ap hb.bitmap (sym before));
      right = right;
    }

pub fill_byte :
    (bitmap : ℕ → ℕ) (x k v i : ℕ) → bitmap i < 256 → v < 256 → fill bitmap x k v i < 256
fill_byte bitmap x k v i byte value = ground arith

-- What the allocation leaves as it was.
pub IsTaken-block :
    {size p : ℕ} {hb hb' : HeapBlock}
    → IsTaken hb size p hb'
    → (hb'.addr ≡ hb.addr) × (hb'.size ≡ hb.size) × (hb'.block_size ≡ hb.block_size)
IsTaken-block taken = (
  ap (λ (b : HeapBlock). b.addr) taken.same,
  ap (λ (b : HeapBlock). b.size) taken.same,
  ap (λ (b : HeapBlock). b.block_size) taken.same,
)

pub IsTaken-IsValid :
    {size p : ℕ} {hb hb' : HeapBlock} → IsValid hb → IsTaken hb size p hb' → IsValid hb'
IsTaken-IsValid {size} {hb} {hb'} valid taken =
    let (addr, total, unit) = IsTaken-block taken in
    let count : block_count hb' ≡ block_count hb = ap₂ ◌/◌ total unit in
    let more =
      count_used-fill hb.bitmap taken.start (blocks_needed hb size) taken.id (block_count hb)
        taken.free taken.id_used taken.inside in
    let first : hb'.bitmap 0 ≡ hb.bitmap 0 =
      ap (λ f. f 0) taken.taken
      ∙ fill_outside hb.bitmap taken.start (blocks_needed hb size) taken.id 0 (inl taken.above) in
    record {
      block_pos = rw unit valid.block_pos;
      count_pos = rw count valid.count_pos;
      reserved = λ e. valid.reserved (sym first ∙ e);
      bytes = λ i. rw taken.taken (
          fill_byte hb.bitmap taken.start (blocks_needed hb size) taken.id i (valid.bytes i)
            taken.id_byte);
      counted =
          taken.used
          ∙ ap (λ n. n + blocks_needed hb size) valid.counted
          ∙ sym more
          ∙ ap₂ (λ (f : ℕ → ℕ) (n : ℕ). count_used f n) (sym taken.taken) (sym count);
      fits = rw (addr, total) valid.fits;
    }
