-- ===== src/Heap/Twice.antt =====
-- Freeing an address twice with `heap_free` of kernel/modules/heap.c.
use dos.Prelude.{
  Bool-cases, ap, ap₂, arith, fun_ext, inl, inr, refl, subst, suc, sym, zero, ℕ, ℕ_discrete, ◌+◌,
  ◌-◌, ◌/◌, ◌<◌, ◌==◌, ◌∙◌, ◌≡◌, ◌≢◌, ◌≤◌,
}
use dos.Heap.{HeapBlock, header_size, sub32, fill, block_count, free_loop, free_in}
use dos.Heap.Runs.{count_used, count_used-le}
use dos.Heap.Taken.{IsValid, IsTaken, index-le}
use dos.Heap.Free.{settled, taken_index, free_in-taken}

fill-free : (bitmap : ℕ → ℕ) (x i : ℕ) → bitmap x ≡ 0 → fill bitmap x 1 0 i ≡ bitmap i
fill-free bitmap x i free = elim (ℕ_discrete i x) [
  | yes here ↦ let there : bitmap i ≡ 0 = ap bitmap here ∙ free in ground (arith, here, there)
  | no other ↦ ground (arith, other)
]

-- The loop on blocks that are free already changes nothing.
free_loop-free :
    (left x : ℕ) (bitmap : ℕ → ℕ)
    → ((free_loop left 0 x bitmap).1 ≡ bitmap)
      × (x ≤ (free_loop left 0 x bitmap).0)
      × ((free_loop left 0 x bitmap).0 ≤ x + left)
unfolding free_loop
free_loop-free zero x bitmap = (refl, omega arith, omega arith)
free_loop-free (suc left) x bitmap = elim (Bool-cases (bitmap x == 0)) [
  | inr taken ↦ rw taken (refl, omega arith, omega arith)
  | inl e ↦
      let free : bitmap x ≡ 0 = ground (arith, e) in
      let same : fill bitmap x 1 0 ≡ bitmap = fun_ext (λ i. fill-free bitmap x i free) in
      let (rest, low, high) = free_loop-free left (x + 1) bitmap in
      rw (free, same) (rest, omega (arith, low), omega (arith, high))
]

-- But it moves on by a block at least.
free_loop-moves :
    (left x : ℕ) (bitmap : ℕ → ℕ) → bitmap x ≡ 0 → 0 < left → x < (free_loop left 0 x bitmap).0
unfolding free_loop
free_loop-moves zero x bitmap free some_left = absurd (omega (arith, some_left))
free_loop-moves (suc left) x bitmap free some_left =
    let (same, low, high) = free_loop-free left (x + 1) (fill bitmap x 1 0) in
    rw free (omega (arith, low))

free_in-free :
    (hb : HeapBlock) (p bi : ℕ)
    → IsValid hb
    → sub32 p (hb.addr + header_size) / hb.block_size ≡ bi
    → bi < block_count hb
    → hb.bitmap bi ≡ 0
    → ((free_in hb p).bitmap ≡ hb.bitmap)
      × ((d : ℕ) × (0 < d) × (d ≤ block_count hb) × ((free_in hb p).used ≡ sub32 hb.used d))
      × ((free_in hb p).used ≢ hb.used)
unfolding free_in
free_in-free hb p bi valid index inside free =
    let (same, low, high) = free_loop-free (block_count hb - bi) bi hb.bitmap in
    let moves = free_loop-moves (block_count hb - bi) bi hb.bitmap free (omega (arith, inside)) in
    let few = count_used-le hb.bitmap (block_count hb) in
    let all = index-le hb (block_count hb) valid.block_pos (omega arith) in
    rw (index, free)
      (
        same,
        (
          (free_loop (block_count hb - bi) 0 bi hb.bitmap).0 - bi,
          omega (arith, moves),
          omega (arith, high, inside),
          refl,
        ),
        λ e. absurd (omega (arith, e, low, high, moves, few, all, valid.counted, valid.fits)),
      )

-- Where the next search starts does not matter to a block.
IsValid-settled : (hb : HeapBlock) → IsValid hb → IsValid (settled hb)
IsValid-settled hb valid = record {
  block_pos = valid.block_pos;
  count_pos = valid.count_pos;
  reserved = valid.reserved;
  bytes = valid.bytes;
  counted = valid.counted;
  fits = valid.fits;
}

settled-IsValid : (hb : HeapBlock) → IsValid (settled hb) → IsValid hb
settled-IsValid hb valid = record {
  block_pos = valid.block_pos;
  count_pos = valid.count_pos;
  reserved = valid.reserved;
  bytes = valid.bytes;
  counted = valid.counted;
  fits = valid.fits;
}

free_in-IsValid :
    (hb : HeapBlock) (p : ℕ)
    → IsValid (free_in hb p)
    → (free_in hb p).used ≡ count_used (free_in hb p).bitmap (block_count hb)
unfolding free_in
free_in-IsValid hb p valid = valid.counted

-- In a well-formed block, an allocation that is freed leaves the block well formed; when the same
-- address is freed again, the bitmap stays, but the count of used blocks goes down by at least one
-- all the same, modulo `2 ^ 32`, and the block is not well formed any more.
pub free_in-twice :
    (hb hb' : HeapBlock) (size p : ℕ)
    → IsValid hb
    → IsTaken hb size p hb'
    → IsValid (free_in hb' p)
      × ((free_in (free_in hb' p) p).bitmap ≡ (free_in hb' p).bitmap)
      × ((d : ℕ) × (0 < d)
          × (d ≤ block_count hb)
          × ((free_in (free_in hb' p) p).used ≡ sub32 (free_in hb' p).used d))
      × ¬ IsValid (free_in (free_in hb' p) p)
free_in-twice hb hb' size p valid taken =
    let same = free_in-taken valid taken in
    let once =
      settled-IsValid (free_in hb' p) (subst IsValid (sym same) (IsValid-settled hb valid)) in
    let addr : (free_in hb' p).addr ≡ hb.addr = ap (λ (b : HeapBlock). b.addr) same in
    let unit : (free_in hb' p).block_size ≡ hb.block_size =
      ap (λ (b : HeapBlock). b.block_size) same in
    let total : (free_in hb' p).size ≡ hb.size = ap (λ (b : HeapBlock). b.size) same in
    let bits : (free_in hb' p).bitmap ≡ hb.bitmap = ap (λ (b : HeapBlock). b.bitmap) same in
    let count : block_count (free_in hb' p) ≡ block_count hb = ap₂ ◌/◌ total unit in
    let (still, (d, some_blocks, few, down), fewer) =
      free_in-free (free_in hb' p) p taken.start once (rw (addr, unit) (taken_index valid taken))
        (rw count (omega (arith, taken.inside, taken.some_blocks)))
        (ap (λ f. f taken.start) bits
          ∙ taken.free taken.start (omega arith) (omega (arith, taken.some_blocks))) in
    (
      once,
      still,
      (d, some_blocks, omega (arith, few, count), down),
      λ twice. fewer (
          free_in-IsValid (free_in hb' p) p twice
          ∙ ap (λ (f : ℕ → ℕ). count_used f (block_count (free_in hb' p))) still
          ∙ sym once.counted),
    )
