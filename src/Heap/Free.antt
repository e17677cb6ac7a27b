-- ===== src/Heap/Free.antt =====
-- `heap_free` of kernel/modules/heap.c: what an allocation leaves behind when it is freed, and what
-- freeing twice does.
use dos.Prelude.{
  ap, ap₂, arith, dec_lt, fun_ext, inl, inr, refl, sym, ℕ, ◌*◌, ◌+◌, ◌-◌, ◌/◌, ◌<◌, ◌∙◌, ◌≡◌, ◌≢◌,
  ◌≤◌,
}
use native.Mathlib.Nat.{mul-div_cancel}
use dos.Heap.{HeapBlock, header_size, sub32, fill, block_count, blocks_needed, free_loop, free_in}
use dos.Heap.Runs.{FreeRun, count_used-le, fill_inside, fill_outside, Stops, free_loop_lem}
use dos.Heap.Taken.{IsValid, IsTaken, IsTaken-IsValid, IsTaken-block, offset-le, index-le}

-- A block but for the place where the next search starts.
abbrev pub settled : HeapBlock → HeapBlock
settled hb = record hb { lfb = 0 }

fill-clear :
    (bitmap : ℕ → ℕ) (x k v i : ℕ)
    → FreeRun bitmap x k
    → fill (fill bitmap x k v) x k 0 i ≡ bitmap i
fill-clear bitmap x k v i free = elim (dec_lt i x) [
  | yes before ↦
      fill_outside (fill bitmap x k v) x k 0 i (inl before)
      ∙ fill_outside bitmap x k v i (inl before)
  | no from ↦ elim (dec_lt i (x + k)) [
    | yes inside ↦
        let low : x ≤ i = omega (arith, from) in
        fill_inside (fill bitmap x k v) x k 0 i low inside ∙ sym (free i low inside)
    | no behind ↦
        let past : x + k ≤ i = omega (arith, behind) in
        fill_outside (fill bitmap x k v) x k 0 i (inr past) ∙ fill_outside bitmap x k v i (inr past)
  ]
]

-- Freeing a run that has just been taken gives the bitmap of before.
free_loop-taken :
    (bitmap : ℕ → ℕ) (x k v count : ℕ)
    → FreeRun bitmap x k
    → v ≢ bitmap (x + k)
    → x + k ≤ count
    → free_loop (count - x) v x (fill bitmap x k v) ≡ (x + k, bitmap)
free_loop-taken bitmap x k v count free right inside =
    let behind = fill_outside bitmap x k v (x + k) (inr (omega arith)) in
    let stops : Stops (count - x) k v x (fill bitmap x k v) = inr (λ e. right (sym e ∙ behind)) in
    free_loop_lem (count - x) k v x (fill bitmap x k v) (omega (arith, inside))
      (λ i low high. fill_inside bitmap x k v i low high) stops
    ∙ ap (λ f. (x + k, f)) (fun_ext λ i. fill-clear bitmap x k v i free)

free_in_lem :
    (hb : HeapBlock) (p bi k : ℕ) (bitmap : ℕ → ℕ)
    → sub32 p (hb.addr + header_size) / hb.block_size ≡ bi
    → free_loop (block_count hb - bi) (hb.bitmap bi) bi hb.bitmap ≡ (bi + k, bitmap)
    → free_in hb p ≡ record hb { bitmap = bitmap; used = sub32 hb.used k }
unfolding free_in
free_in_lem hb p bi k bitmap index loop =
    let length_of : bi + k - bi ≡ k = omega arith in rw (index, loop, length_of) refl

module _ {size p : ℕ} {hb hb' : HeapBlock} (valid : IsValid hb)
    (taken : IsTaken hb size p hb') where
  -- The index that `heap_free` computes from the address.
  pub taken_index : sub32 p (hb.addr + header_size) / hb.block_size ≡ taken.start
  taken_index =
      let offset = offset-le hb taken.start (omega (arith, taken.inside)) in
      let back : sub32 p (hb.addr + header_size) ≡ taken.start * hb.block_size =
        omega (arith, taken.address, offset, valid.fits) in
      ap (λ n. n / hb.block_size) back ∙ mul-div_cancel taken.start valid.block_pos

  pub taken_inside : (hb.addr + header_size ≤ p) × (p < hb.addr + header_size + hb.size)
  taken_inside =
      let next = offset-le hb (taken.start + 1) (omega (arith, taken.inside, taken.some_blocks)) in
      let step : (taken.start + 1) * hb.block_size ≡ taken.start * hb.block_size + hb.block_size =
        grind arith in
      let unit = valid.block_pos in let address = taken.address in (omega arith, omega arith)

  used_back : sub32 hb'.used (blocks_needed hb size) ≡ hb.used
  used_back =
      let after = IsTaken-IsValid valid taken in
      let few = count_used-le hb'.bitmap (block_count hb') in
      let small = index-le hb' (block_count hb') after.block_pos (omega arith) in
      let total = taken.used in let right = after.counted in let fits = after.fits in omega arith

  -- The block after `heap_free` of the allocation.
  pub free_in-taken : settled (free_in hb' p) ≡ settled hb
  free_in-taken =
      let (addr, total, unit) = IsTaken-block taken in
      let count : block_count hb' ≡ block_count hb = ap₂ ◌/◌ total unit in
      let k = blocks_needed hb size in
      let index : sub32 p (hb'.addr + header_size) / hb'.block_size ≡ taken.start =
        rw (addr, unit) taken_index in
      let id : hb'.bitmap taken.start ≡ taken.id =
        ap (λ f. f taken.start) taken.taken
        ∙ fill_inside hb.bitmap taken.start k taken.id taken.start (omega arith)
            (omega (arith, taken.some_blocks)) in
      let loop : free_loop (block_count hb' - taken.start) (hb'.bitmap taken.start) taken.start
            hb'.bitmap
          ≡ (taken.start + k, hb.bitmap) =
        ap (λ n. free_loop (n - taken.start) (hb'.bitmap taken.start) taken.start hb'.bitmap) count
        ∙ ap (λ v. free_loop (block_count hb - taken.start) v taken.start hb'.bitmap) id
        ∙ ap (λ f. free_loop (block_count hb - taken.start) taken.id taken.start f) taken.taken
        ∙ free_loop-taken hb.bitmap taken.start k taken.id (block_count hb) taken.free taken.right
            taken.inside in
      ap settled (free_in_lem hb' p taken.start k hb.bitmap index loop)
      ∙ ap (λ n. record hb' { bitmap = hb.bitmap; used = n; lfb = 0 }) used_back
      ∙ ap settled taken.same
