-- ===== src/Mmu/Unmap.antt =====
-- `mmu_unmap_pages` of kernel/cpu/mmu.c.
use dos.Prelude.{
  ==_false_of_ne, ==_iff, arith, if◌then◌else◌, refl, suc, zero, ℕ, ℕ_discrete, ◌%◌, ◌&&◌, ◌*◌, ◌+◌,
  ◌/◌, ◌==◌, ◌^◌, ◌≡◌, ◌≤◌,
}
use dos.Bitmap.{page_size}
use dos.Mmu.{
  Mmu, empty, pd_index, pt_index, mmu_get_physical_address_pdt, mmu_unmap_pages, unmap_loop,
  unmap_entry, add32,
}
use dos.Mmu.Space.{IsSpace, same_page, pd_index-page, pt_index-page}
use dos.Mmu.Map.{in_pages}

module _ (pdt v : ℕ) (s : Mmu) (space : IsSpace pdt s) where
  abbrev next : Mmu
  next = unmap_entry pdt v s

  -- Directories are not written.
  unmap_entry-directory : (i : ℕ) → next.tables pdt i ≡ s.tables pdt i
  unfolding unmap_entry
  unmap_entry-directory i = ground (arith, space.apart (pd_index v))

  unmap_entry-bitmap : next.bitmap ≡ s.bitmap
  unfolding unmap_entry
  unmap_entry-bitmap = ground arith

  unmap_entry-IsSpace : IsSpace pdt next
  unmap_entry-IsSpace = record {
    map_valid = rw unmap_entry-bitmap space.map_valid;
    apart = λ i. rw (unmap_entry-directory i) (space.apart i);
    distinct = λ i j. rw (unmap_entry-directory i, unmap_entry-directory j) (space.distinct i j);
    owned = λ i. rw (unmap_entry-directory i, unmap_entry-bitmap) (space.owned i);
    self_owned = rw unmap_entry-bitmap space.self_owned;
  }

  -- The one entry that is written.
  unmap_entry-tables :
      (g k : ℕ)
      → next.tables g k ≡ (
          if (s.tables pdt (pd_index v)).present
            && ((g == (s.tables pdt (pd_index v)).address) && (k == pt_index v))
          then empty
          else s.tables g k)
  unfolding unmap_entry
  unmap_entry-tables g k = ground arith

  unmap_entry-translates :
      (w : ℕ)
      → mmu_get_physical_address_pdt w pdt next
        ≡ (if w / 4096 == v / 4096 then 0 else mmu_get_physical_address_pdt w pdt s)
  unfolding mmu_get_physical_address_pdt
  unmap_entry-translates w = elim (ℕ_discrete (w / 4096) (v / 4096)) [
    | yes here ↦
        rw
          (
            (==_iff _ _).1 here,
            pd_index-page w v here,
            pt_index-page w v here,
            unmap_entry-directory (pd_index v),
          )
          (ground (arith, unmap_entry-tables (s.tables pdt (pd_index v)).address (pt_index v)))
    | no away ↦
        rw (==_false_of_ne _ _ away, unmap_entry-directory (pd_index w))
          (ground (
            arith,
            unmap_entry-tables (s.tables pdt (pd_index w)).address (pt_index w),
            space.distinct (pd_index w) (pd_index v),
            same_page w v,
            away,
          ))
  ]

unmap_loop-Unmaps :
    (n pdt v : ℕ) (s : Mmu)
    → IsSpace pdt s
    → v % 4096 ≡ 0
    → v + n * 4096 ≤ 2 ^ 32
    → IsSpace pdt (unmap_loop n pdt v s)
      × ((w : ℕ)
          → mmu_get_physical_address_pdt w pdt (unmap_loop n pdt v s)
            ≡ (if in_pages v n w then 0 else mmu_get_physical_address_pdt w pdt s))
unfolding unmap_loop
unmap_loop-Unmaps zero pdt v s space va vf = (space, λ w. ground arith)
unmap_loop-Unmaps (suc zero) pdt v s space va vf =
    (unmap_entry-IsSpace pdt v s space, λ w. ground (arith, unmap_entry-translates pdt v s space w))
unmap_loop-Unmaps (suc (suc n)) pdt v s space va vf =
    let v1 : add32 v page_size ≡ v + 4096 = omega arith in
    let (space', rest) =
      unmap_loop-Unmaps (suc n) pdt (v + 4096) (unmap_entry pdt v s)
        (unmap_entry-IsSpace pdt v s space) (omega arith) (omega arith) in
    rw v1 (space', λ w. ground (arith, rest w, unmap_entry-translates pdt v s space w))

-- `mmu_unmap_pages` on a well-formed directory and an aligned run inside the address space leaves
-- the directory well formed and the lock free; no address of the run translates any more, and
-- every other address translates to what it did before.
pub mmu_unmap_pages_lem :
    (pdt v n : ℕ) (s : Mmu)
    → IsSpace pdt s
    → v % 4096 ≡ 0
    → v + n * 4096 ≤ 2 ^ 32
    → IsSpace pdt (mmu_unmap_pages pdt v n s)
      × ((mmu_unmap_pages pdt v n s).mmu_lock ≡ 0)
      × ((w : ℕ)
          → mmu_get_physical_address_pdt w pdt (mmu_unmap_pages pdt v n s)
            ≡ (if in_pages v n w then 0 else mmu_get_physical_address_pdt w pdt s))
unfolding mmu_unmap_pages mmu_get_physical_address_pdt
mmu_unmap_pages_lem pdt v n s space va vf =
    let taken = record s { mmu_lock = 1 } in
    let space' : IsSpace pdt taken = record {
      map_valid = space.map_valid;
      apart = space.apart;
      distinct = space.distinct;
      owned = space.owned;
      self_owned = space.self_owned;
    } in
    let (good, gone) = unmap_loop-Unmaps n pdt v taken space' va vf in
    (
      record {
        map_valid = good.map_valid;
        apart = good.apart;
        distinct = good.distinct;
        owned = good.owned;
        self_owned = good.self_owned;
      },
      refl,
      gone,
    )
