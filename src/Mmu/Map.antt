-- ===== src/Mmu/Map.antt =====
-- `mmu_map_pages` of kernel/cpu/mmu.c: what addresses translate to afterwards.
use dos.Prelude.{
  Bool, arith, if◌then◌else◌, leb, ltb, refl, suc, zero, ℕ, ◌%◌, ◌&&◌, ◌*◌, ◌+◌, ◌-◌, ◌/◌, ◌<◌, ◌^◌,
  ◌≡◌, ◌≤◌,
}
use dos.Bitmap.{page_size}
use dos.Mmu.{Mmu, map_entry, add32, mmu_get_physical_address_pdt, mmu_map_pages, map_loop}
use dos.Bitmap.Count.{free_pages}
use dos.Mmu.Space.{IsSpace}
use dos.Mmu.Round.{next-IsSpace, next-spent, next-translates}

-- Address `w` lies in the `n` pages from `v` on.
abbrev pub in_pages : ℕ → ℕ → ℕ → Bool
in_pages v n w = leb v w && ltb w (v + n * 4096)

module _ (pdt : ℕ) (rw_flag user : Bool) where
  -- What the loop leaves: a well-formed directory in which the run is mapped.
  abbrev Maps : ℕ → ℕ → ℕ → Mmu → Mmu → Type 0
  Maps n real v s s' =
      IsSpace pdt s'
      × ((w : ℕ)
          → mmu_get_physical_address_pdt w pdt s'
            ≡ (if in_pages v n w then real + (w - v) else mmu_get_physical_address_pdt w pdt s))

  map_one-Maps :
      (real v : ℕ) (s : Mmu)
      → IsSpace pdt s
      → 0 < free_pages s.bitmap
      → real % 4096 ≡ 0
      → v % 4096 ≡ 0
      → real + 4096 ≤ 2 ^ 32
      → Maps 1 real v s (map_entry pdt (real / 2 ^ 12) v rw_flag user s)
  map_one-Maps real v s space some_free real_aligned v_aligned fits = (
    next-IsSpace pdt (real / 2 ^ 12) v rw_flag user s space some_free,
    λ w. ground (arith, next-translates pdt (real / 2 ^ 12) v rw_flag user s space some_free w),
  )

  map_loop-Maps :
      (n real v : ℕ) (s : Mmu)
      → IsSpace pdt s
      → n ≤ free_pages s.bitmap
      → real % 4096 ≡ 0
      → v % 4096 ≡ 0
      → real + n * 4096 ≤ 2 ^ 32
      → v + n * 4096 ≤ 2 ^ 32
      → Maps n real v s (map_loop n pdt real v rw_flag user s)
  unfolding map_loop
  map_loop-Maps zero real v s space room ra va rf vf = (space, λ w. ground arith)
  map_loop-Maps (suc zero) real v s space room ra va rf vf =
      map_one-Maps real v s space (omega arith) ra va (omega arith)
  map_loop-Maps (suc (suc n)) real v s space room ra va rf vf =
      let s1 = map_entry pdt (real / 2 ^ 12) v rw_flag user s in
      let (space1, first) = map_one-Maps real v s space (omega arith) ra va (omega arith) in
      let real1 : add32 real page_size ≡ real + 4096 = omega arith in
      let v1 : add32 v page_size ≡ v + 4096 = omega arith in
      let spent = next-spent pdt (real / 2 ^ 12) v rw_flag user s space (omega arith) in
      let (space2, rest) =
        map_loop-Maps (suc n) (real + 4096) (v + 4096) s1 space1 (omega (arith, spent))
          (omega arith) (omega arith) (omega arith) (omega arith) in
      rw (real1, v1) (space2, λ w. ground (arith, rest w, first w))

-- `mmu_map_pages` on a well-formed directory, with a free page for each page to be mapped and
-- aligned runs inside the address space, leaves the directory well formed and the lock free; every
-- address of the run then translates to the same place of the physical run, and every other
-- address to what it did before.
pub mmu_map_pages_lem :
    (pdt real v n : ℕ) (rw_flag user : Bool) (s : Mmu)
    → IsSpace pdt s
    → n ≤ free_pages s.bitmap
    → real % 4096 ≡ 0
    → v % 4096 ≡ 0
    → real + n * 4096 ≤ 2 ^ 32
    → v + n * 4096 ≤ 2 ^ 32
    → IsSpace pdt (mmu_map_pages pdt real v n rw_flag user s)
      × ((mmu_map_pages pdt real v n rw_flag user s).mmu_lock ≡ 0)
      × ((w : ℕ)
          → mmu_get_physical_address_pdt w pdt (mmu_map_pages pdt real v n rw_flag user s)
            ≡ (if in_pages v n w then real + (w - v) else mmu_get_physical_address_pdt w pdt s))
unfolding mmu_map_pages mmu_get_physical_address_pdt
mmu_map_pages_lem pdt real v n rw_flag user s space room ra va rf vf =
    let taken = record s { mmu_lock = 1 } in
    let space' : IsSpace pdt taken = record {
      map_valid = space.map_valid;
      apart = space.apart;
      distinct = space.distinct;
      owned = space.owned;
      self_owned = space.self_owned;
    } in
    let (good, moved) = map_loop-Maps pdt rw_flag user n real v taken space' room ra va rf vf in
    (
      record {
        map_valid = good.map_valid;
        apart = good.apart;
        distinct = good.distinct;
        owned = good.owned;
        self_owned = good.self_owned;
      },
      refl,
      moved,
    )
