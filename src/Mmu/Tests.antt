-- ===== src/Mmu/Tests.antt =====
-- A small machine: 64 frames from 4096 on, of which frame 1 is an empty page directory.
use dos.Prelude.{
  [], arith, false, if◌then◌else◌, refl, suc, true, zero, ℕ, ◌&&◌, ◌*◌, ◌+◌, ◌-◌, ◌/◌, ◌==◌, ◌∷◌,
  ◌≡◌,
}
use dos.Bits.{isset_bit, enable_bit}
use dos.Bitmap.{bitmap_alloc_page}
use dos.Bitmap.Pages.{page_used, IsWords}
use dos.Bitmap.Count.{used_from}
use dos.Mmu.{
  Mmu, empty, mmu_map_pages, mmu_unmap_pages, mmu_get_physical_address_pdt, pd_index, pt_index,
  page_offset,
}
use dos.Mmu.Space.{IsSpace}
use dos.Mmu.Map.{in_pages, mmu_map_pages_lem}
use dos.Mmu.Unmap.{mmu_unmap_pages_lem}

abbrev machine : Mmu
machine = record {
  bitmap = record { words = 0x17 ∷ 0 ∷ []; frames = 64; start_addr = 4096; locked = 0 };
  tables = λ f i. empty;
  ram = λ a. 0;
  current_pdt = 1;
  kernel_pdt = 2;
  old_pdt = 0;
  cr3 = 1;
  kernel_end = 0xc0200000;
  flushed = [];
  mmu_lock = 0;
}

IsWords-fit : IsWords (0x17 ∷ 0 ∷ [])
IsWords-fit zero = omega arith
IsWords-fit (suc zero) = omega arith
IsWords-fit (suc (suc i)) = omega arith

-- Page 0 of the allocator is frame 1, and is used.
directory_owned : (p : ℕ) → (4096 + p * 4096) / 4096 ≡ 1 → page_used machine.bitmap p ≡ true
directory_owned p e = let zeroth : p ≡ 0 = omega arith in rw zeroth (unfold isset_bit in refl)

machine-IsSpace : IsSpace 1 machine
machine-IsSpace = record {
  map_valid = record {
    stored = omega arith;
    words = IsWords-fit;
    start_pos = omega arith;
    aligned = refl;
    fits = omega arith;
    unlocked = refl;
  };
  apart = λ i there. absurd (cc);
  distinct = λ i j there. absurd (cc);
  owned = λ i there. absurd (cc);
  self_owned = directory_owned;
}

map_pages_example :
    IsSpace 1 (mmu_map_pages 1 0x10000 0x400000 2 true false machine)
    × ((mmu_map_pages 1 0x10000 0x400000 2 true false machine).mmu_lock ≡ 0)
    × ((w : ℕ)
        → mmu_get_physical_address_pdt w 1 (mmu_map_pages 1 0x10000 0x400000 2 true false machine)
          ≡ (if in_pages 0x400000 2 w
              then 0x10000 + (w - 0x400000)
              else mmu_get_physical_address_pdt w 1 machine))
unfolding used_from isset_bit
map_pages_example =
    mmu_map_pages_lem 1 0x10000 0x400000 2 true false machine machine-IsSpace (omega arith) refl
      refl (omega arith) (omega arith)

unmap_pages_example :
    IsSpace 1 (mmu_unmap_pages 1 0x400000 3 machine)
    × ((mmu_unmap_pages 1 0x400000 3 machine).mmu_lock ≡ 0)
    × ((w : ℕ)
        → mmu_get_physical_address_pdt w 1 (mmu_unmap_pages 1 0x400000 3 machine)
          ≡ (if in_pages 0x400000 3 w then 0 else mmu_get_physical_address_pdt w 1 machine))
unmap_pages_example = mmu_unmap_pages_lem 1 0x400000 3 machine machine-IsSpace refl (omega arith)

-- The two pages are mapped one after the other, through a new table in frame 4.
maps_runs :
    mmu_get_physical_address_pdt 0x401234 1 (mmu_map_pages 1 0x10000 0x400000 2 true false machine)
    ≡ 0x11234
unfolding mmu_map_pages mmu_get_physical_address_pdt bitmap_alloc_page isset_bit enable_bit pd_index
    pt_index page_offset
maps_runs = refl

-- Tables that map page 0x400 to frame 7 through frame 5.
abbrev with_page : Mmu
with_page = record machine {
  tables = λ f i.
      if (f == 1) && (i == 1)
      then record { present = true; rw_bit = true; user = false; address = 5 }
      else if (f == 5) && (i == 0)
      then record { present = true; rw_bit = true; user = false; address = 7 }
      else empty;
}
