-- ===== src/Mmu.antt =====
-- kernel/cpu/mmu.c: the two-level page tables, over the page allocator of kernel/modules/bitmap.c.
-- Physical memory is seen in two ways: `tables` is what a frame holds when it is read as a page
-- directory or a page table, `ram` is the bytes of the other frames. A pointer to a directory is
-- the number of its frame. The kernel reaches a physical address at the same virtual one.
pub mod Space
pub mod Table
pub mod Round
pub mod Map
pub mod Unmap
pub mod Access
pub mod Switch
mod Tests
use dos.Prelude.{
  Bool, List, Option, bit_and, false, if◌then◌else◌, none, not, some, suc, true, zero, ℕ, ◌%◌, ◌&&◌,
  ◌*◌, ◌+◌, ◌/◌, ◌==◌, ◌^◌, ◌∷◌,
}
use dos.Bitmap.{
  Bitmap, bitmap_alloc_page, bitmap_alloc_contiguous_pages, bitmap_free_pages, page_size, null,
}

-- `page_directory` and `page`: the bits that the functions below write, and the frame number. The
-- other bits of an entry are zero from the `memset` of its table on.
pub record Entry : Type 0 where
  pub present : Bool
  pub rw_bit : Bool
  pub user : Bool
  pub address : ℕ

abbrev pub empty : Entry
empty = record { present = false; rw_bit = false; user = false; address = 0 }

-- The static variables, the register cr3, and the pages whose translation was flushed, latest
-- first.
pub record Mmu : Type 0 where
  pub bitmap : Bitmap
  pub tables : ℕ → ℕ → Entry
  pub ram : ℕ → ℕ
  pub current_pdt : ℕ
  pub kernel_pdt : ℕ
  pub old_pdt : ℕ
  pub cr3 : ℕ
  pub kernel_end : ℕ
  pub flushed : List ℕ
  pub mmu_lock : ℕ

abbrev pub put : (ℕ → ℕ → Entry) → ℕ → ℕ → Entry → ℕ → ℕ → Entry
put tables f i e g k = if (g == f) && (k == i) then e else tables g k

-- `memset(pt, 0, sizeof(page_table))`
abbrev pub clear : (ℕ → ℕ → Entry) → ℕ → ℕ → ℕ → Entry
clear tables f g k = if g == f then empty else tables g k

pub pd_index : ℕ → ℕ
pd_index virt_addr = virt_addr / 2 ^ 22

pub pt_index : ℕ → ℕ
pt_index virt_addr = bit_and (virt_addr / 2 ^ 12) 0x3FF

pub page_offset : ℕ → ℕ
page_offset virt_addr = bit_and virt_addr 0xFFF

pub mmu_get_physical_address_pdt : ℕ → ℕ → Mmu → ℕ
mmu_get_physical_address_pdt virt_addr pdt s =
    let pd = s.tables pdt (pd_index virt_addr) in
    let p = s.tables pd.address (pt_index virt_addr) in
    if not pd.present
    then 0
    else if not p.present
    then 0
    else (p.address * 2 ^ 12 + page_offset virt_addr) % 2 ^ 32

pub mmu_get_physical_address : ℕ → Mmu → ℕ
unfolding mmu_get_physical_address_pdt
mmu_get_physical_address virt_addr s = mmu_get_physical_address_pdt virt_addr s.current_pdt s

pub mmu_is_mapped : ℕ → ℕ → Mmu → Bool
mmu_is_mapped pdt virt_addr s =
    let pd = s.tables pdt (pd_index virt_addr) in
    let p = s.tables pd.address (pt_index virt_addr) in
    if not pd.present then false else if not p.present then false else true

pub mmu_new_page_directory : Mmu → ℕ × Mmu
mmu_new_page_directory s =
    let (addr, bitmap) = bitmap_alloc_page s.bitmap in
    let pdt = addr / page_size in (pdt, record s { bitmap = bitmap; tables = clear s.tables pdt })

-- The table that a directory entry leads to: the one that is there, or a new one, cleared.
pub find_table : ℕ → ℕ → Mmu → ℕ × Mmu
find_table pdt virt_addr s =
    let pd = s.tables pdt (pd_index virt_addr) in
    if pd.present
    then (pd.address, s)
    else let (addr, bitmap) = bitmap_alloc_page s.bitmap in
      let pt = addr / page_size in (pt, record s { bitmap = bitmap; tables = clear s.tables pt })

-- `if (pdt == current_pdt) mmu_flush_page(virt_addr);`
abbrev pub flush : ℕ → ℕ → Mmu → Mmu
flush pdt virt_addr s =
    if pdt == s.current_pdt then record s { flushed = virt_addr ∷ s.flushed } else s

-- The body of the loops of `mmu_map_pages` and `mmu_map_large_pages`; `frame` is the number that
-- the page entry takes.
pub map_entry : ℕ → ℕ → ℕ → Bool → Bool → Mmu → Mmu
map_entry pdt frame virt_addr rw_flag user s0 =
    let (pt, s) = find_table pdt virt_addr s0 in
    let pd : Entry = record { present = true; rw_bit = rw_flag; user = user; address = pt } in
    let p : Entry = record { present = true; rw_bit = rw_flag; user = user; address = frame } in
    flush pdt virt_addr (record s {
      tables = put (put s.tables pdt (pd_index virt_addr) pd) pt (pt_index virt_addr) p;
    })

abbrev pub add32 : ℕ → ℕ → ℕ
add32 a b = (a + b) % 2 ^ 32

pub map_loop : ℕ → ℕ → ℕ → ℕ → Bool → Bool → Mmu → Mmu
map_loop zero pdt real_addr virt_addr rw_flag user s = s
map_loop (suc left) pdt real_addr virt_addr rw_flag user s =
    map_loop left pdt (add32 real_addr page_size) (add32 virt_addr page_size) rw_flag user
      (map_entry pdt (real_addr / 2 ^ 12) virt_addr rw_flag user s)

-- `mmu_map_pages`. The flag `executable` is only printed.
pub mmu_map_pages : ℕ → ℕ → ℕ → ℕ → Bool → Bool → Mmu → Mmu
unfolding map_loop map_entry find_table
mmu_map_pages pdt real_addr virt_addr len rw_flag user s =
    let s' = map_loop len pdt real_addr virt_addr rw_flag user (record s { mmu_lock = 1 }) in
    record s' { mmu_lock = 0 }

pub map_large_loop : ℕ → ℕ → ℕ → ℕ → Bool → Bool → Mmu → ℕ × Mmu
map_large_loop zero pdt real_addr virt_addr rw_flag user s = (virt_addr, s)
map_large_loop (suc left) pdt real_addr virt_addr rw_flag user s =
    map_large_loop left pdt (add32 real_addr (page_size * 1024))
      (add32 virt_addr (page_size * 1024)) rw_flag user
      (map_entry pdt (real_addr / 2 ^ 22) virt_addr rw_flag user s)

pub mmu_map_large_pages : ℕ → ℕ → ℕ → ℕ → Bool → Bool → Mmu → ℕ × Mmu
unfolding map_large_loop map_entry find_table
mmu_map_large_pages pdt real_addr virt_addr len rw_flag user s =
    let (after, s') =
      map_large_loop len pdt real_addr virt_addr rw_flag user (record s { mmu_lock = 1 }) in
    (after, record s' { mmu_lock = 0 })

-- The body of the loop of `mmu_unmap_pages`.
pub unmap_entry : ℕ → ℕ → Mmu → Mmu
unmap_entry pdt virt_addr s =
    let pd = s.tables pdt (pd_index virt_addr) in
    if pd.present
    then flush pdt virt_addr
        (record s { tables = put s.tables pd.address (pt_index virt_addr) empty })
    else s

pub unmap_loop : ℕ → ℕ → ℕ → Mmu → Mmu
unmap_loop zero pdt virt_addr s = s
unmap_loop (suc left) pdt virt_addr s =
    unmap_loop left pdt (add32 virt_addr page_size) (unmap_entry pdt virt_addr s)

pub mmu_unmap_pages : ℕ → ℕ → ℕ → Mmu → Mmu
unfolding unmap_loop unmap_entry
mmu_unmap_pages pdt virt_addr len s =
    let s' = unmap_loop len pdt virt_addr (record s { mmu_lock = 1 }) in record s' { mmu_lock = 0 }

-- `mmu_free_pages`, with `left` pages left.
pub free_loop : ℕ → ℕ → ℕ → Mmu → Mmu
unfolding mmu_unmap_pages mmu_is_mapped mmu_get_physical_address_pdt
free_loop zero pdt virt_addr s = s
free_loop (suc left) pdt virt_addr s =
    let real_addr = mmu_get_physical_address_pdt virt_addr pdt s in
    let freed = record s { bitmap = bitmap_free_pages s.bitmap real_addr 1 } in
    free_loop left pdt (add32 virt_addr page_size)
      (if not (mmu_is_mapped pdt virt_addr s) then s else mmu_unmap_pages pdt virt_addr 1 freed)

pub mmu_free_pages : ℕ → ℕ → ℕ → Mmu → Mmu
unfolding free_loop
mmu_free_pages pdt addr pages s = free_loop pages pdt addr s

-- Whether `left` pages from `addr` on are all unmapped.
pub run_is_unmapped : ℕ → ℕ → Mmu → Bool
unfolding mmu_is_mapped
run_is_unmapped zero addr s = true
run_is_unmapped (suc left) addr s =
    let rest = run_is_unmapped left (add32 addr page_size) s in
    if mmu_is_mapped s.current_pdt addr s then false else rest

-- The search of `mmu_alloc_pages`. A page address is always below 0xFFFFFFFF, so the loop ends
-- only when it finds a run, and goes round the address space otherwise: `none` is a search that
-- has not ended within its rounds.
pub find_run : ℕ → ℕ → ℕ → Mmu → Option ℕ
unfolding run_is_unmapped
find_run zero pages addr s = none
find_run (suc fuel) pages addr s =
    let rest = find_run fuel pages (add32 addr page_size) s in
    if run_is_unmapped pages addr s then some addr else rest

-- The part after the search.
pub map_found : ℕ → ℕ → Mmu → ℕ × Mmu
unfolding mmu_map_pages
map_found pages start_addr s =
    let (real_addr, bitmap) = bitmap_alloc_contiguous_pages s.bitmap pages in
    let s' = record s { bitmap = bitmap } in
    if start_addr == null
    then (null, s)
    else if real_addr == null
    then (null, s')
    else (start_addr, mmu_map_pages s.current_pdt real_addr start_addr pages true false s')

-- `mmu_alloc_pages`: after 2 ^ 20 rounds the search has tried every page address.
pub mmu_alloc_pages : ℕ → Mmu → Option (ℕ × Mmu)
unfolding find_run map_found
mmu_alloc_pages pages s = elim (find_run (2 ^ 20) pages s.kernel_end s) [
  | none ↦ none
  | some start_addr ↦ some (map_found pages start_addr s)
]

-- `mmu_copy_kernel_pages`: entries 768 to 1023 of the kernel's directory.
pub copy_loop : ℕ → ℕ → ℕ → Mmu → Mmu
copy_loop zero index pdt s = s
copy_loop (suc left) index pdt s =
    copy_loop left (index + 1) pdt
      (record s { tables = put s.tables pdt index (s.tables s.kernel_pdt index) })

pub mmu_copy_kernel_pages : ℕ → Mmu → Mmu
unfolding copy_loop
mmu_copy_kernel_pages pdt s = copy_loop 256 768 pdt s
