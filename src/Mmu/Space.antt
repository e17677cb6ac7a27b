-- ===== src/Mmu/Space.antt =====
-- When a page directory of kernel/cpu/mmu.c is well formed, and where an address stands in it.
use dos.Prelude.{ℕ, ◌/◌, ◌%◌, ◌≡◌, ◌≢◌, true, arith}
use dos.Prelude.Fields.{bit_and_mask}
use dos.Bitmap.Pages.{page_used, page_addr, IsValid}
use dos.Mmu.{Mmu, pd_index, pt_index, page_offset}

pub pt_index_lem : (v : ℕ) → pt_index v ≡ v / 4096 % 1024
unfolding pt_index
pt_index_lem v = bit_and_mask 10 (v / 4096)

pub page_offset_lem : (v : ℕ) → page_offset v ≡ v % 4096
unfolding page_offset
page_offset_lem v = bit_and_mask 12 v

-- The two indices together name the page of an address.
pub same_page : (v w : ℕ) → pd_index v ≡ pd_index w → pt_index v ≡ pt_index w → v / 4096 ≡ w / 4096
unfolding pd_index
same_page v w p q = omega (arith, pt_index_lem v, pt_index_lem w)

pub pd_index-page : (v w : ℕ) → v / 4096 ≡ w / 4096 → pd_index v ≡ pd_index w
unfolding pd_index
pd_index-page v w e = omega arith

pub pt_index-page : (v w : ℕ) → v / 4096 ≡ w / 4096 → pt_index v ≡ pt_index w
pt_index-page v w e = omega (arith, pt_index_lem v, pt_index_lem w)

-- The number of the frame that page `p` of the allocator is.
abbrev pub frame : Mmu → ℕ → ℕ
frame s p = page_addr s.bitmap p / 4096

-- Every page of the allocator that is frame `f` is marked as used.
abbrev pub IsOwned : Mmu → ℕ → Type 0
IsOwned s f = (p : ℕ) → frame s p ≡ f → page_used s.bitmap p ≡ true

abbrev pub IsPresent : Mmu → ℕ → ℕ → Type 0
IsPresent s pdt i = (s.tables pdt i).present ≡ true

-- The entries of directory `pdt` lead to tables that are all different, none of them the
-- directory, and the allocator has all of these frames marked as used.
pub record IsSpace (pdt : ℕ) (s : Mmu) : Type 0 where
  pub map_valid : IsValid s.bitmap
  pub apart : (i : ℕ) → IsPresent s pdt i → (s.tables pdt i).address ≢ pdt
  pub distinct :
      (i j : ℕ)
      → IsPresent s pdt i
      → IsPresent s pdt j
      → (s.tables pdt i).address ≡ (s.tables pdt j).address
      → i ≡ j
  pub owned : (i : ℕ) → IsPresent s pdt i → IsOwned s (s.tables pdt i).address
  pub self_owned : IsOwned s pdt
