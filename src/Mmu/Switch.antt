-- ===== src/Mmu/Switch.antt =====
-- `mmu_load_pdt`, `mmu_load_kernel_pdt` and `mmu_restore_pdt` of kernel/cpu/mmu.c.
use dos.Prelude.{arith, if◌then◌else◌, ℕ, ◌==◌, ◌≡◌, ◌≢◌}
use dos.Mmu.{Mmu}

-- The variable takes the register's value, and the register the new directory if it differs.
pub mmu_load_pdt : ℕ → Mmu → Mmu
mmu_load_pdt pdt s =
    let s' = record s { current_pdt = s.cr3 } in
    if pdt == s.cr3 then s' else record s' { cr3 = pdt }

pub mmu_load_kernel_pdt : Mmu → Mmu
unfolding mmu_load_pdt
mmu_load_kernel_pdt s =
    let s' = mmu_load_pdt s.kernel_pdt s in
    if s.kernel_pdt == 0
    then s
    else record s' { old_pdt = s'.current_pdt; current_pdt = s'.kernel_pdt }

pub mmu_restore_pdt : Mmu → Mmu
unfolding mmu_load_pdt
mmu_restore_pdt s =
    let s' = mmu_load_pdt s.old_pdt s in
    if s.old_pdt == 0 then s else record s' { current_pdt = s'.old_pdt; old_pdt = 0 }

-- The directory that is loaded is the one in cr3.
pub cr3-load_pdt : (pdt : ℕ) (s : Mmu) → (mmu_load_pdt pdt s).cr3 ≡ pdt
unfolding mmu_load_pdt
cr3-load_pdt pdt s = ground arith

-- While cr3 holds a directory and the kernel's is known, loading the kernel's directory and
-- restoring puts the directory of before back into cr3 and into `current_pdt`, and nothing is left
-- to be restored.
pub restore-load_kernel :
    (s : Mmu)
    → s.cr3 ≢ 0
    → s.kernel_pdt ≢ 0
    → ((mmu_restore_pdt (mmu_load_kernel_pdt s)).cr3 ≡ s.cr3)
      × ((mmu_restore_pdt (mmu_load_kernel_pdt s)).current_pdt ≡ s.cr3)
      × ((mmu_restore_pdt (mmu_load_kernel_pdt s)).old_pdt ≡ 0)
unfolding mmu_restore_pdt mmu_load_kernel_pdt
restore-load_kernel s h k = ground arith
