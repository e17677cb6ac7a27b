-- ===== src/Mmu/Access.antt =====
-- The reads and writes of kernel/cpu/mmu.c through another page directory.
use dos.Prelude.{arith, false, if◌then◌else◌, not, true, ℕ, ◌%◌, ◌*◌, ◌+◌, ◌/◌, ◌==◌, ◌^◌, ◌≡◌}
use dos.Mmu.{mmu_is_mapped, Mmu, pd_index, pt_index, page_offset}

-- The bytes of a word in memory, lowest first.
abbrev store8 : (ℕ → ℕ) → ℕ → ℕ → ℕ → ℕ
store8 ram a v x = if x == a then v % 256 else ram x

abbrev store16 : (ℕ → ℕ) → ℕ → ℕ → ℕ → ℕ
store16 ram a v = store8 (store8 ram a v) (a + 1) (v / 256)

abbrev store32 : (ℕ → ℕ) → ℕ → ℕ → ℕ → ℕ
store32 ram a v = store16 (store16 ram a v) (a + 2) (v / 65536)

abbrev load16 : (ℕ → ℕ) → ℕ → ℕ
load16 ram a = ram a + ram (a + 1) * 256

abbrev load32 : (ℕ → ℕ) → ℕ → ℕ
load32 ram a = load16 ram a + load16 ram (a + 2) * 65536

-- What the six functions share: the two guards, then the access at the physical address.
abbrev guarded {ℓ} : {A : Type ℓ} → ℕ → ℕ → Mmu → A → (ℕ → A) → A
guarded pdt virt_addr s missing access =
    let pd = s.tables pdt (pd_index virt_addr) in
    let p = s.tables pd.address (pt_index virt_addr) in
    if not pd.present
    then missing
    else if not p.present
    then missing
    else access ((p.address * 2 ^ 12 + page_offset virt_addr) % 2 ^ 32)

pub mmu_writeb : ℕ → ℕ → ℕ → Mmu → Mmu
mmu_writeb pdt virt_addr value s =
    guarded pdt virt_addr s s (λ a. record s { ram = store8 s.ram a value })

pub mmu_writew : ℕ → ℕ → ℕ → Mmu → Mmu
mmu_writew pdt virt_addr value s =
    guarded pdt virt_addr s s (λ a. record s { ram = store16 s.ram a value })

pub mmu_writel : ℕ → ℕ → ℕ → Mmu → Mmu
mmu_writel pdt virt_addr value s =
    guarded pdt virt_addr s s (λ a. record s { ram = store32 s.ram a value })

pub mmu_readb : ℕ → ℕ → Mmu → ℕ
mmu_readb pdt virt_addr s = guarded pdt virt_addr s 0 s.ram

pub mmu_readw : ℕ → ℕ → Mmu → ℕ
mmu_readw pdt virt_addr s = guarded pdt virt_addr s 0 (load16 s.ram)

pub mmu_readl : ℕ → ℕ → Mmu → ℕ
mmu_readl pdt virt_addr s = guarded pdt virt_addr s 0 (load32 s.ram)

load16-store16 : (ram : ℕ → ℕ) (a v : ℕ) → load16 (store16 ram a v) a ≡ v % 2 ^ 16
load16-store16 ram a v = ground arith

load32-store32 : (ram : ℕ → ℕ) (a v : ℕ) → load32 (store32 ram a v) a ≡ v % 2 ^ 32
load32-store32 ram a v = ground arith

-- Where an address is mapped, what is written through a directory is read back through it, at
-- each of the three widths.
pub mmu_read-write :
    (pdt v value : ℕ) (s : Mmu)
    → mmu_is_mapped pdt v s ≡ true
    → (mmu_readb pdt v (mmu_writeb pdt v value s) ≡ value % 2 ^ 8)
      × (mmu_readw pdt v (mmu_writew pdt v value s) ≡ value % 2 ^ 16)
      × (mmu_readl pdt v (mmu_writel pdt v value s) ≡ value % 2 ^ 32)
unfolding mmu_readb mmu_readw mmu_readl mmu_writeb mmu_writew mmu_writel mmu_is_mapped
mmu_read-write pdt v value s there =
    let pd = s.tables pdt (pd_index v) in
    let p = s.tables pd.address (pt_index v) in
    let a = (p.address * 2 ^ 12 + page_offset v) % 2 ^ 32 in
    let one : pd.present ≡ true = ground arith in
    let two : p.present ≡ true = ground arith in
    (
      ground (arith, one, two),
      ground (arith, one, two, load16-store16 s.ram a value),
      ground (arith, one, two, load32-store32 s.ram a value),
    )

-- Where an address is not mapped, a write at any width changes nothing and a read gives 0.
pub mmu_access-unmapped :
    (pdt v value : ℕ) (s : Mmu)
    → mmu_is_mapped pdt v s ≡ false
    → (mmu_writeb pdt v value s ≡ s)
      × (mmu_writew pdt v value s ≡ s)
      × (mmu_writel pdt v value s ≡ s)
      × (mmu_readb pdt v s ≡ 0)
      × (mmu_readw pdt v s ≡ 0)
      × (mmu_readl pdt v s ≡ 0)
unfolding mmu_readb mmu_readw mmu_readl mmu_writeb mmu_writew mmu_writel mmu_is_mapped
mmu_access-unmapped pdt v value s gone = ground arith
