-- ===== src/Fat/Table.antt =====
-- The table of kernel/drivers/fs/fat.c against the layout of FAT12 and FAT16 on the disk.
use dos.Prelude.{
  ap, ap₂, arith, bit_and, false, if◌then◌else◌, refl, suc, sym, true, zero, ℕ, ℕ_discrete, ◌%◌,
  ◌*◌, ◌+◌, ◌/◌, ◌<◌, ◌==◌, ◌^◌, ◌∙◌, ◌≡◌,
}
use dos.Prelude.Fields.{bit_and_mask}
use native.Mathlib.Nat.{div-add-mod, mul_comm}
use dos.Fat.{
  Fat, FatType, fs_fat12, fs_fat16, word16_at, fat12_next_cluster, fat16_next_cluster, next_in,
  fat_offset, next_cluster,
}

-- Two entries of 12 bits stand in three bytes.
packed12 : (ℕ → ℕ) → ℕ → ℕ → ℕ
packed12 entry k zero = entry (2 * k) % 256
packed12 entry k (suc zero) = entry (2 * k) / 256 + entry (2 * k + 1) % 16 * 16
packed12 entry k (suc (suc r)) = entry (2 * k + 1) / 16

-- The bytes of the table with these entries.
pub packed : FatType → (ℕ → ℕ) → ℕ → ℕ
unfolding packed12
packed fs_fat12 entry a = packed12 entry (a / 3) (a % 3)
packed fs_fat16 entry a = if a % 2 == 0 then entry (a / 2) % 256 else entry (a / 2) / 256

-- How many values an entry has.
abbrev pub entry_values : FatType → ℕ
entry_values fs_fat12 = 2 ^ 12
entry_values fs_fat16 = 2 ^ 16

next_in_shifted :
    (type : FatType) (cluster base off : ℕ) (m : ℕ → ℕ)
    → next_in type cluster (λ a. m (base + a)) off ≡ next_in type cluster m (base + off)
unfolding next_in fat12_next_cluster fat16_next_cluster word16_at
next_in_shifted fs_fat12 cluster base off m =
    let e : base + (off + 1) ≡ base + off + 1 = omega arith in rw e refl
next_in_shifted fs_fat16 cluster base off m =
    let e : base + (off + 1) ≡ base + off + 1 = omega arith in rw e refl

-- The sector and the place in it make up the place in the whole table.
next_cluster-whole :
    (fs : Fat) (cluster : ℕ)
    → next_cluster fs cluster ≡ next_in fs.type cluster fs.bitmap (fat_offset fs.type cluster)
unfolding next_cluster
next_cluster-whole fs cluster =
    let bytes = fs.params.bytes_per_sector in
    let place = fat_offset fs.type cluster in
    next_in_shifted fs.type cluster (place / bytes * bytes) (place % bytes) fs.bitmap
    ∙ ap (next_in fs.type cluster fs.bitmap)
        (omega (arith, div-add-mod place bytes, mul_comm bytes (place / bytes)))

packed12_even :
    (entry : ℕ → ℕ) (k : ℕ)
    → (packed fs_fat12 entry (3 * k) ≡ entry (2 * k) % 256)
      × (packed fs_fat12 entry (3 * k + 1) ≡ entry (2 * k) / 256 + entry (2 * k + 1) % 16 * 16)
      × (packed fs_fat12 entry (3 * k + 2) ≡ entry (2 * k + 1) / 16)
unfolding packed packed12
packed12_even entry k =
    let q0 : 3 * k / 3 ≡ k = omega arith in
    let r0 : 3 * k % 3 ≡ 0 = omega arith in
    let q1 : (3 * k + 1) / 3 ≡ k = omega arith in
    let r1 : (3 * k + 1) % 3 ≡ 1 = omega arith in
    let q2 : (3 * k + 2) / 3 ≡ k = omega arith in
    let r2 : (3 * k + 2) % 3 ≡ 2 = omega arith in
    (ap₂ (packed12 entry) q0 r0, ap₂ (packed12 entry) q1 r1, ap₂ (packed12 entry) q2 r2)

decode12 :
    (entry : ℕ → ℕ) (m : ℕ → ℕ) (k : ℕ)
    → ((a : ℕ) → m a ≡ packed fs_fat12 entry a)
    → entry (2 * k) < 2 ^ 12
    → entry (2 * k + 1) < 2 ^ 12
    → (fat12_next_cluster (2 * k) m (3 * k) ≡ entry (2 * k))
      × (fat12_next_cluster (2 * k + 1) m (3 * k + 1) ≡ entry (2 * k + 1))
unfolding fat12_next_cluster word16_at
decode12 entry m k bytes lt0 lt1 =
    let (b0, b1, b2) = packed12_even entry k in
    let c0 = bytes (3 * k) ∙ b0 in
    let c1 = bytes (3 * k + 1) ∙ b1 in
    let c2 : m (3 * k + 1 + 1) ≡ entry (2 * k + 1) / 16 =
      ap m (omega arith) ∙ bytes (3 * k + 2) ∙ b2 in
    let even : (bit_and (2 * k) 1 == 0) ≡ true = ground (arith, bit_and_mask 1 (2 * k)) in
    let odd : (bit_and (2 * k + 1) 1 == 0) ≡ false = ground (arith, bit_and_mask 1 (2 * k + 1)) in
    (
      rw (even, c0, c1)
          (bit_and_mask 12
              (entry (2 * k) % 256 + 256 * (entry (2 * k) / 256 + entry (2 * k + 1) % 16 * 16))
            ∙ omega arith),
      rw (odd, c1, c2) (omega arith),
    )

decode16 :
    (entry : ℕ → ℕ) (m : ℕ → ℕ) (cluster : ℕ)
    → ((a : ℕ) → m a ≡ packed fs_fat16 entry a)
    → entry cluster < 2 ^ 16
    → fat16_next_cluster cluster m (cluster * 2) ≡ entry cluster
unfolding fat16_next_cluster word16_at packed
decode16 entry m cluster bytes lt =
    let even : (cluster * 2 % 2 == 0) ≡ true = ground arith in
    let odd : ((cluster * 2 + 1) % 2 == 0) ≡ false = ground arith in
    let half0 : cluster * 2 / 2 ≡ cluster = omega arith in
    let half1 : (cluster * 2 + 1) / 2 ≡ cluster = omega arith in
    rw (bytes (cluster * 2), bytes (cluster * 2 + 1), even, odd, half0, half1) (omega arith)

-- If the memory of the table has the entries in the layout of FAT12 or FAT16, each below 2 ^ 12 or
-- 2 ^ 16, the cluster that follows another is that one's entry.
pub next_cluster_lem :
    (fs : Fat) (entry : ℕ → ℕ) (cluster : ℕ)
    → ((a : ℕ) → fs.bitmap a ≡ packed fs.type entry a)
    → ((c : ℕ) → entry c < entry_values fs.type)
    → next_cluster fs cluster ≡ entry cluster
unfolding fat_offset next_in
next_cluster_lem fs entry cluster bytes small =
    next_cluster-whole fs cluster ∙ decode fs.type bytes small
  where
    decode :
        (type : FatType)
        → ((a : ℕ) → fs.bitmap a ≡ packed type entry a)
        → ((c : ℕ) → entry c < entry_values type)
        → next_in type cluster fs.bitmap (fat_offset type cluster) ≡ entry cluster
    decode fs_fat16 b s = decode16 entry fs.bitmap cluster b (s cluster)
    decode fs_fat12 b s =
        let k = cluster / 2 in
        let (even, odd) = decode12 entry fs.bitmap k b (s (2 * k)) (s (2 * k + 1)) in
        elim (ℕ_discrete (cluster % 2) 0) [
          | yes e ↦
              let c : cluster ≡ 2 * k = omega (arith, e) in
              ap₂ (λ (x y : ℕ). fat12_next_cluster x fs.bitmap y) c (omega (arith, e))
              ∙ even
              ∙ ap entry (sym c)
          | no ne ↦
              let c : cluster ≡ 2 * k + 1 = omega (arith, ne) in
              ap₂ (λ (x y : ℕ). fat12_next_cluster x fs.bitmap y) c (omega (arith, ne))
              ∙ odd
              ∙ ap entry (sym c)
        ]
