-- ===== src/Ext2/Inode.antt =====
-- Where `ext2_read_inode` of kernel/drivers/fs/ext2.c finds an inode.
use dos.Prelude.{
  ap, ap₂, arith, false, get_or, get_or-tabulate, if◌then◌else◌, map, refl, some, suc, tabulate,
  zero, ℕ, ℕ_discrete, ◌%◌, ◌*◌, ◌+◌, ◌-◌, ◌/◌, ◌<◌, ◌==◌, ◌>>=◌, ◌^◌, ◌∙◌, ◌≡◌, ◌≤◌,
}
use native.Mathlib.Nat.{
  mul-add-div_right, mul-add-mod_self_right, div-eq_of_lt, mod-eq_of_lt, mod-lt, div-add-mod',
  one-le-pow, add-mul, zero-add,
}
use dos.Sectors.{scaled-mod}
use dos.Vfs.{ok}
use dos.Ext2.{
  IoDriver, Ext2, Ext2Inode, block_size, u16_at, u32_at, inode_of, excerpt, ext2_read_block,
  ext2_read_bgd, table_block, inode_from, ext2_read_inode,
}
use dos.Ext2.Block.{
  volume_byte, block_byte, IsBlock, ext2_read_block_lem, little_endian16, little_endian32,
  u16_at-bytes, u32_at-bytes,
}

pub some_block : (fs : Ext2) → 0 < block_size fs
unfolding block_size
some_block fs = omega (arith, one-le-pow fs.superblock.log2_block_size 2 (omega arith))

-- The block behind the one that has the superblock.
descriptor_block : (fs : Ext2) → (if block_size fs == 1024 then 2 else 1) ≡ 1024 / block_size fs + 1
unfolding block_size
descriptor_block fs =
    let power = one-le-pow fs.superblock.log2_block_size 2 (omega arith) in
    let bs = 1024 * 2 ^ fs.superblock.log2_block_size in
    elim (ℕ_discrete (1024 * 2 ^ fs.superblock.log2_block_size) 1024) [
      | yes e ↦ rw e refl
      | no ne ↦
          let other : (bs == 1024) ≡ false = ground (arith, ne) in
          let large : 1024 / bs ≡ 0 = div-eq_of_lt {n = 1024} {m = bs} (omega (arith, power, ne)) in
          rw other (omega (arith, large))
    ]

-- An inode does not reach over the end of its block.
inode_inside : (fs : Ext2) (k : ℕ) → k * 128 % block_size fs + 128 ≤ block_size fs
unfolding block_size
inode_inside fs k =
    let m = 8 * 2 ^ fs.superblock.log2_block_size in
    let some_inodes : 0 < m =
      omega (arith, one-le-pow fs.superblock.log2_block_size 2 (omega arith)) in
    let size : 1024 * 2 ^ fs.superblock.log2_block_size ≡ 128 * m = omega arith in
    let swap : k * 128 ≡ 128 * k = omega arith in
    let place = ap₂ (λ (x y : ℕ). x % y) swap size ∙ scaled-mod 128 k m (omega arith) some_inodes in
    omega (arith, place, size, mod-lt k some_inodes)

-- The fields of an inode in its 128 bytes from `at` on.
pub record IsInodeAt (bytes : ℕ → ℕ) (at : ℕ) (inode : Ext2Inode) : Type 0 where
  pub type_permission : inode.type_permission ≡ little_endian16 bytes (at + 0)
  pub user_id : inode.user_id ≡ little_endian16 bytes (at + 2)
  pub size : inode.size ≡ little_endian32 bytes (at + 4)
  pub last_access_time : inode.last_access_time ≡ little_endian32 bytes (at + 8)
  pub creation_time : inode.creation_time ≡ little_endian32 bytes (at + 12)
  pub last_modification_time : inode.last_modification_time ≡ little_endian32 bytes (at + 16)
  pub group_id : inode.group_id ≡ little_endian16 bytes (at + 24)
  pub hard_links : inode.hard_links ≡ little_endian16 bytes (at + 26)
  pub disk_sectors : inode.disk_sectors ≡ little_endian32 bytes (at + 28)
  pub direct :
      (n : ℕ)
      → n < 12
      → get_or inode.direct_block_pointers n 0 ≡ little_endian32 bytes (at + (40 + 4 * n))
  pub singly : inode.singly_indirect_block_pointer ≡ little_endian32 bytes (at + 88)
  pub doubly : inode.doubly_indirect_block_pointer ≡ little_endian32 bytes (at + 92)
  pub triply : inode.triply_indirect_block_pointer ≡ little_endian32 bytes (at + 96)
  pub size_high : inode.size_high ≡ little_endian32 bytes (at + 108)

get_or-numbers :
    (f : ℕ → ℕ) (m from n : ℕ)
    → n < m
    → get_or (map f (tabulate m from (λ i. i))) n 0 ≡ f (from + n)
get_or-numbers f zero from n lt = absurd (omega (arith, lt))
get_or-numbers f (suc m) from zero lt = ap f (omega arith)
get_or-numbers f (suc m) from (suc n) lt =
    let sum : from + 1 + n ≡ from + suc n = omega arith in
    get_or-numbers f m (from + 1) n (omega (arith, lt)) ∙ ap f sum

module _ (buffer bytes : ℕ → ℕ) (at : ℕ)
    (same : (j : ℕ) → j < 128 → buffer j ≡ bytes (at + j)) where
  shifted : (o j : ℕ) → o + j < 128 → buffer (o + j) ≡ bytes (at + o + j)
  shifted o j lt =
      let sum : at + (o + j) ≡ at + o + j = omega arith in same (o + j) lt ∙ ap bytes sum

  short_field : (o : ℕ) → o + 2 ≤ 128 → u16_at buffer o ≡ little_endian16 bytes (at + o)
  short_field o le =
      u16_at-bytes buffer bytes o (at + o) (λ j lt. shifted o j (omega (arith, le, lt)))

  long_field : (o : ℕ) → o + 4 ≤ 128 → u32_at buffer o ≡ little_endian32 bytes (at + o)
  long_field o le =
      u32_at-bytes buffer bytes o (at + o) (λ j lt. shifted o j (omega (arith, le, lt)))

  inode_of-IsInodeAt : IsInodeAt bytes at (inode_of buffer)
  unfolding inode_of
  inode_of-IsInodeAt = record {
    type_permission = short_field 0 (omega arith);
    user_id = short_field 2 (omega arith);
    size = long_field 4 (omega arith);
    last_access_time = long_field 8 (omega arith);
    creation_time = long_field 12 (omega arith);
    last_modification_time = long_field 16 (omega arith);
    group_id = short_field 24 (omega arith);
    hard_links = short_field 26 (omega arith);
    disk_sectors = long_field 28 (omega arith);
    direct = λ n lt.
        get_or-numbers (λ i. u32_at buffer (40 + 4 * i)) 12 0 n lt
        ∙ ap (λ (t : ℕ). u32_at buffer (40 + 4 * t)) (zero-add n)
        ∙ long_field (40 + 4 * n) (omega (arith, lt));
    singly = long_field 88 (omega arith);
    doubly = long_field 92 (omega arith);
    triply = long_field 96 (omega arith);
    size_high = long_field 108 (omega arith);
  }

-- The bytes of an inode in its block are those of the file system behind the start of the table.
excerpt_inode :
    (driver : IoDriver) (fs : Ext2) (image : ℕ → ℕ → ℕ) (table k : ℕ) (block : ℕ → ℕ)
    → ((a : ℕ)
        → a < block_size fs
        → block a ≡ block_byte driver fs image (table + k * 128 / block_size fs) a)
    → (j : ℕ) → j < 128
    → excerpt 128 block (k * 128 % block_size fs) j
      ≡ volume_byte driver fs image (table * block_size fs + k * 128 + j)
unfolding block_byte
excerpt_inode driver fs image table k block same j lt =
    let bs = block_size fs in
    let q = k * 128 / bs in
    let off = k * 128 % bs in
    let inside = inode_inside fs k in
    let x : (table + q) * bs + (off + j) ≡ table * bs + k * 128 + j =
      omega (arith, add-mul table q bs, div-add-mod' (k * 128) bs) in
    get_or-tabulate 128 off j block 0 lt
    ∙ same (off + j) (omega (arith, inside, lt))
    ∙ ap (volume_byte driver fs image) x

-- The descriptor of a group stands behind those of the groups before it.
descriptor :
    (driver : IoDriver) (uninitialised : ℕ → ℕ) (fs : Ext2) (image : ℕ → ℕ → ℕ) (g : ℕ)
    → IsBlock driver fs image (1024 / block_size fs + 1)
    → g * 32 + 32 ≤ block_size fs
    → ext2_read_bgd driver uninitialised fs g
      ≡ some (
          little_endian32
            (volume_byte driver fs image)
            ((1024 / block_size fs + 1) * block_size fs + g * 32 + 8))
unfolding ext2_read_bgd block_byte
descriptor driver uninitialised fs image g readable inside =
    let bs = block_size fs in
    let d = 1024 / bs + 1 in
    let (block, run, same) = ext2_read_block_lem driver fs image d uninitialised readable in
    let here : (if bs == 1024 then 2 else 1) ≡ d = descriptor_block fs in
    ap
      (λ (t : ℕ). ext2_read_block driver fs t uninitialised >>= λ block_buffer.
        some (u32_at block_buffer (g * 32 + 8)))
      here
    ∙ ap (λ o. o >>= λ block_buffer. some (u32_at block_buffer (g * 32 + 8))) run
    ∙ ap some (
        u32_at-bytes block (volume_byte driver fs image) (g * 32 + 8) (d * bs + g * 32 + 8) λ j lt.
          let at : d * bs + (g * 32 + 8 + j) ≡ d * bs + g * 32 + 8 + j = omega arith in
          same (g * 32 + 8 + j) (omega (arith, lt, inside)) ∙ ap (volume_byte driver fs image) at)

-- `ext2_read_inode` of the inode `k` of the group `g`, both counted from 0, gives the inode whose
-- fields stand in the 128 bytes from `k * 128` on behind the start of the table, the block that the
-- descriptor of the group names at its byte 8. The descriptors, of 32 bytes each, stand in the
-- block behind the one with byte 1024 of the volume. That block, which is to hold the one of the
-- group, and the block of the inode are to be readable and to start within the first `2 ^ 32` bytes
-- of the volume; the number of the inode has 32 bits.
pub ext2_read_inode_lem :
    (driver : IoDriver) (uninitialised : ℕ → ℕ) (before : ℕ) (fs : Ext2) (image : ℕ → ℕ → ℕ)
    (g k table : ℕ)
    → k < fs.superblock.inodes_per_group
    → g * fs.superblock.inodes_per_group + k + 1 < 2 ^ 32
    → IsBlock driver fs image (1024 / block_size fs + 1)
    → g * 32 + 32 ≤ block_size fs
    → little_endian32
        (volume_byte driver fs image)
        ((1024 / block_size fs + 1) * block_size fs + g * 32 + 8)
      ≡ table
    → IsBlock driver fs image (table + k * 128 / block_size fs)
    → (inode : Ext2Inode) × (ext2_read_inode driver uninitialised before fs
          (g * fs.superblock.inodes_per_group + k + 1)
        ≡ ok inode)
      × IsInodeAt (volume_byte driver fs image) (table * block_size fs + k * 128) inode
unfolding ext2_read_inode table_block inode_from
ext2_read_inode_lem driver uninitialised before fs image g k table lt small descriptors inside named
      readable =
    let ipg = fs.superblock.inodes_per_group in
    let found = descriptor driver uninitialised fs image g descriptors inside ∙ ap some named in
    let (block, run, same) =
      ext2_read_block_lem driver fs image (table + k * 128 / block_size fs) uninitialised
        readable in
    let index : (g * ipg + k + 1 + 2 ^ 32 - 1) % 2 ^ 32 ≡ g * ipg + k = omega (arith, small) in
    let group : (g * ipg + k) / ipg ≡ g =
      mul-add-div_right (omega (arith, lt)) g k
      ∙ omega (arith, div-eq_of_lt {n = k} {m = ipg} lt) in
    let place : (g * ipg + k) % ipg ≡ k = mul-add-mod_self_right g ipg k ∙ mod-eq_of_lt lt in
    (
      inode_of (excerpt 128 block (k * 128 % block_size fs)),
      rw (index, group, place, found, run) refl,
      inode_of-IsInodeAt (excerpt 128 block (k * 128 % block_size fs)) (volume_byte driver fs image)
          (table * block_size fs + k * 128) (excerpt_inode driver fs image table k block same),
    )
