-- ===== src/Ext2/Tests.antt =====
-- The ext2 model on a small disk: sectors and blocks of 1024 bytes, the descriptor of a table of
-- inodes at block 4 in block 2, pointers to block 5 in block 9. The driver fails at every first try.
use dos.Prelude.{
  arith, dec_lt, false, get_or, if◌then◌else◌, inl, inr, ltb, none, refl, replicate, some, subst,
  suc, sym, tabulate, true, zero, ℕ, ℕ_discrete, ◌%◌, ◌*◌, ◌+◌, ◌<◌, ◌==◌, ◌^◌, ◌≡◌,
}
use dos.Vfs.{ok}
use dos.Ext2.{IoDriver, Ext2, Ext2Inode, Ext2Stat, block_size, ext2_read_inode}
use dos.Ext2.Block.{IsRead as IsSectorRead, IsBlock, volume_byte, block_byte, read_tries_lem}
use dos.Ext2.Inode.{IsInodeAt, ext2_read_inode_lem}
use dos.Ext2.Read.{ext2_read}
use dos.Ext2.Read.Pointers.{IsData}
use dos.Ext2.Read.Whole.{IsRead, file_byte, ext2_read_direct}
use dos.Ext2.Read.Indirect.{stored_pointer, ext2_read_indirect}

abbrev small : Ext2
small = record {
  start_lba = 0;
  superblock = record { log2_block_size = 0; inodes_per_group = 8; ext2_signature = 0xEF53 };
}

abbrev image : ℕ → ℕ → ℕ
image s a =
    if s == 9
    then (if a % 4 == 0 then 5 else 0)
    else if s == 2
    then (if a == 8 then 4 else 0)
    else s % 256

abbrev disk : IoDriver
disk = record {
  device = 0;
  sector_size = 1024;
  read_sector = λ try s. if try == 1 then none else some (image s);
}

abbrev zeros : ℕ → ℕ
zeros a = 0

-- Every block below 1000 can be read.
any_block : (lba : ℕ) → lba < 1000 → IsBlock disk small image lba
unfolding block_size IsSectorRead
any_block lba low = record {
  some_bytes = omega arith;
  count = 1;
  whole = refl;
  small = omega (arith, low);
  on_disk = omega (arith, low);
  sectors = λ s lt.
      let sector = 0 + lba * 1 + s in
      read_tries_lem (λ try. disk.read_sector try sector) (image sector) (inr (inl (refl, refl)));
}

read_inode_example :
    (inode : Ext2Inode) × (ext2_read_inode disk zeros 0 small 2 ≡ ok inode)
    × IsInodeAt (volume_byte disk small image) (4 * block_size small + 1 * 128) inode
unfolding block_size volume_byte
read_inode_example =
    ext2_read_inode_lem disk zeros 0 small image 0 1 4 (omega arith) (omega arith)
      (any_block 2 (omega arith)) (omega arith) refl (any_block 4 (omega arith))

-- A file of 14 blocks, all of which are block 5.
abbrev file : Ext2Inode
file = record {
  type_permission = 0x8000;
  user_id = 0;
  size = 14000;
  last_access_time = 0;
  creation_time = 0;
  last_modification_time = 0;
  group_id = 0;
  hard_links = 1;
  disk_sectors = 28;
  direct_block_pointers = replicate 12 5;
  singly_indirect_block_pointer = 9;
  doubly_indirect_block_pointer = 0;
  triply_indirect_block_pointer = 0;
  size_high = 0;
}

abbrev file_st : Ext2Stat
file_st = record {
  st_dev = 0;
  st_ino = 12;
  st_mode = 0x8000;
  st_nlink = 1;
  st_uid = 0;
  st_gid = 0;
  st_size = 14000;
  st_blksize = 1024;
  st_blocks = 28;
  st_atime = 0;
  st_ctime = 0;
  st_mtime = 0;
  st_private = some file;
}

file-IsRead :
    (count offset : ℕ)
    → offset < 14000
    → offset + count < 2 ^ 32
    → offset % 1024 ≡ 0
    → IsRead small file_st file count offset
unfolding block_size
file-IsRead count offset inside plain aligned = record {
  file = refl;
  inside = inside;
  plain = plain;
  aligned = aligned;
}

five : IsData disk small image 5
five = record { used = λ e. omega (arith, e); block = any_block 5 (omega arith) }

direct_pointer : (n : ℕ) → n < 12 → ◌≡◌ {A = ℕ} 5 (get_or file.direct_block_pointers n 0)
direct_pointer n lt = sym (get_or-replicate_in 12 n lt)
  where
    get_or-replicate_in : (m i : ℕ) → i < m → ◌≡◌ {A = ℕ} (get_or (replicate m 5) i 0) 5
    get_or-replicate_in zero i lt2 = absurd (omega arith)
    get_or-replicate_in (suc m) zero lt2 = refl
    get_or-replicate_in (suc m) (suc i) lt2 = get_or-replicate_in m i (omega arith)

direct-IsData : (n : ℕ) → n < 12 → IsData disk small image (get_or file.direct_block_pointers n 0)
direct-IsData n lt = subst (IsData disk small image) (direct_pointer n lt) five

read_direct_example :
    ext2_read disk zeros small file_st 100 1024
    ≡ ok (
        tabulate 100 1024 (file_byte disk small image (λ n. get_or file.direct_block_pointers n 0)))
unfolding block_size
read_direct_example =
    ext2_read_direct disk zeros small image file_st file 100 1024
      (file-IsRead 100 1024 (omega arith) (omega arith) refl) (omega arith)
      (λ n lt. direct-IsData n (omega (arith, lt)))

-- The pointers in block 9.
five_stored : (n : ℕ) → ¬ (n < 12) → n < 14 → stored_pointer disk small image file n ≡ 5
unfolding block_byte volume_byte block_size
five_stored n behind lt =
    let t : ltb n 12 ≡ false = ground (arith, behind) in
    elim (ℕ_discrete n 12) [
      | yes e ↦ rw e refl
      | no ne ↦ let e : n ≡ 13 = omega (arith, lt, behind, ne) in rw e refl
    ]

file-IsData : (n : ℕ) → n < 14 → IsData disk small image (stored_pointer disk small image file n)
file-IsData n lt = elim (dec_lt n 12) [
  | yes direct ↦ let t : ltb n 12 ≡ true = ground arith in rw t (direct-IsData n direct)
  | no indirect ↦ subst (IsData disk small image) (sym (five_stored n indirect lt)) five
]

nine : IsData disk small image 9
nine = record { used = λ e. omega (arith, e); block = any_block 9 (omega arith) }

read_indirect_example :
    ext2_read disk zeros small file_st 20000 0
    ≡ ok (tabulate 14000 0 (file_byte disk small image (stored_pointer disk small image file)))
unfolding block_size
read_indirect_example =
    ext2_read_indirect disk zeros small image file_st file 20000 14000
      (file-IsRead 20000 0 (omega arith) (omega arith) refl) refl (omega arith) (omega arith) nine
      (λ n lt. file-IsData n (omega (arith, lt)))
