-- ===== src/Ext2.antt =====
-- kernel/drivers/fs/ext2.c and ext2.h. A driver is what its function `read_sector` leaves in its buffer at
-- a try, the bytes of a sector from 0 on, or none on failure. `uninitialised` is what a buffer holds
-- before it is written. Memory is always there for `malloc` and `calloc`, and the messages are left
-- out.
pub mod Block
pub mod Inode
pub mod Read
pub mod Dir
pub mod Path
mod Tests
use dos.Prelude.{
  Bool, List, Option, bit_or, get_or, if◌then◌else◌, map, none, some, suc, tabulate, zero, ℕ, ◌%◌,
  ◌*◌, ◌+◌, ◌-◌, ◌/◌, ◌==◌, ◌>>=◌, ◌^◌,
}
use dos.Prelude.Int.{ℤ}
use dos.Bits.{isset_bit_int}
use dos.Sectors.{copy_at, copy_sector}
use dos.Vfs.{Errno, Result, ok, err, eio, enoent, other}

pub record IoDriver : Type 0 where
  pub device : ℕ
  pub sector_size : ℕ
  pub read_sector : ℕ → ℕ → Option (ℕ → ℕ)

-- The fields that are used.
pub record Ext2Superblock : Type 0 where
  pub log2_block_size : ℕ
  pub inodes_per_group : ℕ
  pub ext2_signature : ℕ

pub record Ext2Inode : Type 0 where
  pub type_permission : ℕ
  pub user_id : ℕ
  pub size : ℕ
  pub last_access_time : ℕ
  pub creation_time : ℕ
  pub last_modification_time : ℕ
  pub group_id : ℕ
  pub hard_links : ℕ
  pub disk_sectors : ℕ
  pub direct_block_pointers : List ℕ
  pub singly_indirect_block_pointer : ℕ
  pub doubly_indirect_block_pointer : ℕ
  pub triply_indirect_block_pointer : ℕ
  pub size_high : ℕ

pub record Ext2Stat : Type 0 where
  pub st_dev : ℕ
  pub st_ino : ℕ
  pub st_mode : ℕ
  pub st_nlink : ℕ
  pub st_uid : ℕ
  pub st_gid : ℕ
  pub st_size : ℕ
  pub st_blksize : ℕ
  pub st_blocks : ℕ
  pub st_atime : ℕ
  pub st_ctime : ℕ
  pub st_mtime : ℕ
  pub st_private : Option Ext2Inode

-- A file system and its parameters.
pub record Ext2 : Type 0 where
  pub start_lba : ℕ
  pub superblock : Ext2Superblock

abbrev pub sizeof_inode : ℕ
sizeof_inode = 128

abbrev pub sizeof_descriptor : ℕ
sizeof_descriptor = 32

unfoldable pub block_size : Ext2 → ℕ
block_size fs = 1024 * 2 ^ fs.superblock.log2_block_size

-- Numbers of 16 and 32 bits in a buffer.
unfoldable pub u16_at : (ℕ → ℕ) → ℕ → ℕ
u16_at buffer a = buffer a + 2 ^ 8 * buffer (a + 1)

unfoldable pub u32_at : (ℕ → ℕ) → ℕ → ℕ
unfolding u16_at
u32_at buffer a = u16_at buffer a + 2 ^ 16 * u16_at buffer (a + 2)

-- The fields of an inode in its bytes.
pub inode_of : (ℕ → ℕ) → Ext2Inode
unfolding u16_at u32_at
inode_of b = record {
  type_permission = u16_at b 0;
  user_id = u16_at b 2;
  size = u32_at b 4;
  last_access_time = u32_at b 8;
  creation_time = u32_at b 12;
  last_modification_time = u32_at b 16;
  group_id = u16_at b 24;
  hard_links = u16_at b 26;
  disk_sectors = u32_at b 28;
  direct_block_pointers = map (λ i. u32_at b (40 + 4 * i)) (tabulate 12 0 (λ i. i));
  singly_indirect_block_pointer = u32_at b 88;
  doubly_indirect_block_pointer = u32_at b 92;
  triply_indirect_block_pointer = u32_at b 96;
  size_high = u32_at b 108;
}

-- A copy of so many bytes of a buffer, as a buffer.
abbrev pub excerpt : ℕ → (ℕ → ℕ) → ℕ → ℕ → ℕ
excerpt len buffer start a = get_or (tabulate len start buffer) a 0

pub is_directory_inode : ℕ → Bool
unfolding isset_bit_int
is_directory_inode type_permission = isset_bit_int type_permission 0x4000

-- `size_high` is shifted by 32 bits.
pub ext2_stat_fill : ℕ → Ext2 → Ext2Inode → Ext2Stat
unfolding is_directory_inode block_size
ext2_stat_fill device fs f = record {
  st_dev = device;
  st_ino = 0;
  st_mode = f.type_permission;
  st_nlink = f.hard_links;
  st_uid = f.user_id;
  st_gid = f.group_id;
  st_size =
      bit_or ((if is_directory_inode f.type_permission then 0 else f.size_high) * 2 ^ 32) f.size;
  st_blksize = block_size fs;
  st_blocks = f.disk_sectors;
  st_atime = f.last_access_time;
  st_ctime = f.creation_time;
  st_mtime = f.last_modification_time;
  st_private = some f;
}

abbrev pub or_else : Option (ℕ → ℕ) → Option (ℕ → ℕ) → Option (ℕ → ℕ)
or_else none rest = rest
or_else (some buffer) rest = some buffer

-- The loop over the tries, from one on with so many left.
pub read_tries : (ℕ → Option (ℕ → ℕ)) → ℕ → ℕ → Option (ℕ → ℕ)
read_tries read zero try = none
read_tries read (suc left) try = or_else (read try) (read_tries read left (try + 1))

-- The sector of the bytes from `i` on of a block; `lba * block_size` has 32 bits.
pub sector_of : IoDriver → Ext2 → ℕ → ℕ → ℕ
unfolding block_size
sector_of driver fs lba i =
    (fs.start_lba + lba * block_size fs % 2 ^ 32 / driver.sector_size + i / driver.sector_size)
    % 2 ^ 32

pub read_sectors : ℕ → IoDriver → Ext2 → ℕ → ℕ → (ℕ → ℕ) → Option (ℕ → ℕ)
read_sectors zero driver fs lba i buffer = some buffer
read_sectors (suc left) driver fs lba i buffer =
    read_tries (λ try. driver.read_sector try (sector_of driver fs lba i)) 3 1 >>= λ io_buffer.
    read_sectors left driver fs lba (i + driver.sector_size)
      (copy_at i driver.sector_size io_buffer buffer)

-- The buffer with the block; none is `false`.
pub ext2_read_block : IoDriver → Ext2 → ℕ → (ℕ → ℕ) → Option (ℕ → ℕ)
unfolding block_size
ext2_read_block driver fs lba buffer =
    read_sectors ((block_size fs + driver.sector_size - 1) / driver.sector_size) driver fs lba 0
      buffer

module _ (driver : IoDriver) (uninitialised : ℕ → ℕ) where
  -- The field `inode_table_block` of a descriptor, the one that is used; none is -EIO.
  pub ext2_read_bgd : Ext2 → ℕ → Option ℕ
  unfolding block_size u32_at
  ext2_read_bgd fs index =
      ext2_read_block driver fs (if block_size fs == 1024 then 2 else 1) uninitialised
      >>= λ block_buffer. some (u32_at block_buffer (index * sizeof_descriptor + 8))

  -- The result of `ext2_read_bgd` is not looked at; on failure the field holds what was in the memory.
  pub table_block : ℕ → Option ℕ → ℕ
  table_block before none = before
  table_block before (some block) = block

  -- The inode in its block.
  pub inode_from : ℕ → Option (ℕ → ℕ) → Result Ext2Inode
  inode_from offset none = err eio
  inode_from offset (some block_buffer) = ok (inode_of (excerpt sizeof_inode block_buffer offset))

  -- `index - 1` has 32 bits.
  pub ext2_read_inode : ℕ → Ext2 → ℕ → Result Ext2Inode
  ext2_read_inode before fs index =
      let per_group = fs.superblock.inodes_per_group in
      let block_group = (index + 2 ^ 32 - 1) % 2 ^ 32 / per_group in
      let inode_index = (index + 2 ^ 32 - 1) % 2 ^ 32 % per_group in
      let block =
        table_block before (ext2_read_bgd fs block_group)
        + inode_index * sizeof_inode / block_size fs in
      let offset = inode_index * sizeof_inode % block_size fs in
      inode_from offset (ext2_read_block driver fs block uninitialised)
