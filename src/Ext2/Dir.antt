-- ===== src/Ext2/Dir.antt =====
-- `ext2_readdir` and `ext2_init` of kernel/drivers/fs/ext2.c.
use dos.Prelude.{
  List, Option, [], get_or, if◌then◌else◌, ltb, none, not, some, suc, tabulate, take, zero, ℕ, ◌%◌,
  ◌*◌, ◌+◌, ◌-◌, ◌==◌, ◌^◌, ◌∷◌,
}
use dos.Vfs.{Result, ok, err, eio, enoent, ebadfd, enotdir}
use dos.Fat.{before_nul}
use dos.Ext2.{
  IoDriver, Ext2, Ext2Superblock, Ext2Inode, Ext2Stat, block_size, u16_at, u32_at,
  is_directory_inode, ext2_stat_fill, ext2_read_inode,
}
use dos.Ext2.Read.{ext2_read}

pub record Ext2DirectoryEntry : Type 0 where
  pub inode : ℕ
  pub size : ℕ
  pub name_length : ℕ
  pub name : List ℕ

-- The entry that stands at an address.
pub directory_entry_at : (ℕ → ℕ) → ℕ → Ext2DirectoryEntry
unfolding u16_at u32_at
directory_entry_at buffer a = record {
  inode = u32_at buffer a;
  size = u16_at buffer (a + 4);
  name_length = buffer (a + 6);
  name = tabulate 256 (a + 8) buffer;
}

abbrev pub Listed : Type 0
Listed = List ℕ × Ext2Stat

module _ (driver : IoDriver) (uninitialised : ℕ → ℕ) (before : ℕ) (fs : Ext2) where
  -- What is filled in for the entry that has been found.
  pub stat_entry : Ext2DirectoryEntry → Result Ext2Inode → Result Listed
  unfolding ext2_stat_fill
  stat_entry entry (err e) = err eio
  stat_entry entry (ok inode) =
      let st = ext2_stat_fill driver.device fs inode in
      ok (take entry.name_length (before_nul entry.name), record st { st_ino = entry.inode })

  -- The loop over the entries of a block, from a byte and a number on: it goes on with the next block
  -- or ends with a result. None is that the fuel runs out.
  pub entries_loop : (ℕ → Option (Result Listed)) → ℕ → (ℕ → ℕ) → ℕ → ℕ → ℕ → Option (Result Listed)
  unfolding directory_entry_at stat_entry block_size
  entries_loop go_on zero block_buffer index offset j = none
  entries_loop go_on (suc fuel) block_buffer index offset j =
      let entry = directory_entry_at block_buffer offset in
      let rest = entries_loop go_on fuel block_buffer index (offset + entry.size) (j + 1) in
      if not (ltb offset (block_size fs))
      then go_on j
      else if entry.inode == 0
      then some (err enoent)
      else if j == index
      then some (stat_entry entry (ext2_read_inode driver uninitialised before fs entry.inode))
      else rest

  -- Two blocks that were read are searched; the bytes behind those read are 0. Without any, and after
  -- an error, the directory is at its end.
  pub search_directory :
      (ℕ → Option (Result Listed)) → ℕ → ℕ → ℕ → Result (List ℕ) → Option (Result Listed)
  unfolding entries_loop
  search_directory go_on fuel index j (err e) = some (err enoent)
  search_directory go_on fuel index j (ok []) = some (err enoent)
  search_directory go_on fuel index j (ok (b ∷ bytes)) =
      entries_loop go_on fuel (λ a. get_or (b ∷ bytes) a 0) index 0 j

  -- The loop over the blocks. None is that the fuel runs out.
  pub directory_loop : ℕ → Ext2Stat → ℕ → ℕ → ℕ → Option (Result Listed)
  unfolding search_directory block_size
  directory_loop zero st index i j = none
  directory_loop (suc fuel) st index i j =
      search_directory (directory_loop fuel st index (i + block_size fs)) (suc fuel) index j
        (ext2_read driver uninitialised fs st (2 * block_size fs) i)

  pub ext2_readdir : ℕ → Ext2Stat → ℕ → Option (Result Listed)
  unfolding directory_loop is_directory_inode
  ext2_readdir fuel st index = elim st.st_private [
    | none ↦ some (err ebadfd)
    | some f ↦
        if not (is_directory_inode f.type_permission)
        then some (err enotdir)
        else directory_loop fuel st index 0 0
  ]

-- The superblock in its 1024 bytes.
pub superblock_of : (ℕ → ℕ) → Ext2Superblock
unfolding u16_at u32_at
superblock_of b = record {
  log2_block_size = u32_at b 24;
  inodes_per_group = u32_at b 40;
  ext2_signature = u16_at b 56;
}

-- What the buffer of the driver holds after a call whose result is not looked at.
abbrev pub buffer_or : (ℕ → ℕ) → Option (ℕ → ℕ) → ℕ → ℕ
buffer_or io_buffer none = io_buffer
buffer_or io_buffer (some loaded) = loaded

-- The superblock in two sectors of 512 bytes or in one that is larger.
pub superblock_bytes : IoDriver → ℕ → (ℕ → ℕ) → ℕ → ℕ
superblock_bytes driver start_lba io_buffer a =
    let first = buffer_or io_buffer (driver.read_sector 1 ((start_lba + 2) % 2 ^ 32)) in
    let second = buffer_or first (driver.read_sector 1 ((start_lba + 3) % 2 ^ 32)) in
    if driver.sector_size == 512 then (if ltb a 512 then first a else second (a - 512)) else first a

-- `fs->params` and `fs->rootdir` are set, or left as they are since the signature is another, or the
-- kernel panics.
pub data InitResult : Type 0 where
  mounted : Ext2 → Ext2Stat → InitResult
  unsigned : InitResult
  panicked : InitResult

-- The result of `ext2_read_inode` is not looked at; on failure the inode is what the memory holds.
abbrev pub inode_or : Ext2Inode → Result Ext2Inode → Ext2Inode
inode_or inode (err e) = inode
inode_or inode (ok read) = read

pub ext2_init : IoDriver → (ℕ → ℕ) → ℕ → Ext2Inode → (ℕ → ℕ) → ℕ → InitResult
unfolding superblock_of superblock_bytes block_size ext2_read_inode ext2_stat_fill
ext2_init driver uninitialised before inode io_buffer start_lba =
    let fs : Ext2 = record {
      start_lba = start_lba;
      superblock = superblock_of (superblock_bytes driver start_lba io_buffer);
    } in
    let root = inode_or inode (ext2_read_inode driver uninitialised before fs 2) in
    let st = ext2_stat_fill driver.device fs root in
    if not (fs.superblock.ext2_signature == 0xEF53)
    then unsigned
    else if ltb (block_size fs) driver.sector_size
    then panicked
    else if not (block_size fs % driver.sector_size == 0)
    then panicked
    else mounted fs (record st { st_ino = 2 })
