-- ===== src/Fat.antt =====
-- kernel/drivers/fs/fat.c and fat.h: FAT12 and FAT16. A driver is what its function `read_sector`
-- leaves in its buffer: the bytes of a sector from 0 on and whatever lies behind them, or none on
-- failure. Memory is always there for `malloc` and `calloc`, and the messages are left out.
pub mod Table
pub mod Chain
pub mod Read
pub mod Size
pub mod Dir
pub mod Init
pub mod Path
mod Tests
use dos.Prelude.{
  Bool, List, Option, [], arith, bit_and, bit_or, false, if◌then◌else◌, leb, ltb, none, not, some,
  suc, take, true, zero, ℕ, ◌%◌, ◌&&◌, ◌*◌, ◌++◌, ◌+◌, ◌-◌, ◌/◌, ◌<◌, ◌==◌, ◌>>=◌, ◌^◌, ◌∷◌,
}
use dos.Prelude.Int.{ℤ}
use dos.Bits.{isset_bit_int}
use dos.Sectors.{copy_sector, prepend}
use dos.Vfs.{Errno, Result, ok, err, eio, enoent, ebadfd}

pub data FatType : Type 0 where
  fs_fat12 : FatType
  fs_fat16 : FatType

-- The parameters that the code uses.
pub record BiosParams : Type 0 where
  pub bytes_per_sector : ℕ
  pub sectors_per_cluster : ℕ
  pub reserved_sectors : ℕ
  pub number_of_fat : ℕ
  pub rootdir_entries : ℕ
  pub sectors_per_fat : ℕ

pub record FatAttributes : Type 0 where
  pub read_only : Bool
  pub volume : Bool
  pub directory : Bool
  pub archive : Bool
  pub device : Bool

pub record FatEntry : Type 0 where
  pub name : List ℕ
  pub ext : List ℕ
  pub attributes : FatAttributes
  pub cluster : ℕ
  pub size : ℕ

-- The size of an entry of a directory.
abbrev pub sizeof_entry : ℕ
sizeof_entry = 32

pub record FatStat : Type 0 where
  pub st_dev : ℕ
  pub st_ino : ℕ
  pub st_mode : ℕ
  pub st_size : ℕ
  pub st_blocks : ℕ
  pub st_blksize : ℕ
  pub st_private : Option FatEntry

-- A file system whose table is in the memory, as the function from an address to its byte.
pub record Fat : Type 0 where
  pub type : FatType
  pub start_lba : ℕ
  pub params : BiosParams
  pub bitmap : ℕ → ℕ
  pub rootdir : FatStat

-- A number of two bytes.
pub word16_at : (ℕ → ℕ) → ℕ → ℕ
word16_at buffer a = buffer a + 256 * buffer (a + 1)

pub fat12_next_cluster : ℕ → (ℕ → ℕ) → ℕ → ℕ
unfolding word16_at
fat12_next_cluster cluster buffer ent_offset =
    let table_value = word16_at buffer ent_offset in
    if bit_and cluster 1 == 0 then bit_and table_value 0x0FFF else table_value / 2 ^ 4

pub fat16_next_cluster : ℕ → (ℕ → ℕ) → ℕ → ℕ
unfolding word16_at
fat16_next_cluster cluster buffer ent_offset = word16_at buffer ent_offset

-- The first value that is no cluster.
unfoldable pub invalid : FatType → ℕ
invalid fs_fat12 = 0xFF8
invalid fs_fat16 = 0xFFF8

-- The place of a cluster's entry in the table.
pub fat_offset : FatType → ℕ → ℕ
fat_offset fs_fat12 cluster = cluster + cluster / 2
fat_offset fs_fat16 cluster = cluster * 2

-- The cluster behind another, read from the sector of the table that has its entry.
pub next_in : FatType → ℕ → (ℕ → ℕ) → ℕ → ℕ
unfolding fat12_next_cluster fat16_next_cluster
next_in fs_fat12 cluster buffer ent_offset = fat12_next_cluster cluster buffer ent_offset
next_in fs_fat16 cluster buffer ent_offset = fat16_next_cluster cluster buffer ent_offset

pub next_cluster : Fat → ℕ → ℕ
unfolding next_in fat_offset
next_cluster fs cluster =
    let bytes = fs.params.bytes_per_sector in
    let place = fat_offset fs.type cluster in
    next_in fs.type cluster (λ a. fs.bitmap (place / bytes * bytes + a)) (place % bytes)

-- The loop of `fat_calculate_actual_size`. None is that the fuel runs out.
pub count_clusters : ℕ → Fat → ℕ → ℕ → Option ℕ
unfolding next_cluster invalid
count_clusters zero fs cluster size = none
count_clusters (suc fuel) fs cluster size =
    let rest =
      count_clusters fuel fs (next_cluster fs cluster)
        ((size + fs.params.bytes_per_sector) % 2 ^ 32) in
    if ltb cluster (invalid fs.type) then rest else some size

unfoldable pub fat_calculate_actual_size : ℕ → Fat → FatEntry → Option ℕ
unfolding count_clusters
fat_calculate_actual_size fuel fs f =
    let counted = count_clusters fuel fs f.cluster 0 in
    if f.cluster == 0 then some (fs.params.rootdir_entries * sizeof_entry % 2 ^ 32) else counted

-- The mode by the attributes: `S_IRUSR | S_IRGRP | S_IROTH` or with the bits for writing, the bits
-- for executing, `S_IFDIR`, `S_IFBLK` and `S_IFREG`.
pub fat_mode : FatAttributes → ℕ
fat_mode a =
    let permissions = bit_or (if a.read_only then 0x124 else 0x1B4) 0x49 in
    let directory = if a.directory then bit_or permissions 0x4000 else permissions in
    let device = if a.device then bit_or directory 0x6000 else directory in
    if a.archive then bit_or device 0x8000 else device

-- The fields that are set to 0 or 1 for every file are left out.
unfoldable pub fat_stat_fill : ℕ → Fat → FatEntry → FatStat
unfolding fat_mode
fat_stat_fill device fs f = record {
  st_dev = device;
  st_ino = 0;
  st_mode = fat_mode f.attributes;
  st_size = f.size;
  st_blocks = f.size / 512 + (if f.size % 512 == 0 then 0 else 1);
  st_blksize = fs.params.bytes_per_sector;
  st_private = some f;
}

-- `name` and `ext` as a string: the name before its first NUL or blank, and a point and the bytes of
-- `ext` before a NUL, unless `ext` is blank.
pub before_blank : List ℕ → List ℕ
before_blank [] = []
before_blank (c ∷ cs) =
    let rest = before_blank cs in if c == 0 then [] else if c == 32 then [] else c ∷ rest

pub before_nul : List ℕ → List ℕ
before_nul [] = []
before_nul (c ∷ cs) = let rest = before_nul cs in if c == 0 then [] else c ∷ rest

pub is_blank : List ℕ → Bool
is_blank [] = true
is_blank (c ∷ cs) = let rest = is_blank cs in if c == 32 then rest else false

unfoldable pub dos83to_str : List ℕ → List ℕ → List ℕ
unfolding before_blank before_nul is_blank
dos83to_str name ext =
    before_blank (take 8 name)
    ++ (if is_blank (take 3 ext) then [] else 46 ∷ before_nul (take 3 ext))

-- The sector of a cluster; `cluster - 2` is a signed number, the sum has 32 bits.
unfoldable pub rootdir_sector : Fat → ℕ
rootdir_sector fs =
    (fs.start_lba
      + fs.params.reserved_sectors
      + fs.params.number_of_fat * fs.params.sectors_per_fat)
    % 2 ^ 32

pub rootdir_sector-lt : (fs : Fat) → rootdir_sector fs < 2 ^ 32
unfolding rootdir_sector
rootdir_sector-lt fs = omega arith

unfoldable pub cluster_sector : Fat → ℕ → ℕ
unfolding rootdir_sector
cluster_sector fs cluster =
    (cluster * fs.params.sectors_per_cluster
      + (2 ^ 32 - 2 * fs.params.sectors_per_cluster)
      + rootdir_sector fs
      + fs.params.rootdir_entries * sizeof_entry / fs.params.bytes_per_sector)
    % 2 ^ 32

-- The loop that skips clusters: the offset and the cluster at its end. A round takes a sector's bytes
-- from the offset, so there are at most as many as whole sectors in it.
pub skip_clusters : ℕ → Fat → ℕ → ℕ → ℕ × ℕ
unfolding next_cluster invalid
skip_clusters zero fs offset cluster = (offset, cluster)
skip_clusters (suc rounds) fs offset cluster =
    let rest =
      skip_clusters rounds fs (offset - fs.params.bytes_per_sector) (next_cluster fs cluster) in
    if leb fs.params.bytes_per_sector offset && ltb cluster (invalid fs.type)
    then rest
    else (offset, cluster)

module _ (read_sector : ℕ → Option (ℕ → ℕ)) where
  -- A round of the second loop, once the sector has been read or not.
  pub copy_cluster :
      Fat → ℕ → ℕ → Option (ℕ → ℕ) → Option (Result (List ℕ)) → Option (Result (List ℕ))
  copy_cluster fs offset to_read none rest = some (err eio)
  copy_cluster fs offset to_read (some io_buffer) rest = rest >>= λ r.
      some (prepend (copy_sector io_buffer (offset % fs.params.bytes_per_sector) to_read) r)

  -- The loop that reads clusters. None is that the fuel runs out.
  pub read_clusters : ℕ → Fat → ℕ → ℕ → ℕ → Option (Result (List ℕ))
  unfolding next_cluster invalid cluster_sector copy_cluster
  read_clusters zero fs offset cluster count = none
  read_clusters (suc fuel) fs offset cluster count =
      let bytes = fs.params.bytes_per_sector in
      let to_read = if ltb bytes count then bytes else count in
      let rest = read_clusters fuel fs offset (next_cluster fs cluster) (count - to_read) in
      if ltb cluster (invalid fs.type) && not (count == 0)
      then copy_cluster fs offset to_read (read_sector (cluster_sector fs cluster)) rest
      else some (ok [])

  -- What both loops do.
  pub read_from : Fat → ℕ → ℕ × ℕ → Option (Result (List ℕ))
  unfolding read_clusters
  read_from fs count (offset, cluster) = read_clusters (count + 1) fs offset cluster count

  -- The bytes that `fat_read` writes to `buf`; it returns their number. `offset + count` may wrap.
  pub fat_read : Fat → FatStat → ℕ → ℕ → Option (Result (List ℕ))
  unfolding skip_clusters read_from
  fat_read fs st count offset = elim st.st_private [
    | none ↦ some (err ebadfd)
    | some f ↦
        let wanted = if ltb f.size ((offset + count) % 2 ^ 32) then f.size - offset else count in
        if leb f.size offset
        then some (ok [])
        else read_from fs wanted
            (skip_clusters (offset / fs.params.bytes_per_sector) fs offset f.cluster)
  ]
