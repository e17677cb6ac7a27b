-- ===== src/Fat/Dir.antt =====
-- `fat_readdir` of kernel/drivers/fs/fat.c.
pub mod Entries
pub mod Root
pub mod Listing
use dos.Prelude.{
  Bool, List, Option, [], get_or, if◌then◌else◌, inl, inr, none, not, some, suc, tabulate, zero, ℕ,
  ◌%◌, ◌*◌, ◌+◌, ◌-◌, ◌/◌, ◌==◌, ◌>>=◌, ◌^◌, ◌||◌, ◌∷◌, ◌⊎◌,
}
use dos.Bits.{isset_bit_int}
use dos.Vfs.{Errno, Result, ok, err, eio, enoent, ebadfd, enotdir}
use dos.Fat.{
  Fat, FatType, FatStat, FatEntry, FatAttributes, BiosParams, sizeof_entry, word16_at,
  fat_calculate_actual_size, fat_stat_fill, dos83to_str, rootdir_sector, fat_read,
}

-- The attributes in their byte.
pub attributes_of : ℕ → FatAttributes
unfolding isset_bit_int
attributes_of byte = record {
  read_only = isset_bit_int byte 0x01;
  volume = isset_bit_int byte 0x08;
  directory = isset_bit_int byte 0x10;
  archive = isset_bit_int byte 0x20;
  device = isset_bit_int byte 0x40;
}

-- The entry that stands at an address.
pub entry_at : (ℕ → ℕ) → ℕ → FatEntry
unfolding attributes_of word16_at
entry_at buffer a = record {
  name = tabulate 8 a buffer;
  ext = tabulate 3 (a + 8) buffer;
  attributes = attributes_of (buffer (a + 11));
  cluster = word16_at buffer (a + 26);
  size = word16_at buffer (a + 28) + 2 ^ 16 * word16_at buffer (a + 30);
}

-- Whether an entry is passed over: it is not used, or the label of the volume.
pub is_skipped : (ℕ → ℕ) → ℕ → Bool
unfolding entry_at
is_skipped io_buffer a = io_buffer a == 0 || (entry_at io_buffer a).attributes.volume

-- The name and the stat that `fat_readdir` gives.
abbrev pub Found : Type 0
Found = List ℕ × FatStat

-- `st_ino` is the cluster.
pub numbered : ℕ → FatStat → FatStat
numbered ino st = record st { st_ino = ino }

-- What is filled in for the entry that has been found. None is that the fuel for the size of a
-- directory runs out.
pub fill_found : ℕ → ℕ → Fat → FatEntry → Option Found
unfolding fat_calculate_actual_size dos83to_str fat_stat_fill numbered
fill_found fuel device fs entry =
    (if entry.attributes.directory
      then fat_calculate_actual_size fuel fs entry
      else some entry.size)
    >>= λ size.
        let sized = record entry { size = size } in
        some
          (dos83to_str entry.name entry.ext, numbered entry.cluster (fat_stat_fill device fs sized))

abbrev pub found_of : Option Found → Option (Result Found)
found_of o = o >>= λ found. some (ok found)

module _ (read_sector : ℕ → Option (ℕ → ℕ)) (fs : Fat) where
  -- A sector is read at its first entry; the buffer and the next sector.
  pub load_sector : (ℕ → ℕ) → ℕ → ℕ → Option ((ℕ → ℕ) × ℕ)
  load_sector io_buffer dir_sector j =
      if j % fs.params.bytes_per_sector == 0
      then (read_sector dir_sector >>= λ loaded. some (loaded, (dir_sector + 1) % 2 ^ 32))
      else some (io_buffer, dir_sector)

module _ (read_sector : ℕ → Option (ℕ → ℕ)) (fuel device : ℕ) (fs : Fat) (index : ℕ) where
  -- The entry in the buffer: it is passed over, counted, or the one that is wanted.
  pub take_entry :
      ((ℕ → ℕ) → ℕ → ℕ → Option (Result Found))
      → ℕ
      → ℕ
      → Option ((ℕ → ℕ) × ℕ)
      → Option (Result Found)
  unfolding is_skipped entry_at fill_found
  take_entry go_on i a none = some (err eio)
  take_entry go_on i a (some (io_buffer, dir_sector)) =
      if is_skipped io_buffer a
      then go_on io_buffer dir_sector i
      else if i == index - 2
      then found_of (fill_found fuel device fs (entry_at io_buffer a))
      else go_on io_buffer dir_sector (i + 1)

  -- The loop over the root directory with so many entries to go, from the byte `j` on.
  pub root_loop : ℕ → ℕ → (ℕ → ℕ) → ℕ → ℕ → Option (Result Found)
  unfolding load_sector take_entry
  root_loop zero j io_buffer dir_sector i = some (err enoent)
  root_loop (suc left) j io_buffer dir_sector i =
      take_entry (root_loop left (j + sizeof_entry)) i (j % fs.params.bytes_per_sector)
        (load_sector read_sector fs io_buffer dir_sector j)

  -- The loop over the entries of a block, up to one that is not used: the entry that is wanted, or
  -- the number of entries seen.
  pub block_loop : ℕ → (ℕ → ℕ) → ℕ → ℕ → ℕ ⊎ FatEntry
  unfolding entry_at
  block_loop zero block_buffer offset j = inl j
  block_loop (suc left) block_buffer offset j =
      let rest = block_loop left block_buffer (offset + sizeof_entry) (j + 1) in
      if block_buffer offset == 0
      then inl j
      else if j == index
      then inr (entry_at block_buffer offset)
      else rest

  -- The search goes on behind a block, or ends in it.
  pub after_block : (ℕ → Option (Result Found)) → ℕ ⊎ FatEntry → Option (Result Found)
  unfolding fill_found
  after_block go_on (inl j) = go_on j
  after_block go_on (inr entry) = found_of (fill_found fuel device fs entry)

  -- A block that was read is searched; the bytes behind those read are 0. Without any, and after
  -- an error, the directory is at its end.
  pub search_block :
      (ℕ → Option (Result Found)) → ℕ → Option (Result (List ℕ)) → Option (Result Found)
  unfolding block_loop after_block
  search_block go_on j none = none
  search_block go_on j (some (err e)) = some (err enoent)
  search_block go_on j (some (ok [])) = some (err enoent)
  search_block go_on j (some (ok (b ∷ bytes))) = after_block go_on (
      block_loop ((fs.params.bytes_per_sector + 31) / sizeof_entry) (λ a. get_or (b ∷ bytes) a 0) 0
        j)

  -- The loop over the blocks of a directory other than the root. None is that the fuel runs out.
  pub blocks_loop : ℕ → FatStat → ℕ → ℕ → Option (Result Found)
  unfolding search_block fat_read
  blocks_loop zero st i j = none
  blocks_loop (suc rounds) st i j =
      search_block (blocks_loop rounds st (i + fs.params.bytes_per_sector)) j
        (fat_read read_sector fs st fs.params.bytes_per_sector i)

  -- The entries of the root directory; the first two stand for itself and its parent.
  pub read_root : (ℕ → ℕ) → FatEntry → Option (Result Found)
  read_root io_buffer f =
      let itself = numbered f.cluster (fat_stat_fill device fs f) in
      let listed = root_loop ((f.size + 31) / sizeof_entry) 0 io_buffer (rootdir_sector fs) 0 in
      if index == 0
      then some (ok (46 ∷ [], itself))
      else if index == 1
      then some (ok (46 ∷ 46 ∷ [], itself))
      else listed

  -- `io_buffer` is what the buffer of the driver holds before.
  pub fat_readdir : (ℕ → ℕ) → FatStat → Option (Result Found)
  fat_readdir io_buffer st = elim st.st_private [
    | none ↦ some (err ebadfd)
    | some f ↦
        if not f.attributes.directory
        then some (err enotdir)
        else if f.cluster == 0
        then read_root io_buffer f
        else blocks_loop fuel st 0 0
  ]
