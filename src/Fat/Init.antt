-- ===== src/Fat/Init.antt =====
-- `fat_init` of kernel/drivers/fs/fat.c.
pub mod Cache
use dos.Prelude.{
  Bool, Option, false, if◌then◌else◌, ltb, none, not, replicate, some, suc, true, zero, ℕ, ◌%◌, ◌*◌,
  ◌+◌, ◌==◌, ◌^◌,
}
use native.Mathlib.Nat.{zero-mul}
use dos.Sectors.{copy_at, copy_at_in, copy_at_before, split_index}
use dos.Fat.{Fat, FatType, FatStat, FatEntry, BiosParams, sizeof_entry, word16_at, fat_stat_fill}

-- The parameters in the first sector.
unfoldable pub params_of : (ℕ → ℕ) → BiosParams
unfolding word16_at
params_of io_buffer = record {
  bytes_per_sector = word16_at io_buffer 11;
  sectors_per_cluster = io_buffer 13;
  reserved_sectors = word16_at io_buffer 14;
  number_of_fat = io_buffer 16;
  rootdir_entries = word16_at io_buffer 17;
  sectors_per_fat = word16_at io_buffer 22;
}

-- The entry that stands for the root directory.
pub root_entry : BiosParams → FatEntry
root_entry params = record {
  name = replicate 8 0;
  ext = replicate 3 0;
  attributes = record {
    read_only = false;
    volume = false;
    directory = true;
    archive = false;
    device = false;
  };
  cluster = 0;
  size = params.rootdir_entries * sizeof_entry;
}

-- A sector has been read, or not, and the loop goes on or fails.
pub cached : ((ℕ → ℕ) → Bool × (ℕ → ℕ)) → ℕ → ℕ → (ℕ → ℕ) → Option (ℕ → ℕ) → Bool × (ℕ → ℕ)
cached go_on start len bitmap none = (true, bitmap)
cached go_on start len bitmap (some io_buffer) = go_on (copy_at start len io_buffer bitmap)

module _ (read_sector : ℕ → Option (ℕ → ℕ)) (start_lba : ℕ) (params : BiosParams) where
  -- The loop over the sectors of a copy of the table: whether it failed, and the table.
  pub cache_sectors : ℕ → ℕ → ℕ → (ℕ → ℕ) → Bool × (ℕ → ℕ)
  unfolding cached
  cache_sectors zero fat i bitmap = (false, bitmap)
  cache_sectors (suc left) fat i bitmap =
      cached (cache_sectors left fat (i + 1)) (i * params.bytes_per_sector) params.bytes_per_sector
        bitmap
        (read_sector (
          (start_lba
            + params.reserved_sectors
            + fat * params.sectors_per_fat * params.bytes_per_sector
            + i)
          % 2 ^ 32))

  abbrev pub next_copy : ((ℕ → ℕ) → ℕ → ℕ) → Bool × (ℕ → ℕ) → ℕ → ℕ
  next_copy go_on (failed, bitmap) = if failed then go_on bitmap else bitmap

  -- The loop over the copies, up to one that can be read.
  pub cache_fats : ℕ → ℕ → (ℕ → ℕ) → ℕ → ℕ
  unfolding cache_sectors
  cache_fats zero fat bitmap = bitmap
  cache_fats (suc left) fat bitmap =
      next_copy (cache_fats left (fat + 1)) (cache_sectors params.sectors_per_fat fat 0 bitmap)

-- What the buffer holds after a call whose result is not looked at.
abbrev pub buffer_after : (ℕ → ℕ) → Option (ℕ → ℕ) → ℕ → ℕ
buffer_after io_buffer none = io_buffer
buffer_after io_buffer (some loaded) = loaded

-- The file system once its parameters are accepted; `fs->rootdir` is filled in from the parameters
-- before the table is cached.
pub set_up : (ℕ → Option (ℕ → ℕ)) → ℕ → FatType → ℕ → BiosParams → Fat
unfolding cache_fats root_entry
set_up read_sector device type start_lba params =
    let unset : FatStat = record {
      st_dev = 0;
      st_ino = 0;
      st_mode = 0;
      st_size = 0;
      st_blocks = 0;
      st_blksize = 0;
      st_private = none;
    } in
    let fs : Fat = record {
      type = type;
      start_lba = start_lba;
      params = params;
      bitmap = λ a. 0;
      rootdir = unset;
    } in
    record fs {
      bitmap = cache_fats read_sector start_lba params params.number_of_fat 0 (λ a. 0);
      rootdir = fat_stat_fill device fs (root_entry params);
    }

-- None is that the kernel panics, for a size of sectors that does not fit the driver's, which is
-- not 0.
pub fat_init : (ℕ → Option (ℕ → ℕ)) → ℕ → ℕ → FatType → ℕ → (ℕ → ℕ) → Option Fat
fat_init read_sector sector_size device type start_lba io_buffer =
    let params = params_of (buffer_after io_buffer (read_sector start_lba)) in
    if ltb params.bytes_per_sector sector_size
    then none
    else if not (params.bytes_per_sector % sector_size == 0)
    then none
    else some (set_up read_sector device type start_lba params)
