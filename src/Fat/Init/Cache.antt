-- ===== src/Fat/Init/Cache.antt =====
-- What `fat_init` of kernel/drivers/fs/fat.c caches.
use dos.Prelude.{
  Option, ap, ap₂, arith, dec_lt, false, ltb, refl, some, suc, true, zero, ℕ, ◌%◌, ◌*◌, ◌+◌, ◌-◌,
  ◌/◌, ◌<◌, ◌==◌, ◌^◌, ◌∙◌, ◌≡◌, ◌≤◌,
}
use native.Mathlib.Nat.{zero-mul}
use dos.Sectors.{copy_at, copy_at_in, copy_at_before, split_index}
use dos.Fat.{Fat, FatType, FatStat, FatEntry, BiosParams, word16_at, fat_mode, fat_stat_fill}
use dos.Fat.Init.{
  params_of, root_entry, cached, cache_sectors, next_copy, cache_fats, set_up, fat_init,
}

-- The sectors of the first copy of the table, behind the reserved ones, have numbers of 32 bits and
-- can be read; the buffer then holds the bytes of `disk`.
pub record IsTable (read_sector : ℕ → Option (ℕ → ℕ)) (disk : ℕ → ℕ → ℕ) (start_lba : ℕ)
    (params : BiosParams) : Type 0 where
  pub some_bytes : 0 < params.bytes_per_sector
  pub some_copy : 0 < params.number_of_fat
  pub on_disk : start_lba + params.reserved_sectors + params.sectors_per_fat ≤ 2 ^ 32
  pub sectors :
      (i : ℕ)
      → i < params.sectors_per_fat
      → read_sector (start_lba + params.reserved_sectors + i) ≡ some (disk i)

-- The parameters as a FAT12 or FAT16 volume has them in the bytes of its first sector.
abbrev pub layout : (ℕ → ℕ) → BiosParams
layout first = record {
  bytes_per_sector = first 11 + 256 * first 12;
  sectors_per_cluster = first 13;
  reserved_sectors = first 14 + 256 * first 15;
  number_of_fat = first 16;
  rootdir_entries = first 17 + 256 * first 18;
  sectors_per_fat = first 22 + 256 * first 23;
}

-- The root directory: its mode is that of a directory, `drwxrwxr-x`, it has so many entries of 32
-- bytes, and it has no cluster.
pub record IsRootDir (device : ℕ) (params : BiosParams) (st : FatStat) : Type 0 where
  pub st_dev : st.st_dev ≡ device
  pub st_mode : st.st_mode ≡ 0x41FD
  pub st_size : st.st_size ≡ params.rootdir_entries * 32
  pub st_blksize : st.st_blksize ≡ params.bytes_per_sector
  pub file : FatEntry
  pub st_private : st.st_private ≡ some file
  pub directory : file.attributes.directory ≡ true
  pub cluster : file.cluster ≡ 0

root_dir :
    (device : ℕ) (fs : Fat)
    → IsRootDir device fs.params (fat_stat_fill device fs (root_entry fs.params))
unfolding fat_stat_fill fat_mode root_entry
root_dir device fs = record {
  st_dev = refl;
  st_mode = refl;
  st_size = refl;
  st_blksize = refl;
  file = root_entry fs.params;
  st_private = refl;
  directory = refl;
  cluster = refl;
}

-- The byte of the table at an address.
abbrev pub table_byte : (ℕ → ℕ → ℕ) → BiosParams → ℕ → ℕ
table_byte disk params a = disk (a / params.bytes_per_sector) (a % params.bytes_per_sector)

module _ {read_sector : ℕ → Option (ℕ → ℕ)} {disk : ℕ → ℕ → ℕ} {start_lba : ℕ} {params : BiosParams}
    (t : IsTable read_sector disk start_lba params) where
  table_byte_in :
      (i a : ℕ)
      → i * params.bytes_per_sector ≤ a
      → a < i * params.bytes_per_sector + params.bytes_per_sector
      → disk i (a - i * params.bytes_per_sector) ≡ table_byte disk params a
  table_byte_in i a low high =
      let (index, place) = split_index params.bytes_per_sector i a t.some_bytes low high in
      ap₂ disk index place

  sector_step :
      (left i : ℕ) (bitmap : ℕ → ℕ)
      → i < params.sectors_per_fat
      → cache_sectors read_sector start_lba params (suc left) 0 i bitmap
        ≡ cache_sectors read_sector start_lba params left 0
            (i + 1)
            (copy_at (i * params.bytes_per_sector) params.bytes_per_sector (disk i) bitmap)
  unfolding cache_sectors
  sector_step left i bitmap lt =
      let bps = params.bytes_per_sector in
      let none_before : 0 * params.sectors_per_fat * bps ≡ 0 =
        ap (λ (t : ℕ). t * bps) (zero-mul params.sectors_per_fat) ∙ zero-mul bps in
      let first : (start_lba + params.reserved_sectors + 0 * params.sectors_per_fat * bps + i)
            % 2 ^ 32
          ≡ start_lba + params.reserved_sectors + i =
        omega (arith, none_before, t.on_disk, lt) in
      ap (cached (cache_sectors read_sector start_lba params left 0 (i + 1)) (i * bps) bps bitmap)
        (ap read_sector first ∙ t.sectors i lt)

  cache_sectors_lem :
      (left i : ℕ) (bitmap : ℕ → ℕ)
      → i + left ≡ params.sectors_per_fat
      → (table : ℕ → ℕ) × (cache_sectors read_sector start_lba params left 0 i bitmap
          ≡ (false, table))
        × ((a : ℕ) → a < i * params.bytes_per_sector → table a ≡ bitmap a)
        × ((a : ℕ)
            → i * params.bytes_per_sector ≤ a
            → a < (i + left) * params.bytes_per_sector
            → table a ≡ table_byte disk params a)
  unfolding cache_sectors
  cache_sectors_lem zero i bitmap all =
      let same : (i + 0) * params.bytes_per_sector ≡ i * params.bytes_per_sector =
        let plain : i + 0 ≡ i = omega arith in ap (λ (t : ℕ). t * params.bytes_per_sector) plain in
      (bitmap, refl, λ a low. refl, λ a low high. absurd (omega (arith, same, low, high)))
  cache_sectors_lem (suc left) i bitmap all =
      let bps = params.bytes_per_sector in
      let stored = copy_at (i * bps) bps (disk i) bitmap in
      let (table, run, before, behind) = cache_sectors_lem left (i + 1) stored (omega arith) in
      let width : (i + 1) * bps ≡ i * bps + bps = grind arith in
      let sum : i + 1 + left ≡ i + suc left = omega arith in
      let total = ap (λ (t : ℕ). t * bps) sum in
      (
        table,
        sector_step left i bitmap (omega arith) ∙ run,
        λ a low.
            before a (omega (arith, width, low))
            ∙ copy_at_before (i * bps) bps (disk i) bitmap a low,
        λ a low high. elim (dec_lt a ((i + 1) * bps)) [
          | yes here ↦
              before a here
              ∙ copy_at_in (i * bps) bps (disk i) bitmap a low (omega (arith, width, here))
              ∙ table_byte_in i a low (omega (arith, width, here))
          | no later ↦ behind a (omega (arith, later)) (omega (arith, total, high))
        ],
      )

  cache_fats_lem :
      (copies a : ℕ)
      → 0 < copies
      → a < params.sectors_per_fat * params.bytes_per_sector
      → cache_fats read_sector start_lba params copies 0 (λ a. 0) a ≡ table_byte disk params a
  unfolding cache_fats
  cache_fats_lem zero a some_copy lt = absurd (omega arith)
  cache_fats_lem (suc copies) a some_copy lt =
      let (table, run, before, behind) =
        cache_sectors_lem params.sectors_per_fat 0 (λ a. 0) (omega arith) in
      let low : 0 * params.bytes_per_sector ≤ a = omega (arith, zero-mul params.bytes_per_sector) in
      let sum : params.sectors_per_fat ≡ 0 + params.sectors_per_fat = omega arith in
      let high = ap (λ (t : ℕ). t * params.bytes_per_sector) sum in
      ap
        (λ r.
          next_copy read_sector start_lba params (cache_fats read_sector start_lba params copies 1)
            r a)
        run
      ∙ behind a low (omega (arith, high, lt))

-- If the first sector can be read, the size of sectors in it is a multiple of the driver's and not
-- 0, there is a copy of the table, and the sectors of the first one have numbers of 32 bits and can
-- be read, `fat_init` gives a file system with the parameters that stand in the first sector, whose
-- table in the memory has the bytes of that copy, and whose root directory is a directory of as
-- many entries as the parameters say.
pub fat_init_lem :
    {read_sector : ℕ → Option (ℕ → ℕ)} {disk : ℕ → ℕ → ℕ} (sector_size device start_lba : ℕ)
    (type : FatType) (io_buffer first : ℕ → ℕ)
    → read_sector start_lba ≡ some first
    → IsTable read_sector disk start_lba (layout first)
    → sector_size ≤ (layout first).bytes_per_sector
    → (layout first).bytes_per_sector % sector_size ≡ 0
    → (fs : Fat) × (fat_init read_sector sector_size device type start_lba io_buffer ≡ some fs)
      × (fs.type ≡ type)
      × (fs.start_lba ≡ start_lba)
      × (fs.params ≡ layout first)
      × IsRootDir device fs.params fs.rootdir
      × ((a : ℕ)
          → a < (layout first).sectors_per_fat * (layout first).bytes_per_sector
          → fs.bitmap a ≡ table_byte disk (layout first) a)
unfolding fat_init set_up params_of word16_at fat_stat_fill
fat_init_lem {read_sector} {disk} sector_size device start_lba type io_buffer first loaded t le
      whole =
    let params = layout first in
    let fits : ltb params.bytes_per_sector sector_size ≡ false = ground arith in
    let multiple : (params.bytes_per_sector % sector_size == 0) ≡ true = ground arith in
    let fs = set_up read_sector device type start_lba params in
    (
      fs,
      rw (loaded, fits, multiple) refl,
      refl,
      refl,
      refl,
      root_dir device fs,
      λ a lt. cache_fats_lem t params.number_of_fat a t.some_copy lt,
    )
