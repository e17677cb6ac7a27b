-- ===== src/Fat/Dir/Listing.antt =====
-- A description of the root directory of a FAT volume, independent of the code, that `fat_readdir` of
-- kernel/drivers/fs/fat.c meets.
use dos.Prelude.{
  List, Option, [], if◌then◌else◌, some, suc, tabulate, zero, ℕ, ◌%◌, ◌*◌, ◌+◌, ◌/◌, ◌<◌, ◌==◌,
  ◌>>=◌, ◌^◌, ◌∷◌, ◌≡◌, ◌≢◌,
}
use dos.Vfs.{Result, ok, err, enoent}
use dos.Fat.{Fat, FatEntry, FatAttributes, dos83to_str, fat_calculate_actual_size}
use dos.Fat.Dir.{Found}

-- The 32 bytes of an entry.
pub record IsEntryAt (bytes : ℕ → ℕ) (at : ℕ) (f : FatEntry) : Type 0 where
  pub name : f.name ≡ tabulate 8 at bytes
  pub ext : f.ext ≡ tabulate 3 (at + 8) bytes
  pub read_only : f.attributes.read_only ≡ (bytes (at + 11) / 1 % 2 == 1)
  pub volume : f.attributes.volume ≡ (bytes (at + 11) / 8 % 2 == 1)
  pub directory : f.attributes.directory ≡ (bytes (at + 11) / 16 % 2 == 1)
  pub archive : f.attributes.archive ≡ (bytes (at + 11) / 32 % 2 == 1)
  pub device : f.attributes.device ≡ (bytes (at + 11) / 64 % 2 == 1)
  pub cluster : f.cluster ≡ bytes (at + 26) + 256 * bytes (at + 27)
  pub size :
      f.size
      ≡ bytes (at + 28) + 256 * (bytes (at + 29) + 256 * (bytes (at + 30) + 256 * bytes (at + 31)))

-- The files among so many entries from number `e` on, with `m` entries in a sector: those whose first
-- byte is not 0, without those with the bit of the label of the volume.
pub data Stored (disk : ℕ → ℕ → ℕ) (m : ℕ) : ℕ → ℕ → List FatEntry → Type 0 where
  no_more : {e : ℕ} → Stored disk m 0 e []
  unused :
      {left e : ℕ} {files : List FatEntry}
      → disk (e / m) (32 * (e % m)) ≡ 0
      → Stored disk m left (e + 1) files
      → Stored disk m (suc left) e files
  label :
      {left e : ℕ} {files : List FatEntry}
      → disk (e / m) (32 * (e % m) + 11) / 8 % 2 ≡ 1
      → Stored disk m left (e + 1) files
      → Stored disk m (suc left) e files
  file :
      {left e : ℕ} {files : List FatEntry} {f : FatEntry}
      → disk (e / m) (32 * (e % m)) ≢ 0
      → disk (e / m) (32 * (e % m) + 11) / 8 % 2 ≢ 1
      → IsEntryAt (disk (e / m)) (32 * (e % m)) f
      → Stored disk m left (e + 1) files
      → Stored disk m (suc left) e (f ∷ files)

-- The mode by the attributes: `rwxrwxr-x` or `r-xr-xr-x`, and the kind of the file.
abbrev pub mode_of : FatAttributes → ℕ
mode_of a =
    (if a.read_only then 0x16D else 0x1FD)
    + (if a.device then 0x6000 else if a.directory then 0x4000 else 0)
    + (if a.archive then 0x8000 else 0)

-- What is shown for a file of so many bytes.
abbrev pub shown : ℕ → Fat → List ℕ → FatEntry → ℕ → Found
shown device fs name f size = (
  name,
  record {
    st_dev = device;
    st_ino = f.cluster;
    st_mode = mode_of f.attributes;
    st_size = size;
    st_blocks = (size + 511) / 512;
    st_blksize = fs.params.bytes_per_sector;
    st_private = some (record f { size = size });
  },
)

-- What an index of the root directory shows, `.` and `..` both standing for the directory itself.
-- The size of a directory is the one that `fat_calculate_actual_size` finds.
abbrev pub shown_at : ℕ → ℕ → Fat → FatEntry → List FatEntry → ℕ → Option (Result Found)
shown_at fuel device fs dir files zero = some (ok (shown device fs (46 ∷ []) dir dir.size))
shown_at fuel device fs dir files (suc zero) =
    some (ok (shown device fs (46 ∷ 46 ∷ []) dir dir.size))
shown_at fuel device fs dir [] (suc (suc n)) = some (err enoent)
shown_at fuel device fs dir (f ∷ files) (suc (suc zero)) =
    (if f.attributes.directory then fat_calculate_actual_size fuel fs f else some f.size)
    >>= λ size. some (ok (shown device fs (dos83to_str f.name f.ext) f size))
shown_at fuel device fs dir (f ∷ files) (suc (suc (suc n))) =
    shown_at fuel device fs dir files (suc (suc n))

-- The root directory lies behind the reserved sectors and the copies of the table, in sectors with
-- numbers of 32 bits that can be read and hold `m` entries each; the buffer then holds the bytes of
-- `disk`.
pub record IsRootRegion (read_sector : ℕ → Option (ℕ → ℕ)) (disk : ℕ → ℕ → ℕ) (fs : Fat)
    (m total : ℕ) : Type 0 where
  pub some_entries : 0 < m
  pub width : fs.params.bytes_per_sector ≡ 32 * m
  pub on_disk :
      (e : ℕ)
      → e < total
      → fs.start_lba
          + fs.params.reserved_sectors
          + fs.params.number_of_fat * fs.params.sectors_per_fat
          + e / m
        < 2 ^ 32
  pub sectors :
      (e : ℕ)
      → e < total
      → read_sector (
          fs.start_lba
          + fs.params.reserved_sectors
          + fs.params.number_of_fat * fs.params.sectors_per_fat
          + e / m)
        ≡ some (disk (e / m))
