-- ===== src/Fat/Tests.antt =====
-- The FAT model on a small disk: 32 bytes in a sector, one copy of a FAT12 table in the sectors 1 and
-- 2, the root directory of two entries in 3 and 4, the clusters from 2 on in the sectors from 5 on.
use dos.Prelude.{
  Option, [], ap, arith, false, if◌then◌else◌, leb, none, refl, some, suc, tabulate, true, zero, ℕ,
  ◌*◌, ◌+◌, ◌-◌, ◌/◌, ◌<◌, ◌==◌, ◌^◌, ◌||◌, ◌∙◌, ◌∷◌, ◌≡◌,
}
use dos.Vfs.{ok}
use dos.Fat.{
  Fat, fs_fat12, FatStat, FatEntry, BiosParams, invalid, next_cluster, fat_read, dos83to_str,
  fat_calculate_actual_size,
}
use dos.Fat.Table.{packed, next_cluster_lem}
use dos.Fat.Read.{IsRead, fat_read_aligned}
use dos.Fat.Chain.{IsReadable, nth_cluster, chain_byte}
use dos.Fat.Size.{fat_calculate_actual_size_lem}
use dos.Fat.Init.{fat_init}
use dos.Fat.Init.Cache.{IsTable, layout, IsRootDir, table_byte, fat_init_lem}

abbrev small : BiosParams
small = record {
  bytes_per_sector = 32;
  sectors_per_cluster = 1;
  reserved_sectors = 1;
  number_of_fat = 1;
  rootdir_entries = 2;
  sectors_per_fat = 2;
}

-- The clusters 2, 3 and 4 follow each other.
abbrev chained : ℕ → ℕ
chained c = if c == 2 then 3 else if c == 3 then 4 else 0xFFF

chained-lt : (c : ℕ) → chained c < 2 ^ 12
chained-lt c = ground arith

abbrev plain_entry : FatEntry
plain_entry = record {
  name = 65 ∷ 32 ∷ 32 ∷ 32 ∷ 32 ∷ 32 ∷ 32 ∷ 32 ∷ [];
  ext = 66 ∷ 32 ∷ 32 ∷ [];
  attributes = record {
    read_only = false;
    volume = false;
    directory = false;
    archive = true;
    device = false;
  };
  cluster = 2;
  size = 70;
}

abbrev stat_of : Option FatEntry → FatStat
stat_of entry = record {
  st_dev = 0;
  st_ino = 2;
  st_mode = 0x8000;
  st_size = 70;
  st_blocks = 1;
  st_blksize = 32;
  st_private = entry;
}

abbrev volume : Fat
volume = record {
  type = fs_fat12;
  start_lba = 0;
  params = small;
  bitmap = packed fs_fat12 chained;
  rootdir = stat_of none;
}

volume_next : (c : ℕ) → next_cluster volume c ≡ chained c
volume_next c = next_cluster_lem volume chained c (λ a. refl) chained-lt

next_cluster_example : next_cluster volume 3 ≡ 4
next_cluster_example = next_cluster_lem volume chained 3 (λ a. refl) chained-lt

-- A disk whose sectors hold their number in each byte.
abbrev disk : ℕ → ℕ → ℕ
disk s a = s

abbrev read_sector : ℕ → Option (ℕ → ℕ)
read_sector s = some (λ a. s - 3)

chain_of : (k : ℕ) → k * 32 < 70 → nth_cluster volume 2 k ≡ k + 2
chain_of zero lt = refl
chain_of (suc zero) lt = volume_next 2
chain_of (suc (suc zero)) lt = ap (next_cluster volume) (volume_next 2) ∙ volume_next 3
chain_of (suc (suc (suc k))) lt = absurd (omega arith)

volume-IsReadable : IsReadable read_sector disk volume 2 70
unfolding invalid
volume-IsReadable = record {
  chain = λ k lt. omega (arith, lt, chain_of k lt);
  byte = omega arith;
  from_two = λ k lt. omega (arith, chain_of k lt);
  on_disk = λ k lt. omega (arith, lt, chain_of k lt);
  sectors = λ k lt.
      let c = nth_cluster volume 2 k in
      let same : 0 + 1 + 1 * 2 + 2 * 32 / 32 + (c - 2) * 1 - 3 ≡ c = omega (arith, chain_of k lt) in
      ap (λ (s : ℕ). some (λ (a : ℕ). s)) same;
}

plain-IsRead : IsRead read_sector disk volume (stat_of (some plain_entry)) plain_entry 100 32
plain-IsRead = record {
  file = refl;
  inside = omega arith;
  some_bytes = omega arith;
  plain = omega arith;
  readable = volume-IsReadable;
}

fat_read_aligned_example :
    fat_read read_sector volume (stat_of (some plain_entry)) 100 32
    ≡ some (ok (tabulate 38 32 (chain_byte disk volume 2)))
fat_read_aligned_example =
    fat_read_aligned volume (stat_of (some plain_entry)) plain_entry 100 32 plain-IsRead refl

size_example : fat_calculate_actual_size 9 volume plain_entry ≡ some 96
unfolding invalid
size_example =
    fat_calculate_actual_size_lem 9 3 volume plain_entry (λ e. omega (arith, e))
      (λ k lt. omega (arith, lt, chain_of k (omega (arith, lt))))
      (omega (arith, ap (next_cluster volume) (chain_of 2 (omega arith)), volume_next 4))
      (omega arith)

-- A table in which each cluster follows itself.
abbrev looping : ℕ → ℕ
looping c = 5

looping-lt : (c : ℕ) → looping c < 2 ^ 12
looping-lt c = omega arith

abbrev circle : Fat
circle = record volume { bitmap = packed fs_fat12 looping }

abbrev circle_entry : FatEntry
circle_entry = record plain_entry { cluster = 5 }

circle_next : (k : ℕ) → nth_cluster circle 5 k ≡ 5
circle_next zero = refl
circle_next (suc k) =
    next_cluster_lem circle looping (nth_cluster circle 5 k) (λ a. refl) looping-lt

-- The root directory: an entry that is not used, and a file.
abbrev dir_disk : ℕ → ℕ → ℕ
dir_disk s a =
    if s == 0 then 0 else if a == 0 then 65 else if leb a 10 then 32 else if a == 26 then 2 else 0

abbrev read_dir : ℕ → Option (ℕ → ℕ)
read_dir s = some (dir_disk (s - 3))

abbrev root_file : FatEntry
root_file = record plain_entry {
  attributes = record {
    read_only = false;
    volume = false;
    directory = true;
    archive = false;
    device = false;
  };
  cluster = 0;
  size = 64;
}

names :
    (dos83to_str (65 ∷ 66 ∷ 32 ∷ 32 ∷ 32 ∷ 32 ∷ 32 ∷ 32 ∷ []) (84 ∷ 88 ∷ 84 ∷ [])
      ≡ 65 ∷ 66 ∷ 46 ∷ 84 ∷ 88 ∷ 84 ∷ [])
    × (dos83to_str plain_entry.name plain_entry.ext ≡ 65 ∷ 46 ∷ 66 ∷ 32 ∷ 32 ∷ [])
unfolding dos83to_str
names = (refl, refl)

-- A first sector with the parameters `small`; the other sectors hold their number.
abbrev boot : ℕ → ℕ
boot a =
    if a == 11
    then 32
    else if a == 13 || a == 14 || a == 16
    then 1
    else if a == 17 || a == 22
    then 2
    else 0

abbrev read_boot : ℕ → Option (ℕ → ℕ)
read_boot s = if s == 0 then some boot else some (disk s)

boot-IsTable : IsTable read_boot (λ i. disk (1 + i)) 0 (layout boot)
boot-IsTable = record {
  some_bytes = omega arith;
  some_copy = omega arith;
  on_disk = omega arith;
  sectors = λ i lt.
      let other : (0 + 1 + i == 0) ≡ false = ground arith in
      let same : 0 + 1 + i ≡ 1 + i = omega arith in
      rw other (ap (λ (s : ℕ). some (λ (a : ℕ). s)) same);
}

fat_init_example :
    (fs : Fat) × (fat_init read_boot 32 0 fs_fat12 0 (λ a. 0) ≡ some fs)
    × (fs.type ≡ fs_fat12)
    × (fs.start_lba ≡ 0)
    × (fs.params ≡ layout boot)
    × IsRootDir 0 fs.params fs.rootdir
    × ((a : ℕ)
        → a < (layout boot).sectors_per_fat * (layout boot).bytes_per_sector
        → fs.bitmap a ≡ table_byte (λ i. disk (1 + i)) (layout boot) a)
fat_init_example = fat_init_lem 32 0 0 fs_fat12 (λ a. 0) boot refl boot-IsTable (omega arith) refl
