-- ===== src/Mbr/Tests.antt =====
-- A sector of kernel/drivers/mbr.c with an ext2 file system in its second partition, from sector 2048.
use dos.Prelude.{arith, if◌then◌else◌, refl, some, ℕ, ◌*◌, ◌+◌, ◌==◌, ◌↔◌, ◌≡◌}
use dos.Mbr.{MbrPartition, fs_ext2, FileSystem, mbr_init}
use dos.Mbr.Table.{Holds, HasType, mbr_init_lem}

abbrev sector : ℕ → ℕ
sector i =
    if i == 466
    then 0x83
    else if i == 471
    then 8
    else if i == 510
    then 0x55
    else if i == 511
    then 0xAA
    else 0

abbrev partition : MbrPartition
partition = record {
  bootable = 0;
  start_head = 0;
  start_sector = 0;
  start_cylinder = 0;
  type = 0x83;
  end_head = 0;
  end_sector = 0;
  end_cylinder = 0;
  start_lba = 2048;
  size = 0;
}

abbrev fs : FileSystem
fs = record { type = fs_ext2; start_lba = 2048 }

sector-Holds : Holds sector (446 + 16 * 1) partition
sector-Holds = record {
  flag = refl;
  start = (refl, refl, refl);
  kind = refl;
  end = (refl, refl, refl);
  first = (refl, refl, refl, refl);
  number = (refl, refl, refl, refl);
}

second_partition : mbr_init sector (λ i. partition) 1 ≡ some fs
unfolding mbr_init
second_partition = refl

mbr_init_example : (mbr_init sector (λ i. partition) 1 ≡ some fs) ↔ (
    (sector 510 ≡ 0x55)
    × (sector 511 ≡ 0xAA)
    × HasType 0x83 fs_ext2
    × (fs.start_lba ≡ partition.start_lba))
mbr_init_example = mbr_init_lem sector (λ i. partition) 1 partition fs (omega arith) sector-Holds
