-- ===== src/Mbr.antt =====
-- kernel/drivers/mbr.c: the table of partitions in the first sector of a disk, which is the bytes that
-- `read_sector` puts into `io_buffer`. A file system is its kind, which stands for the functions that
-- are set with it, and where it starts. The entries from 4 on lie behind `driver->partitions`.
pub mod Table
mod Tests
use dos.Prelude.{Option, if◌then◌else◌, ltb, none, not, some, ℕ, ◌*◌, ◌+◌, ◌==◌, ◌^◌, ◌||◌}

pub record MbrPartition : Type 0 where
  pub bootable : ℕ
  pub start_head : ℕ
  pub start_sector : ℕ
  pub start_cylinder : ℕ
  pub type : ℕ
  pub end_head : ℕ
  pub end_sector : ℕ
  pub end_cylinder : ℕ
  pub start_lba : ℕ
  pub size : ℕ

pub data FsType : Type 0 where
  fs_fat12 : FsType
  fs_fat16 : FsType
  fs_ext2 : FsType
  fs_iso9660 : FsType

pub record FileSystem : Type 0 where
  pub type : FsType
  pub start_lba : ℕ

-- A number of four bytes, low byte first.
abbrev pub long_at : (ℕ → ℕ) → ℕ → ℕ
long_at buffer i =
    buffer i + buffer (i + 1) * 2 ^ 8 + buffer (i + 2) * 2 ^ 16 + buffer (i + 3) * 2 ^ 24

-- The cast of the bytes from `i` on.
abbrev pub partition_at : (ℕ → ℕ) → ℕ → MbrPartition
partition_at buffer i = record {
  bootable = buffer i;
  start_head = buffer (i + 1);
  start_sector = buffer (i + 2);
  start_cylinder = buffer (i + 3);
  type = buffer (i + 4);
  end_head = buffer (i + 5);
  end_sector = buffer (i + 6);
  end_cylinder = buffer (i + 7);
  start_lba = long_at buffer (i + 8);
  size = long_at buffer (i + 12);
}

-- `mbr_get_fs` of an entry.
unfoldable pub mbr_get_fs : MbrPartition → Option FileSystem
mbr_get_fs p =
    if p.type == 0x00
    then none
    else if p.type == 0x01
    then some (record { type = fs_fat12; start_lba = p.start_lba })
    else if p.type == 0x04 || p.type == 0x06
    then some (record { type = fs_fat16; start_lba = p.start_lba })
    else if p.type == 0x83
    then some (record { type = fs_ext2; start_lba = p.start_lba })
    else if p.type == 0x96 || p.type == 0xCD
    then some (record { type = fs_iso9660; start_lba = p.start_lba })
    else none

-- `mbr_init`, with the bytes of the sector and what lies behind the four entries.
unfoldable pub mbr_init : (ℕ → ℕ) → (ℕ → MbrPartition) → ℕ → Option FileSystem
unfolding mbr_get_fs
mbr_init buffer behind partition =
    if not (buffer 510 == 0x55) || not (buffer 511 == 0xAA)
    then none
    else mbr_get_fs
        (if ltb partition 4 then partition_at buffer (446 + 16 * partition) else behind partition)
