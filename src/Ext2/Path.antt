-- ===== src/Ext2/Path.antt =====
-- `ext2_stat` of kernel/drivers/fs/ext2.c.
use dos.Prelude.{List, Option, if◌then◌else◌, none, some, ℕ, ◌+◌}
use dos.Bits.{isset_bit_int}
use dos.Cstring.{strlen, strcmp, is_zero}
use dos.Vfs.{Result, ok, slash, path_names}
use dos.Fat.Path.{walk_names, behind_first}
use dos.Ext2.{IoDriver, Ext2, Ext2Stat}
use dos.Ext2.Dir.{ext2_readdir}

-- What is written to `out_st`, if it is. None is that the fuel runs out.
pub ext2_stat :
    IoDriver
    → (ℕ → ℕ)
    → ℕ
    → ℕ
    → Ext2
    → Ext2Stat
    → Ext2Stat
    → List ℕ
    → Option (Result (Option Ext2Stat))
unfolding isset_bit_int
ext2_stat driver uninitialised before fuel fs rootdir st path =
    let walked =
      walk_names (λ dir. isset_bit_int dir.st_mode 0x4000)
        (λ dir i. ext2_readdir driver uninitialised before fs fuel dir i)
        (λ name filename. is_zero (strcmp name filename)) fuel
        (path_names (strlen path + 1) (behind_first path)) st none in
    if is_zero (strcmp path slash) then some (ok (some rootdir)) else walked
