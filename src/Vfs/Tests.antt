-- ===== src/Vfs/Tests.antt =====
-- A root directory of kernel/modules/vfs.c with `dev`, a directory, and `hd`, a block device.
use dos.Prelude.{List, Option, [], ap, arith, none, refl, some, suc, true, zero, ℕ, ◌∷◌, ◌≡◌}
use dos.Cstring.{IsString, is_zero}
use dos.Cstring.Compare.{strcmp-is_zero}
use dos.Vfs.{
  Errno, enoent, Stat, Entry, found, failed, FileSystem, Mount, Vfs, Result, ok, is_directory,
  same_name, mount_at, enter, report, vfs_stat, vfs_mount,
}
use dos.Vfs.Path.{IsName, join}
use dos.Vfs.Walk.{Search, hit, IsFinite}
use dos.Vfs.Lookup.{Leads, vfs_stat_lem}
use dos.Vfs.Mounts.{IsValid, Outcome, new_mount, vfs_mount_lem}
use dos.Vfs.Mounted.{stat_one, vfs_stat-vfs_mount}

abbrev dev : List ℕ
dev = 100 ∷ 101 ∷ 118 ∷ []

abbrev root_stat : Stat
root_stat = record { st_ino = 1; st_mode = 0x4000; st_size = 0; st_private = 0 }

abbrev dev_stat : Stat
dev_stat = record { st_ino = 2; st_mode = 0x4000; st_size = 0; st_private = 0 }

abbrev device_stat : Stat
device_stat = record { st_ino = 3; st_mode = 0x6000; st_size = 0; st_private = 0 }

abbrev readdir : ℕ → Stat → ℕ → Entry
readdir driver dir zero = found dev dev_stat
readdir driver dir (suc zero) = found (104 ∷ 100 ∷ []) device_stat
readdir driver dir (suc (suc i)) = failed enoent

abbrev files : FileSystem
files = record { root_st = root_stat; case_sensitive = true; readdir = readdir }

abbrev root : Mount
root = record { driver = 1; fs = files; name = 47 ∷ []; rootdir = root_stat; ino = 1 }

abbrev vfs : Vfs
vfs = record { root_mount = some root; mounts = []; capacity = 10 }

-- The test takes a block device for a directory, since 0x6000 has the bit 0x4000.
device_directory : is_directory device_stat ≡ true
unfolding is_directory
device_directory = refl

bytes-IsString : IsString dev
bytes-IsString =
    (omega arith, omega arith, (omega arith, omega arith, (omega arith, omega arith, tt)))

dev-IsString : IsString (join (dev ∷ []))
dev-IsString = (omega arith, omega arith, bytes-IsString)

dev-IsName : IsName dev
dev-IsName = (
  λ e. absurd (omega (arith, e)),
  (λ e. absurd (omega (arith, e)), (λ e. absurd (omega (arith, e)), tt)),
)

root-IsFinite : IsFinite 2 root
root-IsFinite dir = (2, omega arith, enoent, refl)

same_dev : same_name files dev dev ≡ true
unfolding same_name
same_dev = ap is_zero ((strcmp-is_zero dev dev bytes-IsString bytes-IsString).1 refl)

dev_there : Search root root_stat dev 0 0 (ok dev_stat)
dev_there = hit refl same_dev

vfs_stat_example :
    (r : Result (Mount × Stat)) × Leads 2 [] (dev ∷ []) root root_stat root_stat r
    × (vfs_stat 3 vfs (some (join (dev ∷ []))) ≡ some (report r))
vfs_stat_example = vfs_stat_lem 2 vfs root dev [] refl root-IsFinite tt dev-IsName tt dev-IsString

vfs-IsValid : IsValid vfs
vfs-IsValid = record { room = omega arith; unique = tt }

vfs_mount_example :
    (e : Option Errno) × (vfs' : Vfs) × (vfs_mount 3 7 (some files) (some (join (dev ∷ []))) vfs
      ≡ some (e, vfs'))
    × Outcome 7 files
        (join (dev ∷ []))
        vfs
        (ok (some (enter [] root root_stat dev_stat).0, dev_stat))
        e
        vfs'
    × IsValid vfs'
vfs_mount_example =
    vfs_mount_lem 3 7 files (join (dev ∷ [])) vfs root
      (ok (some (enter [] root root_stat dev_stat).0, dev_stat)) vfs-IsValid refl
      (stat_one 2 vfs root dev dev_stat 0 refl dev-IsName dev-IsString dev_there (omega arith))

dev_directory : is_directory dev_stat ≡ true
unfolding is_directory
dev_directory = refl

nothing_mounted : mount_at [] 2 ≡ none
unfolding mount_at
nothing_mounted = refl

vfs_stat-vfs_mount_example :
    (vfs' : Vfs) × (vfs_mount 3 7 (some files) (some (join (dev ∷ []))) vfs ≡ some (none, vfs'))
    × (vfs_stat 3 vfs' (some (join (dev ∷ [])))
        ≡ some (ok (some (new_mount 7 files (join (dev ∷ [])) dev_stat), dev_stat)))
vfs_stat-vfs_mount_example =
    vfs_stat-vfs_mount 2 7 files vfs root dev dev_stat 0 (λ e. absurd (omega (arith, e)))
      (λ e. absurd (omega (arith, e))) refl dev-IsName dev-IsString dev_there (omega arith)
      dev_directory nothing_mounted
