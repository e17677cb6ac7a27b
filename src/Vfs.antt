-- ===== src/Vfs.antt =====
-- kernel/modules/vfs.c: the mounted file systems and the walk along a path. A file system is what
-- its functions do: `readdir` gives the entry at an index of a directory, or an error. Memory is always
-- there for `calloc` and `strdup`; the errors are the negative results of the functions.
pub mod Path
pub mod Walk
pub mod Lookup
pub mod Mounts
pub mod Mounted
mod Tests
use dos.Prelude.{
  Bool, List, Option, [], if◌then◌else◌, length, none, not, some, suc, take, zero, ℕ, ◌++◌, ◌+◌,
  ◌==◌, ◌>>=◌, ◌||◌, ◌∷◌,
}
use dos.Prelude.Int.{ℤ}
use dos.Bits.{isset_bit_int}
use dos.Cstring.{strlen, strcmp, stricmp, strtok, is_zero, head_char}

pub data Errno : Type 0 where
  enodev : Errno
  einval : Errno
  enospc : Errno
  enoent : Errno
  eexist : Errno
  eio : Errno
  other : ℕ → Errno

abbrev pub ebadfd : Errno
ebadfd = other 77

abbrev pub enotdir : Errno
enotdir = other 20

-- The other fields are only copied.
pub record Stat : Type 0 where
  pub st_ino : ℕ
  pub st_mode : ℕ
  pub st_size : ℕ
  pub st_private : ℕ

-- What `readdir` gives.
pub data Entry : Type 0 where
  found : List ℕ → Stat → Entry
  failed : Errno → Entry

-- A driver is the address of its `iodriver`.
pub record FileSystem : Type 0 where
  pub root_st : Stat
  pub case_sensitive : Bool
  pub readdir : ℕ → Stat → ℕ → Entry

pub record Mount : Type 0 where
  pub driver : ℕ
  pub fs : FileSystem
  pub name : List ℕ
  pub rootdir : Stat
  pub ino : ℕ

pub record Vfs : Type 0 where
  pub root_mount : Option Mount
  pub mounts : List Mount
  pub capacity : ℕ

pub data Result {ℓ} (A : Type ℓ) : Type ℓ where
  ok : A → Result A
  err : Errno → Result A

-- `"/"`
abbrev pub slash : List ℕ
slash = 47 ∷ []

unfoldable pub is_directory : Stat → Bool
unfolding isset_bit_int
is_directory st = isset_bit_int st.st_mode 0x4000

unfoldable pub same_name : FileSystem → List ℕ → List ℕ → Bool
same_name fs name filename =
    if fs.case_sensitive then is_zero (strcmp name filename) else is_zero (stricmp name filename)

-- The loop over the entries of a directory from index `i` on. No result is that the fuel has run
-- out.
unfoldable pub find_entry : ℕ → Mount → Stat → List ℕ → ℕ → Option (Result Stat)
find_entry zero mount dir filename i = none
find_entry (suc fuel) mount dir filename i =
    let rest = find_entry fuel mount dir filename (i + 1) in
    elim (mount.fs.readdir mount.driver dir i) [
      | failed e ↦ some (err e)
      | found name st ↦ if same_name mount.fs name filename then some (ok st) else rest
    ]

-- The first mount with this inode number.
unfoldable pub mount_at : List Mount → ℕ → Option Mount
mount_at [] ino = none
mount_at (m ∷ mounts) ino = let rest = mount_at mounts ino in if m.ino == ino then some m else rest

-- `mount` and `dir` once the entry has been found.
unfoldable pub enter : List Mount → Mount → Stat → Stat → Mount × Stat
unfolding is_directory mount_at
enter mounts mount dir st =
    let inside : Mount × Stat = elim (mount_at mounts st.st_ino) [
      | some m ↦ (m, m.rootdir)
      | none ↦ (mount, st)
    ] in
    if is_directory st then inside else (mount, dir)

-- The loop over the names. The result is `mount` and `f->st`.
unfoldable pub walk :
    ℕ → List Mount → List (List ℕ) → Mount → Stat → Stat → Option (Result (Mount × Stat))
unfolding find_entry enter
walk fuel mounts [] mount dir st = some (ok (mount, st))
walk fuel mounts (filename ∷ names) mount dir st = find_entry fuel mount dir filename 0 >>= (λ r.
    elim r [
      | err e ↦ some (err e)
      | ok st' ↦
          walk fuel mounts names (enter mounts mount dir st').0 (enter mounts mount dir st').1 st'
    ])

-- A token, and those of what is left of the string.
unfoldable pub names_of : (List ℕ → List (List ℕ)) → List ℕ × Option (List ℕ) → List (List ℕ)
names_of rest ([], last) = []
names_of rest (c ∷ token, none) = (c ∷ token) ∷ []
names_of rest (c ∷ token, some str) = (c ∷ token) ∷ rest str

-- The names that `strtok` gives up to an empty one or the end. Each is cut from the string.
unfoldable pub path_names : ℕ → List ℕ → List (List ℕ)
unfolding names_of
path_names zero str = []
path_names (suc fuel) str = names_of (path_names fuel) (strtok str slash)

-- `fn[0] == '/' ? fn + 1 : fn`
unfoldable pub skip_slash : List ℕ → List ℕ
skip_slash [] = []
skip_slash (c ∷ path) = if c == 47 then path else c ∷ path

-- What is written to `out_mount` and `out_st` after the walk.
abbrev pub report : Result (Mount × Stat) → Result (Option Mount × Stat)
report (err e) = err e
report (ok (mount, st)) = ok (some mount, st)

-- `cwd_mount` and `st` are not used by the code. The first part is what `out_mount` becomes, if it
-- is written.
unfoldable pub vfs_stat : ℕ → Vfs → Option (List ℕ) → Option (Result (Option Mount × Stat))
unfolding walk
vfs_stat fuel vfs path = elim vfs.root_mount [
  | none ↦ some (err enodev)
  | some root ↦ elim path [
    | none ↦ some (err einval)
    | some name ↦
        if strlen name == 0
        then some (err einval)
        else if is_zero (strcmp name slash)
        then some (ok (none, root.rootdir))
        else (walk fuel vfs.mounts (path_names (strlen name + 1) (skip_slash name)) root
              root.rootdir root.rootdir
            >>= λ r. some (report r))
  ]
]

-- The last part of `vfs_mount`, once the mount point has been found.
unfoldable pub add_mount : ℕ → FileSystem → List ℕ → Vfs → Stat → Option Errno × Vfs
unfolding mount_at
add_mount driver fs path vfs st = elim (mount_at vfs.mounts st.st_ino) [
  | some m ↦ (some eexist, vfs)
  | none ↦ (
    none,
    record vfs {
      mounts =
          vfs.mounts
          ++ record {
            driver = driver;
            fs = fs;
            name = take 256 path;
            rootdir = fs.root_st;
            ino = st.st_ino;
          }
            ∷ [];
    },
  )
]

-- `vfs_mount` with what `vfs_stat` gives.
unfoldable pub mount_found :
    ℕ → FileSystem → List ℕ → Vfs → Result (Option Mount × Stat) → Option Errno × Vfs
unfolding add_mount
mount_found driver fs path vfs (err e) = (some enoent, vfs)
mount_found driver fs path vfs (ok (mount, st)) = add_mount driver fs path vfs st

-- `vfs_mount` once the root is there and the pointers are not NULL, but for the driver's.
unfoldable pub mount_checked : ℕ → ℕ → FileSystem → List ℕ → Vfs → Option (Option Errno × Vfs)
unfolding vfs_stat mount_found
mount_checked fuel driver fs path vfs =
    if driver == 0
    then some (some einval, vfs)
    else if length vfs.mounts == vfs.capacity
    then some (some enospc, vfs)
    else if strlen path == 0 || not (head_char path == 47)
    then some (some einval, vfs)
    else (vfs_stat fuel vfs (some path) >>= λ r. some (mount_found driver fs path vfs r))

-- NULL is 0 for the driver and none for the others. No error is the result 0.
unfoldable pub vfs_mount :
    ℕ → ℕ → Option FileSystem → Option (List ℕ) → Vfs → Option (Option Errno × Vfs)
unfolding mount_checked
vfs_mount fuel driver none path vfs = elim vfs.root_mount [
  | none ↦ some (some enodev, vfs)
  | some root ↦ some (some einval, vfs)
]
vfs_mount fuel driver (some fs) none vfs = elim vfs.root_mount [
  | none ↦ some (some enodev, vfs)
  | some root ↦ some (some einval, vfs)
]
vfs_mount fuel driver (some fs) (some path) vfs = elim vfs.root_mount [
  | none ↦ some (some enodev, vfs)
  | some root ↦ mount_checked fuel driver fs path vfs
]
