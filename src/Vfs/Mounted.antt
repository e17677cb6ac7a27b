-- ===== src/Vfs/Mounted.antt =====
-- `vfs_mount` and then `vfs_stat` of kernel/modules/vfs.c with the same path.
use dos.Prelude.{
  List, Option, [], ap, arith, false, length, none, refl, some, suc, true, ℕ, ◌++◌, ◌==◌, ◌∙◌, ◌∷◌,
  ◌≡◌, ◌≢◌, ◌≤◌,
}
use dos.Cstring.{IsString, strlen, strcmp, head_char}
use dos.Cstring.Compare.{strcmp-is_zero}
use dos.Cstring.Tokens.{strlen_lem}
use dos.Vfs.{
  Stat, FileSystem, Mount, Vfs, ok, slash, is_directory, mount_at, enter, walk, add_mount,
  mount_found, mount_checked, vfs_mount, vfs_stat,
}
use dos.Vfs.Path.{IsName, join, path_names_lem}
use dos.Vfs.Walk.{Search, Steps, arrived, step, walk-Steps, vfs_stat-walk, other_path, not_zero}
use dos.Vfs.Mounts.{new_mount, initialised, mount_at-append, mount_at-Fresh}

-- A path with one name that the root directory has.
pub stat_one :
    (bound : ℕ) (vfs : Vfs) (root : Mount) (name : List ℕ) (st : Stat) (k : ℕ)
    → vfs.root_mount ≡ some root
    → IsName name
    → IsString (join (name ∷ []))
    → Search root root.rootdir name 0 k (ok st)
    → k ≤ bound
    → vfs_stat (suc bound) vfs (some (join (name ∷ [])))
      ≡ some (ok (some (enter vfs.mounts root root.rootdir st).0, st))
stat_one bound vfs root name st k rooted is string ends low =
    let path = join (name ∷ []) in
    let size = strlen_lem path in
    let filled : (strlen path == 0) ≡ false = ground (arith, size) in
    let other = not_zero (strcmp path slash) (λ e.
      other_path name [] is
        ((strcmp-is_zero path slash string (omega arith, omega arith, tt)).0 e)) in
    let steps : Steps bound vfs.mounts (name ∷ []) root root.rootdir root.rootdir
        (ok ((enter vfs.mounts root root.rootdir st).0, st)) =
      step ends low arrived in
    vfs_stat-walk (suc bound) vfs root path (ok ((enter vfs.mounts root root.rootdir st).0, st))
      rooted filled other
      (ap (λ l. walk (suc bound) vfs.mounts l root root.rootdir root.rootdir)
          (path_names_lem name [] is tt)
        ∙ walk-Steps steps)

enter-mounted :
    (mounts : List Mount) (mount : Mount) (dir st : Stat) (m : Mount)
    → is_directory st ≡ true
    → mount_at mounts st.st_ino ≡ some m
    → (enter mounts mount dir st).0 ≡ m
unfolding enter
enter-mounted mounts mount dir st m directory there = rw (directory, there) refl

add_mount-free :
    (driver : ℕ) (fs : FileSystem) (path : List ℕ) (vfs : Vfs) (st : Stat)
    → mount_at vfs.mounts st.st_ino ≡ none
    → add_mount driver fs path vfs st
      ≡ (none, record vfs { mounts = vfs.mounts ++ new_mount driver fs path st ∷ [] })
unfolding add_mount
add_mount-free driver fs path vfs st free = rw (add_mount, free) refl

mount_checked-free :
    (fuel driver : ℕ) (fs : FileSystem) (path : List ℕ) (vfs : Vfs) (mount : Option Mount)
    (st : Stat)
    → driver ≢ 0
    → length vfs.mounts ≢ vfs.capacity
    → (strlen path == 0) ≡ false
    → head_char path ≡ 47
    → vfs_stat fuel vfs (some path) ≡ some (ok (mount, st))
    → mount_at vfs.mounts st.st_ino ≡ none
    → mount_checked fuel driver fs path vfs
      ≡ some (none, record vfs { mounts = vfs.mounts ++ new_mount driver fs path st ∷ [] })
unfolding mount_checked mount_found
mount_checked-free fuel driver fs path vfs mount st given room filled absolute there free =
    let driver_there : (driver == 0) ≡ false = ground (arith, given) in
    let space : (length vfs.mounts == vfs.capacity) ≡ false = ground (arith, room) in
    let starts : (head_char path == 47) ≡ true = ground (arith, absolute) in
    rw (mount_checked, driver_there, space, filled, starts, there)
      (ap some (add_mount-free driver fs path vfs st free))

-- In an initialised file system with room for a mount, a file system is mounted on a directory of
-- the root, where nothing is mounted yet: `vfs_mount` succeeds, and `vfs_stat` of the same path then
-- gives the new mount, together with the entry of the directory it stands on.
pub vfs_stat-vfs_mount :
    (bound driver : ℕ) (fs : FileSystem) (vfs : Vfs) (root : Mount) (name : List ℕ) (st : Stat)
    (k : ℕ)
    → driver ≢ 0
    → length vfs.mounts ≢ vfs.capacity
    → vfs.root_mount ≡ some root
    → IsName name
    → IsString (join (name ∷ []))
    → Search root root.rootdir name 0 k (ok st)
    → k ≤ bound
    → is_directory st ≡ true
    → mount_at vfs.mounts st.st_ino ≡ none
    → (vfs' : Vfs) × (vfs_mount (suc bound) driver (some fs) (some (join (name ∷ []))) vfs
        ≡ some (none, vfs'))
      × (vfs_stat (suc bound) vfs' (some (join (name ∷ [])))
          ≡ some (ok (some (new_mount driver fs (join (name ∷ [])) st), st)))
vfs_stat-vfs_mount bound driver fs vfs root name st k given room rooted is string ends low directory
      free =
    let path = join (name ∷ []) in
    let m = new_mount driver fs path st in
    let size = strlen_lem path in
    let filled : (strlen path == 0) ≡ false = ground (arith, size) in
    let before = stat_one bound vfs root name st k rooted is string ends low in
    let vfs' : Vfs = record vfs { mounts = vfs.mounts ++ m ∷ [] } in
    let found_there = mount_at-append vfs.mounts m (mount_at-Fresh vfs.mounts st.st_ino free) in
    (
      vfs',
      initialised (suc bound) driver fs path vfs root rooted
          ∙ mount_checked-free (suc bound) driver fs path vfs
              (some (enter vfs.mounts root root.rootdir st).0) st given room filled refl before
              free,
      stat_one bound vfs' root name st k rooted is string ends low
          ∙ ap (λ n. some (ok (some n, st)))
              (enter-mounted vfs'.mounts root root.rootdir st m directory found_there),
    )
