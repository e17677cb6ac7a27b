-- ===== src/Vfs/Mounts.antt =====
-- The table of mounts of kernel/modules/vfs.c.
use dos.Prelude.{
  Bool, Bool-cases, List, Option, Option-cases, [], ap, ap₂, arith, false, if◌then◌else◌, inl, inr,
  length, length-append, none, not, refl, some, subst, sym, take, true, ℕ, ◌++◌, ◌==◌, ◌||◌, ◌∙◌,
  ◌∷◌, ◌≡◌, ◌≢◌, ◌≤◌,
}
use mathlib.Core.Option.{some-ne-none}
use mathlib.Core.Bool.{true≢false}
use dos.Cstring.{strlen, head_char}
use dos.Cstring.Tokens.{strlen_lem}
use dos.Vfs.{
  Errno, enodev, einval, enospc, enoent, eexist, Stat, FileSystem, Mount, Vfs, Result, ok, err,
  mount_at, add_mount, mount_found, mount_checked, vfs_mount, vfs_stat,
}

-- No mount has this inode number.
abbrev pub Fresh : ℕ → List Mount → Type 0
Fresh ino [] = Unit {0}
Fresh ino (m ∷ mounts) = (m.ino ≢ ino) × Fresh ino mounts

-- No two mounts have the same.
abbrev pub Unique : List Mount → Type 0
Unique [] = Unit {0}
Unique (m ∷ mounts) = Fresh m.ino mounts × Unique mounts

pub record IsValid (vfs : Vfs) : Type 0 where
  pub room : length vfs.mounts ≤ vfs.capacity
  pub unique : Unique vfs.mounts

pub mount_at-Fresh : (mounts : List Mount) (ino : ℕ) → mount_at mounts ino ≡ none → Fresh ino mounts
unfolding mount_at
mount_at-Fresh [] ino e = tt
mount_at-Fresh (m ∷ mounts) ino e = elim (Bool-cases (m.ino == ino)) [
  | inl here ↦
      absurd
        (some-ne-none m (subst (λ b. (if b then some m else mount_at mounts ino) ≡ none) here e))
  | inr elsewhere ↦ (
    (λ e. absurd (ground (arith, e, elsewhere))),
    mount_at-Fresh mounts ino
        (subst (λ b. (if b then some m else mount_at mounts ino) ≡ none) elsewhere e),
  )
]

Fresh-append :
    (mounts : List Mount) (m : Mount) (ino : ℕ)
    → Fresh ino mounts
    → m.ino ≢ ino
    → Fresh ino (mounts ++ m ∷ [])
Fresh-append [] m ino fresh other = (other, tt)
Fresh-append (n ∷ mounts) m ino (first, fresh) other =
    (first, Fresh-append mounts m ino fresh other)

Unique-append :
    (mounts : List Mount) (m : Mount)
    → Unique mounts
    → Fresh m.ino mounts
    → Unique (mounts ++ m ∷ [])
Unique-append [] m unique fresh = (tt, tt)
Unique-append (n ∷ mounts) m (first, unique) (other, fresh) =
    (Fresh-append mounts m n.ino first (λ e. other (sym e)), Unique-append mounts m unique fresh)

pub mount_at-append :
    (mounts : List Mount) (m : Mount)
    → Fresh m.ino mounts
    → mount_at (mounts ++ m ∷ []) m.ino ≡ some m
unfolding mount_at
mount_at-append [] m fresh = let same : (m.ino == m.ino) ≡ true = ground arith in rw same refl
mount_at-append (n ∷ mounts) m (other, fresh) =
    let different : (n.ino == m.ino) ≡ false = ground (arith, other) in
    rw different (mount_at-append mounts m fresh)

-- The mount that `vfs_mount` makes.
abbrev pub new_mount : ℕ → FileSystem → List ℕ → Stat → Mount
new_mount driver fs path st = record {
  driver = driver;
  fs = fs;
  name = take 256 path;
  rootdir = fs.root_st;
  ino = st.st_ino;
}

-- What lets `vfs_mount` look for the path: a driver, room in the table and an absolute path.
abbrev pub IsReady : ℕ → List ℕ → Vfs → Type 0
IsReady driver path vfs = (driver ≢ 0) × (length vfs.mounts ≢ vfs.capacity) × (head_char path ≡ 47)

-- What `vfs_mount` comes to, where `result` is what `vfs_stat` gives for the path: an error, each for
-- the first reason there is and everything as it was, or the file system mounted at the inode of the
-- path, where it is the one that is found.
pub data Outcome (driver : ℕ) (fs : FileSystem) (path : List ℕ) (vfs : Vfs)
    (result : Result (Option Mount × Stat)) : Option Errno → Vfs → Type 0 where
  no_driver : driver ≡ 0 → Outcome driver fs path vfs result (some einval) vfs
  full :
      driver ≢ 0
      → length vfs.mounts ≡ vfs.capacity
      → Outcome driver fs path vfs result (some enospc) vfs
  not_absolute :
      driver ≢ 0
      → length vfs.mounts ≢ vfs.capacity
      → head_char path ≢ 47
      → Outcome driver fs path vfs result (some einval) vfs
  not_there :
      (e : Errno)
      → IsReady driver path vfs
      → result ≡ err e
      → Outcome driver fs path vfs result (some enoent) vfs
  taken :
      (mount : Option Mount) (st : Stat)
      → IsReady driver path vfs
      → result ≡ ok (mount, st)
      → ¬ Fresh st.st_ino vfs.mounts
      → Outcome driver fs path vfs result (some eexist) vfs
  mounted :
      (mount : Option Mount) (st : Stat)
      → IsReady driver path vfs
      → result ≡ ok (mount, st)
      → Fresh st.st_ino vfs.mounts
      → mount_at (vfs.mounts ++ new_mount driver fs path st ∷ []) st.st_ino
        ≡ some (new_mount driver fs path st)
      → Outcome driver fs path vfs result none
          (record vfs { mounts = vfs.mounts ++ new_mount driver fs path st ∷ [] })

mount_at-not_Fresh :
    (mounts : List Mount) (ino : ℕ) (m : Mount) → mount_at mounts ino ≡ some m → ¬ Fresh ino mounts
unfolding mount_at
mount_at-not_Fresh [] ino m e fresh = absurd (some-ne-none m (sym e))
mount_at-not_Fresh (n ∷ mounts) ino m e (other, fresh) =
    let different : (n.ino == ino) ≡ false = ground (arith, other) in
    mount_at-not_Fresh mounts ino m
      (subst (λ b. (if b then some n else mount_at mounts ino) ≡ some m) different e) fresh

-- The mounts stay within the table and at different inodes.
Outcome-IsValid :
    {driver : ℕ} {fs : FileSystem} {path : List ℕ} {vfs vfs' : Vfs}
    {result : Result (Option Mount × Stat)} {e : Option Errno}
    → IsValid vfs
    → Outcome driver fs path vfs result e vfs'
    → IsValid vfs'
Outcome-IsValid valid (no_driver e) = valid
Outcome-IsValid valid (full given e) = valid
Outcome-IsValid valid (not_absolute given room e) = valid
Outcome-IsValid valid (not_there e ready missing) = valid
Outcome-IsValid valid (taken mount st ready there other) = valid
Outcome-IsValid {driver} {fs} {path} {vfs} valid
      (mounted mount st (given, room, absolute) there free found) =
    record {
      room =
          let total = length-append vfs.mounts (new_mount driver fs path st ∷ []) in
          let low = valid.room in omega (arith, total, low, room);
      unique = Unique-append vfs.mounts (new_mount driver fs path st) valid.unique free;
    }

mount_found-Outcome :
    (driver : ℕ) (fs : FileSystem) (path : List ℕ) (vfs : Vfs)
    (result : Result (Option Mount × Stat))
    → IsReady driver path vfs
    → (e : Option Errno) × (vfs' : Vfs) × (mount_found driver fs path vfs result ≡ (e, vfs'))
      × Outcome driver fs path vfs result e vfs'
unfolding mount_found add_mount
mount_found-Outcome driver fs path vfs (err e) ready =
    (some enoent, vfs, refl, not_there e ready refl)
mount_found-Outcome driver fs path vfs (ok (mount, st)) ready =
    elim (Option-cases (mount_at vfs.mounts st.st_ino)) [
      | inr (m, there) ↦ (
        some eexist,
        vfs,
        rw (add_mount, there) refl,
        taken mount st ready refl (mount_at-not_Fresh vfs.mounts st.st_ino m there),
      )
      | inl free ↦ (
        none,
        record vfs { mounts = vfs.mounts ++ new_mount driver fs path st ∷ [] },
        rw (add_mount, free) refl,
        mounted mount st ready refl (mount_at-Fresh vfs.mounts st.st_ino free) (
            mount_at-append vfs.mounts (new_mount driver fs path st)
              (mount_at-Fresh vfs.mounts st.st_ino free)),
      )
    ]

-- The test for an absolute path.
relative_path :
    (path : List ℕ) → (strlen path == 0 || not (head_char path == 47)) ≡ true → head_char path ≢ 47
relative_path [] e = λ head. absurd (omega (arith, head))
relative_path (c ∷ path) e = λ head.
    let size = strlen_lem (c ∷ path) in
    let filled : (strlen (c ∷ path) == 0) ≡ false = ground (arith, size) in
    let starts : (c == 47) ≡ true = ground (arith, head) in
    absurd (true≢false (sym e ∙ ap₂ (λ a b. a || not b) filled starts))

absolute_path :
    (path : List ℕ) → (strlen path == 0 || not (head_char path == 47)) ≡ false → head_char path ≡ 47
absolute_path path e = elim (Bool-cases (head_char path == 47)) [
  | inl same ↦ ground (arith, same)
  | inr other ↦
      let relative : (strlen path == 0 || not (head_char path == 47)) ≡ true =
        rw other (or-true (strlen path == 0)) in
      absurd (true≢false (sym relative ∙ e))
]
  where
    or-true : (b : Bool) → (b || true) ≡ true
    or-true true = refl
    or-true false = refl

mount_checked-Outcome :
    (fuel driver : ℕ) (fs : FileSystem) (path : List ℕ) (vfs : Vfs)
    (result : Result (Option Mount × Stat))
    → vfs_stat fuel vfs (some path) ≡ some result
    → (e : Option Errno) × (vfs' : Vfs) × (mount_checked fuel driver fs path vfs ≡ some (e, vfs'))
      × Outcome driver fs path vfs result e vfs'
unfolding mount_checked
mount_checked-Outcome fuel driver fs path vfs result there = elim (Bool-cases (driver == 0)) [
  | inl null ↦ (some einval, vfs, rw null refl, no_driver (ground (arith, null)))
  | inr given ↦
      let some_driver : driver ≢ 0 = λ n. absurd (ground (arith, n, given)) in
      elim (Bool-cases (length vfs.mounts == vfs.capacity)) [
        | inl e ↦ (some enospc, vfs, rw (given, e) refl, full some_driver (ground (arith, e)))
        | inr room ↦ elim (Bool-cases (strlen path == 0 || not (head_char path == 47))) [
          | inl relative ↦ (
            some einval,
            vfs,
            rw (given, room, relative) refl,
            not_absolute some_driver (λ n. absurd (ground (arith, n, room)))
                (relative_path path relative),
          )
          | inr absolute ↦
              let (e, vfs', same, outcome) =
                mount_found-Outcome driver fs path vfs result (
                  some_driver,
                  λ n. absurd (ground (arith, n, room)),
                  absolute_path path absolute,
                ) in
              (e, vfs', rw (mount_checked, given, room, absolute, there) (ap some same), outcome)
        ]
      ]
]

when_some :
    (o : Option Mount) (root : Mount) (x y : Option (Option Errno × Vfs))
    → o ≡ some root
    → (elim o as (λ z. Option (Option Errno × Vfs)) [ none ↦ x | some m ↦ y ]) ≡ y
when_some none root x y e = absurd (some-ne-none root (sym e))
when_some (some m) root x y e = refl

pub initialised :
    (fuel driver : ℕ) (fs : FileSystem) (path : List ℕ) (vfs : Vfs) (root : Mount)
    → vfs.root_mount ≡ some root
    → vfs_mount fuel driver (some fs) (some path) vfs ≡ mount_checked fuel driver fs path vfs
unfolding vfs_mount
initialised fuel driver fs path vfs root e =
    when_some vfs.root_mount root (some (some enodev, vfs)) (mount_checked fuel driver fs path vfs)
      e

-- In an initialised file system, when `vfs_stat` of the path ends, so does `vfs_mount`. It changes
-- nothing when it refuses, which it does for the first of these reasons that there is: no driver
-- (EINVAL), no room in the table (ENOSPC), a path that is not absolute (EINVAL), a path that
-- `vfs_stat` does not find (ENOENT), a mount at the same inode (EEXIST). Otherwise it adds the mount,
-- which is then the one found at the inode of the path. Either way the mounts stay within their
-- table, no two of them at the same inode.
pub vfs_mount_lem :
    (fuel driver : ℕ) (fs : FileSystem) (path : List ℕ) (vfs : Vfs) (root : Mount)
    (result : Result (Option Mount × Stat))
    → IsValid vfs
    → vfs.root_mount ≡ some root
    → vfs_stat fuel vfs (some path) ≡ some result
    → (e : Option Errno) × (vfs' : Vfs) × (vfs_mount fuel driver (some fs) (some path) vfs
        ≡ some (e, vfs'))
      × Outcome driver fs path vfs result e vfs'
      × IsValid vfs'
vfs_mount_lem fuel driver fs path vfs root result valid rooted there =
    let (e, vfs', same, outcome) = mount_checked-Outcome fuel driver fs path vfs result there in
    (
      e,
      vfs',
      initialised fuel driver fs path vfs root rooted ∙ same,
      outcome,
      Outcome-IsValid valid outcome,
    )
