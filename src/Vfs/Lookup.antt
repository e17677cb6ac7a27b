-- ===== src/Vfs/Lookup.antt =====
-- A description of what a path leads to, independent of the code, that `vfs_stat` of
-- kernel/modules/vfs.c meets.
use dos.Prelude.{
  Bool-cases, List, Option-cases, [], ap, arith, false, if◌then◌else◌, inl, inr, none, refl, some,
  subst, suc, sym, true, ℕ, ◌%◌, ◌+◌, ◌/◌, ◌==◌, ◌∙◌, ◌∷◌, ◌≡◌, ◌≢◌, ◌≤◌,
}
use mathlib.Core.Bool.{true≢false}
use mathlib.Core.Option.{some-ne-none, some-injective}
use dos.Prelude.Int.{ℤ, pos, negsuc}
use dos.Bits.Laws.{isset_bit_int-one_shl}
use dos.Cstring.{IsString, strcmp, stricmp, is_zero}
use dos.Vfs.{
  Errno, Stat, found, failed, FileSystem, Mount, Vfs, Result, ok, err, is_directory, same_name,
  mount_at, enter, report, vfs_stat,
}
use dos.Vfs.Path.{IsName, AllNames, join}
use dos.Vfs.Mounts.{Fresh, mount_at-Fresh}
use dos.Vfs.Walk.{
  Search, hit, miss, next, Steps, arrived, lost, step, IsFinite, AllFinite, vfs_stat-Steps,
}

-- The mode has the bit of S_IFDIR, number 14.
abbrev pub HasDirectoryBit : Stat → Type 0
HasDirectoryBit st = st.st_mode / 16384 % 2 ≡ 1

-- Names agree by `strcmp`, or by `stricmp` where the file system ignores the case.
pub data Agree (fs : FileSystem) (name filename : List ℕ) : Type 0 where
  exactly : fs.case_sensitive ≡ true → strcmp name filename ≡ pos 0 → Agree fs name filename
  ignoring_case : fs.case_sensitive ≡ false → stricmp name filename ≡ pos 0 → Agree fs name filename

-- The first mount with this inode number.
pub data MountedAt (ino : ℕ) (m : Mount) : List Mount → Type 0 where
  first : {mounts : List Mount} → m.ino ≡ ino → MountedAt ino m (m ∷ mounts)
  behind :
      {n : Mount} {mounts : List Mount}
      → n.ino ≢ ino
      → MountedAt ino m mounts
      → MountedAt ino m (n ∷ mounts)

-- From index `i` on, the first entry of a directory whose name agrees, or the error that comes
-- before there is one, stands behind `k` other entries.
pub data Entries (mount : Mount) (dir : Stat) (filename : List ℕ)
    : ℕ → ℕ → Result Stat → Type 0 where
  there :
      {i : ℕ} {name : List ℕ} {st : Stat}
      → mount.fs.readdir mount.driver dir i ≡ found name st
      → Agree mount.fs name filename
      → Entries mount dir filename i 0 (ok st)
  at_end :
      {i : ℕ} {e : Errno}
      → mount.fs.readdir mount.driver dir i ≡ failed e
      → Entries mount dir filename i 0 (err e)
  past :
      {i k : ℕ} {name : List ℕ} {st : Stat} {r : Result Stat}
      → mount.fs.readdir mount.driver dir i ≡ found name st
      → ¬ Agree mount.fs name filename
      → Entries mount dir filename (i + 1) k r
      → Entries mount dir filename i (suc k) r

-- What names lead to, from a directory `dir` of a file system on, where `st` is the last entry: an
-- entry with the bit of a directory on which a file system is mounted leads to the root of that one,
-- another with that bit becomes the directory, and behind an entry without it the search goes on in
-- the same directory. Each search passes at most `bound` entries.
pub data Leads (bound : ℕ) (mounts : List Mount)
    : List (List ℕ) → Mount → Stat → Stat → Result (Mount × Stat) → Type 0 where
  no_more : {mount : Mount} {dir st : Stat} → Leads bound mounts [] mount dir st (ok (mount, st))
  missing :
      {filename : List ℕ} {names : List (List ℕ)} {mount : Mount} {dir st : Stat} {k : ℕ}
      {e : Errno}
      → Entries mount dir filename 0 k (err e)
      → k ≤ bound
      → Leads bound mounts (filename ∷ names) mount dir st (err e)
  into_mount :
      {filename : List ℕ} {names : List (List ℕ)} {mount m : Mount} {dir st st' : Stat} {k : ℕ}
      {r : Result (Mount × Stat)}
      → Entries mount dir filename 0 k (ok st')
      → k ≤ bound
      → HasDirectoryBit st'
      → MountedAt st'.st_ino m mounts
      → Leads bound mounts names m m.rootdir st' r
      → Leads bound mounts (filename ∷ names) mount dir st r
  into_directory :
      {filename : List ℕ} {names : List (List ℕ)} {mount : Mount} {dir st st' : Stat} {k : ℕ}
      {r : Result (Mount × Stat)}
      → Entries mount dir filename 0 k (ok st')
      → k ≤ bound
      → HasDirectoryBit st'
      → Fresh st'.st_ino mounts
      → Leads bound mounts names mount st' st' r
      → Leads bound mounts (filename ∷ names) mount dir st r
  past_file :
      {filename : List ℕ} {names : List (List ℕ)} {mount : Mount} {dir st st' : Stat} {k : ℕ}
      {r : Result (Mount × Stat)}
      → Entries mount dir filename 0 k (ok st')
      → k ≤ bound
      → ¬ HasDirectoryBit st'
      → Leads bound mounts names mount dir st' r
      → Leads bound mounts (filename ∷ names) mount dir st r

zero_of : (a : ℤ) → is_zero a ≡ true → a ≡ pos 0
zero_of (pos n) e = let none_left : n ≡ 0 = ground (arith, e) in ap pos none_left
zero_of (negsuc n) e = absurd (true≢false (sym e))

same_name-Agree :
    (fs : FileSystem) (name filename : List ℕ)
    → same_name fs name filename ≡ true
    → Agree fs name filename
unfolding same_name
same_name-Agree fs name filename e = elim (Bool-cases fs.case_sensitive) [
  | inl sensitive ↦ exactly sensitive (
      zero_of (strcmp name filename) (
        subst
          (λ b.
            (if b then is_zero (strcmp name filename) else is_zero (stricmp name filename)) ≡ true)
          sensitive e))
  | inr folded ↦ ignoring_case folded (
      zero_of (stricmp name filename) (
        subst
          (λ b.
            (if b then is_zero (strcmp name filename) else is_zero (stricmp name filename)) ≡ true)
          folded e))
]

Agree-same_name :
    (fs : FileSystem) (name filename : List ℕ)
    → Agree fs name filename
    → same_name fs name filename ≡ true
unfolding same_name
Agree-same_name fs name filename (exactly sensitive e) = rw (sensitive, e) refl
Agree-same_name fs name filename (ignoring_case folded e) = rw (folded, e) refl

Search-Entries :
    {mount : Mount} {dir : Stat} {filename : List ℕ} {i k : ℕ} {r : Result Stat}
    → Search mount dir filename i k r
    → Entries mount dir filename i k r
Search-Entries {mount} {dir} {filename} (hit {i} {name} entry same) =
    there entry (same_name-Agree mount.fs name filename same)
Search-Entries (miss entry) = at_end entry
Search-Entries {mount} {dir} {filename} (next {i} {k} {name} entry different rest) =
    past entry
      (λ agree. true≢false (sym (Agree-same_name mount.fs name filename agree) ∙ different))
      (Search-Entries rest)

directory_bit : (st : Stat) → is_directory st ≡ (st.st_mode / 16384 % 2 == 1)
unfolding is_directory
directory_bit st = isset_bit_int-one_shl st.st_mode 14

mount_at-MountedAt :
    (mounts : List Mount) (ino : ℕ) (m : Mount)
    → mount_at mounts ino ≡ some m
    → MountedAt ino m mounts
unfolding mount_at
mount_at-MountedAt [] ino m e = absurd (some-ne-none m (sym e))
mount_at-MountedAt (n ∷ mounts) ino m e = elim (Bool-cases (n.ino == ino)) [
  | inl here ↦
      let same : some n ≡ some m =
        subst (λ b. (if b then some n else mount_at mounts ino) ≡ some m) here e in
      subst (λ t. MountedAt ino m (t ∷ mounts)) (sym (some-injective n m same))
        (first (ap (λ (t : Mount). t.ino) (sym (some-injective n m same)) ∙ ground (arith, here)))
  | inr elsewhere ↦
      behind (λ e. absurd (ground (arith, e, elsewhere)))
        (mount_at-MountedAt mounts ino m
          (subst (λ b. (if b then some n else mount_at mounts ino) ≡ some m) elsewhere e))
]

module _ (mounts : List Mount) (mount : Mount) (dir st : Stat) where
  enter_mount :
      (m : Mount)
      → is_directory st ≡ true
      → mount_at mounts st.st_ino ≡ some m
      → enter mounts mount dir st ≡ (m, m.rootdir)
  unfolding enter
  enter_mount m directory mounted = rw (directory, mounted) refl

  enter_directory :
      is_directory st ≡ true
      → mount_at mounts st.st_ino ≡ none
      → enter mounts mount dir st ≡ (mount, st)
  unfolding enter
  enter_directory directory plain = rw (directory, plain) refl

  enter_file : is_directory st ≡ false → enter mounts mount dir st ≡ (mount, dir)
  unfolding enter
  enter_file file = rw file refl

-- One step, when what is behind it is described.
step-Leads :
    {bound : ℕ} {mounts : List Mount} {filename : List ℕ} {names : List (List ℕ)} {mount : Mount}
    {dir st : Stat} {k : ℕ} {r : Result (Mount × Stat)} (st' : Stat)
    → Entries mount dir filename 0 k (ok st')
    → k ≤ bound
    → Leads bound mounts names (enter mounts mount dir st').0 (enter mounts mount dir st').1 st' r
    → Leads bound mounts (filename ∷ names) mount dir st r
step-Leads {bound} {mounts} {filename} {names} {mount} {dir} {st} {k} {r} st' ends low rest =
    elim (Bool-cases (is_directory st')) [
      | inr file ↦
          past_file ends low
            (λ bit.
              let set : (st'.st_mode / 16384 % 2 == 1) ≡ true = ground (arith, bit) in
              true≢false (sym (directory_bit st' ∙ set) ∙ file))
            (subst (λ (p : Mount × Stat). Leads bound mounts names p.0 p.1 st' r)
              (enter_file mounts mount dir st' file) rest)
      | inl directory ↦
          let set : (st'.st_mode / 16384 % 2 == 1) ≡ true = sym (directory_bit st') ∙ directory in
          let bit : st'.st_mode / 16384 % 2 ≡ 1 = ground (arith, set) in
          elim (Option-cases (mount_at mounts st'.st_ino)) [
            | inl plain ↦ into_directory ends low bit (mount_at-Fresh mounts st'.st_ino plain) (
                subst (λ (p : Mount × Stat). Leads bound mounts names p.0 p.1 st' r)
                  (enter_directory mounts mount dir st' directory plain) rest)
            | inr (m, mounted) ↦
                into_mount ends low bit (mount_at-MountedAt mounts st'.st_ino m mounted) (
                  subst (λ (p : Mount × Stat). Leads bound mounts names p.0 p.1 st' r)
                    (enter_mount mounts mount dir st' m directory mounted) rest)
          ]
    ]

Steps-Leads :
    {bound : ℕ} {mounts : List Mount} {names : List (List ℕ)} {mount : Mount} {dir st : Stat}
    {r : Result (Mount × Stat)}
    → Steps bound mounts names mount dir st r
    → Leads bound mounts names mount dir st r
Steps-Leads arrived = no_more
Steps-Leads (lost ends low) = missing (Search-Entries ends) low
Steps-Leads (step {st' = st'} ends low rest) =
    step-Leads st' (Search-Entries ends) low (Steps-Leads rest)

-- In an initialised file system whose directories all end, `vfs_stat` of an absolute path ends, and
-- it gives what the path leads to: the error of the first search that fails, or the file system and
-- the last entry that the names lead to.
pub vfs_stat_lem :
    (bound : ℕ) (vfs : Vfs) (root : Mount) (name : List ℕ) (names : List (List ℕ))
    → vfs.root_mount ≡ some root
    → IsFinite bound root
    → AllFinite bound vfs.mounts
    → IsName name
    → AllNames names
    → IsString (join (name ∷ names))
    → (r : Result (Mount × Stat)) × Leads bound vfs.mounts
        (name ∷ names)
        root
        root.rootdir
        root.rootdir
        r
      × (vfs_stat (suc bound) vfs (some (join (name ∷ names))) ≡ some (report r))
vfs_stat_lem bound vfs root name names mounted finite all is are string =
    let (r, steps, ends) =
      vfs_stat-Steps bound vfs root name names mounted finite all is are string in
    (r, Steps-Leads steps, ends)
