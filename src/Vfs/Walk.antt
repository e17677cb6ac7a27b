-- ===== src/Vfs/Walk.antt =====
-- What `vfs_stat` of kernel/modules/vfs.c finds, against a description of the steps of a path.
use dos.Prelude.{
  Bool-cases, List, Option-cases, [], ap, arith, false, if◌then◌else◌, inl, inr, refl, some, subst,
  suc, sym, true, zero, ℕ, ◌+◌, ◌<◌, ◌==◌, ◌∙◌, ◌∷◌, ◌≡◌, ◌≢◌, ◌≤◌, ◌⊎◌,
}
use mathlib.Core.Option.{some-ne-none, some-injective}
use dos.Prelude.Int.{ℤ, pos, negsuc}
use dos.Cstring.{IsString, strlen, strcmp, is_zero}
use dos.Cstring.Compare.{strcmp-is_zero}
use dos.Cstring.Tokens.{strlen_lem}
use dos.Vfs.{
  Errno, Stat, Entry, found, failed, Mount, Vfs, Result, ok, err, slash, same_name, is_directory,
  mount_at, find_entry, enter, walk, path_names, skip_slash, report, vfs_stat,
}
use dos.Vfs.Path.{IsName, AllNames, join, path_names_lem}

-- From index `i` on, the search for a name in a directory comes to its end after `k` other entries.
pub data Search (mount : Mount) (dir : Stat) (filename : List ℕ)
    : ℕ → ℕ → Result Stat → Type 0 where
  hit :
      {i : ℕ} {name : List ℕ} {st : Stat}
      → mount.fs.readdir mount.driver dir i ≡ found name st
      → same_name mount.fs name filename ≡ true
      → Search mount dir filename i 0 (ok st)
  miss :
      {i : ℕ} {e : Errno}
      → mount.fs.readdir mount.driver dir i ≡ failed e
      → Search mount dir filename i 0 (err e)
  next :
      {i k : ℕ} {name : List ℕ} {st : Stat} {r : Result Stat}
      → mount.fs.readdir mount.driver dir i ≡ found name st
      → same_name mount.fs name filename ≡ false
      → Search mount dir filename (i + 1) k r
      → Search mount dir filename i (suc k) r

find_entry-Search :
    {mount : Mount} {dir : Stat} {filename : List ℕ} (fuel : ℕ) {i k : ℕ} {r : Result Stat}
    → Search mount dir filename i k r
    → k < fuel
    → find_entry fuel mount dir filename i ≡ some r
unfolding find_entry
find_entry-Search zero ends enough = absurd (omega (arith, enough))
find_entry-Search (suc fuel) (hit entry same) enough = rw (find_entry, entry, same) refl
find_entry-Search (suc fuel) (miss entry) enough = rw (find_entry, entry) refl
find_entry-Search (suc fuel) (next entry different rest) enough =
    rw (find_entry, entry, different) (find_entry-Search fuel rest (omega (arith, enough)))

Entry-cases :
    (entry : Entry)
    → ((name : List ℕ) × (st : Stat) × (entry ≡ found name st)) ⊎ ((e : Errno) × (entry ≡ failed e))
Entry-cases (found name st) = inl (name, st, refl)
Entry-cases (failed e) = inr (e, refl)

-- A search that meets an error at some index ends there at last.
search_ends :
    (mount : Mount) (dir : Stat) (filename : List ℕ) (left i : ℕ)
    → ((e : Errno) × (mount.fs.readdir mount.driver dir (i + left) ≡ failed e))
    → (k : ℕ) × (r : Result Stat) × (k ≤ left) × Search mount dir filename i k r
search_ends mount dir filename zero i (e, stop) =
    (0, err e, omega arith, miss (ap (mount.fs.readdir mount.driver dir) (omega arith) ∙ stop))
search_ends mount dir filename (suc left) i (e, stop) =
    elim (Entry-cases (mount.fs.readdir mount.driver dir i)) [
      | inr (e', entry) ↦ (0, err e', omega arith, miss entry)
      | inl (name, st, entry) ↦ elim (Bool-cases (same_name mount.fs name filename)) [
        | inl same ↦ (0, ok st, omega arith, hit entry same)
        | inr different ↦
            let further : i + 1 + left ≡ i + suc left = omega arith in
            let (k, r, low, rest) =
              search_ends mount dir filename left (i + 1)
                (e, ap (mount.fs.readdir mount.driver dir) further ∙ stop) in
            (suc k, r, omega (arith, low), next entry different rest)
      ]
    ]

-- In every directory `readdir` gives an error at some index up to `bound`.
abbrev pub IsFinite : ℕ → Mount → Type 0
IsFinite bound mount =
    (dir : Stat)
    → (i : ℕ) × (i ≤ bound) × (e : Errno) × (mount.fs.readdir mount.driver dir i ≡ failed e)

abbrev pub AllFinite : ℕ → List Mount → Type 0
AllFinite bound [] = Unit {0}
AllFinite bound (mount ∷ mounts) = IsFinite bound mount × AllFinite bound mounts

mount_at-IsFinite :
    (bound : ℕ) (mounts : List Mount) (ino : ℕ) (m : Mount)
    → AllFinite bound mounts
    → mount_at mounts ino ≡ some m
    → IsFinite bound m
unfolding mount_at
mount_at-IsFinite bound [] ino m finite e = absurd (some-ne-none m (sym e))
mount_at-IsFinite bound (mount ∷ mounts) ino m (finite, rest) e =
    elim (Bool-cases (mount.ino == ino)) [
      | inl here ↦
          let same : some mount ≡ some m =
            subst (λ b. (if b then some mount else mount_at mounts ino) ≡ some m) here e in
          subst (IsFinite bound) (some-injective mount m same) finite
      | inr elsewhere ↦
          mount_at-IsFinite bound mounts ino m rest
            (subst (λ b. (if b then some mount else mount_at mounts ino) ≡ some m) elsewhere e)
    ]

enter-IsFinite :
    (bound : ℕ) (mounts : List Mount) (mount : Mount) (dir st : Stat)
    → IsFinite bound mount
    → AllFinite bound mounts
    → IsFinite bound (enter mounts mount dir st).0
unfolding enter
enter-IsFinite bound mounts mount dir st finite all = elim (Bool-cases (is_directory st)) [
  | inr file ↦ rw file finite
  | inl directory ↦ elim (Option-cases (mount_at mounts st.st_ino)) [
    | inl plain ↦ rw (directory, plain) finite
    | inr (m, mounted) ↦
        rw (directory, mounted) (mount_at-IsFinite bound mounts st.st_ino m all mounted)
  ]
]

-- The steps of a path: each name is searched in the directory that the steps before lead to, past
-- at most `bound` entries, and leads to a mounted file system, a directory or a file; or the search
-- of one ends with an error.
pub data Steps (bound : ℕ) (mounts : List Mount)
    : List (List ℕ) → Mount → Stat → Stat → Result (Mount × Stat) → Type 0 where
  arrived : {mount : Mount} {dir st : Stat} → Steps bound mounts [] mount dir st (ok (mount, st))
  lost :
      {filename : List ℕ} {names : List (List ℕ)} {mount : Mount} {dir st : Stat} {k : ℕ}
      {e : Errno}
      → Search mount dir filename 0 k (err e)
      → k ≤ bound
      → Steps bound mounts (filename ∷ names) mount dir st (err e)
  step :
      {filename : List ℕ} {names : List (List ℕ)} {mount : Mount} {dir st st' : Stat} {k : ℕ}
      {r : Result (Mount × Stat)}
      → Search mount dir filename 0 k (ok st')
      → k ≤ bound
      → Steps bound mounts names (enter mounts mount dir st').0 (enter mounts mount dir st').1 st' r
      → Steps bound mounts (filename ∷ names) mount dir st r

pub walk-Steps :
    {bound : ℕ} {mounts : List Mount} {names : List (List ℕ)} {mount : Mount} {dir st : Stat}
    {r : Result (Mount × Stat)}
    → Steps bound mounts names mount dir st r
    → walk (suc bound) mounts names mount dir st ≡ some r
unfolding walk
walk-Steps arrived = refl
walk-Steps {bound} (lost ends low) =
    rw (walk, find_entry-Search (suc bound) ends (omega (arith, low))) refl
walk-Steps {bound} (step ends low rest) =
    rw (walk, find_entry-Search (suc bound) ends (omega (arith, low))) (walk-Steps rest)

after_search :
    (bound : ℕ) (mounts : List Mount) (filename : List ℕ) (names : List (List ℕ)) (mount : Mount)
    (dir st : Stat) (k : ℕ) (r : Result Stat)
    → Search mount dir filename 0 k r
    → k ≤ bound
    → ((st' : Stat)
        → (q : Result (Mount × Stat)) × Steps bound mounts names
            (enter mounts mount dir st').0
            (enter mounts mount dir st').1
            st'
            q)
    → (q : Result (Mount × Stat)) × Steps bound mounts (filename ∷ names) mount dir st q
after_search bound mounts filename names mount dir st k (err e) ends low rest =
    (err e, lost ends low)
after_search bound mounts filename names mount dir st k (ok st') ends low rest =
    let (q, steps) = rest st' in (q, step ends low steps)

Steps-end :
    (bound : ℕ) (mounts : List Mount) (names : List (List ℕ)) (mount : Mount) (dir st : Stat)
    → IsFinite bound mount
    → AllFinite bound mounts
    → (r : Result (Mount × Stat)) × Steps bound mounts names mount dir st r
Steps-end bound mounts [] mount dir st finite all = (ok (mount, st), arrived)
Steps-end bound mounts (filename ∷ names) mount dir st finite all =
    let (i, low, e, stop) = finite dir in
    let at : 0 + i ≡ i = omega arith in
    let (k, r, few, ends) =
      search_ends mount dir filename i 0 (e, ap (mount.fs.readdir mount.driver dir) at ∙ stop) in
    after_search bound mounts filename names mount dir st k r ends (omega (arith, low, few)) (λ st'.
      Steps-end bound mounts names (enter mounts mount dir st').0 (enter mounts mount dir st').1 st'
        (enter-IsFinite bound mounts mount dir st' finite all) all)

pub not_zero : (a : ℤ) → a ≢ pos 0 → is_zero a ≡ false
not_zero (pos n) other =
    let some_number : n ≢ 0 = λ e. other (ap pos e) in ground (arith, some_number)
not_zero (negsuc n) other = refl

pub vfs_stat-walk :
    (fuel : ℕ) (vfs : Vfs) (root : Mount) (path : List ℕ) (r : Result (Mount × Stat))
    → vfs.root_mount ≡ some root
    → (strlen path == 0) ≡ false
    → is_zero (strcmp path slash) ≡ false
    → walk fuel vfs.mounts
        (path_names (strlen path + 1) (skip_slash path))
        root
        root.rootdir
        root.rootdir
      ≡ some r
    → vfs_stat fuel vfs (some path) ≡ some (report r)
unfolding vfs_stat
vfs_stat-walk fuel vfs root path r mounted filled other result =
    rw (vfs_stat, mounted, filled, other, result) refl

pub other_path : (name : List ℕ) (names : List (List ℕ)) → IsName name → join (name ∷ names) ≢ slash
other_path [] names is e = absurd is
other_path (c ∷ name) names is e = absurd cc

-- `vfs_stat` of an absolute path ends with what the steps of the path lead to.
pub vfs_stat-Steps :
    (bound : ℕ) (vfs : Vfs) (root : Mount) (name : List ℕ) (names : List (List ℕ))
    → vfs.root_mount ≡ some root
    → IsFinite bound root
    → AllFinite bound vfs.mounts
    → IsName name
    → AllNames names
    → IsString (join (name ∷ names))
    → (r : Result (Mount × Stat)) × Steps bound vfs.mounts
        (name ∷ names)
        root
        root.rootdir
        root.rootdir
        r
      × (vfs_stat (suc bound) vfs (some (join (name ∷ names))) ≡ some (report r))
vfs_stat-Steps bound vfs root name names mounted finite all is are string =
    let (r, steps) =
      Steps-end bound vfs.mounts (name ∷ names) root root.rootdir root.rootdir finite all in
    let path = join (name ∷ names) in
    let size = strlen_lem path in
    let filled : (strlen path == 0) ≡ false = ground (arith, size) in
    let other = not_zero (strcmp path slash) (λ e.
      other_path name names is
        ((strcmp-is_zero path slash string (omega arith, omega arith, tt)).0 e)) in
    (
      r,
      steps,
      vfs_stat-walk (suc bound) vfs root path r mounted filled other (
          ap (λ l. walk (suc bound) vfs.mounts l root root.rootdir root.rootdir)
            (path_names_lem name names is are)
          ∙ walk-Steps steps),
    )
