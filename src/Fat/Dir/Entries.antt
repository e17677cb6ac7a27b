-- ===== src/Fat/Dir/Entries.antt =====
-- The loop of `fat_readdir` of kernel/drivers/fs/fat.c over the entries of the root directory.
use dos.Prelude.{
  Bool-cases, List, Option, [], ap, arith, dec_lt, false, if◌then◌else◌, inl, inr, refl, some,
  subst, suc, sym, true, zero, ℕ, ℕ_discrete, ◌%◌, ◌*◌, ◌+◌, ◌-◌, ◌/◌, ◌<◌, ◌==◌, ◌^◌, ◌∙◌, ◌∷◌,
  ◌≡◌, ◌≤◌,
}
use native.Mathlib.Nat.{
  mod-lt, div-add-mod', mod-eq_of_lt, div-eq_of_lt, mod_self, div_self, mul-add-div_right,
  mul-add-mod_self_right,
}
use dos.Sectors.{scaled-mod}
use dos.Vfs.{Result, err, enoent}
use dos.Fat.{Fat, FatEntry, rootdir_sector}
use dos.Fat.Dir.{
  Found, entry_at, fill_found, found_of, load_sector, is_skipped, take_entry, root_loop,
}

-- The entries with numbers from one on that are not passed over, with `m` entries in a sector.
unfoldable pub entries : (ℕ → ℕ → ℕ) → ℕ → ℕ → ℕ → List FatEntry
entries disk m zero e = []
entries disk m (suc left) e =
    let rest = entries disk m left (e + 1) in
    if is_skipped (disk (e / m)) (32 * (e % m))
    then rest
    else entry_at (disk (e / m)) (32 * (e % m)) ∷ rest

-- The entry with a number in a list, filled in.
unfoldable pub pick : ℕ → ℕ → Fat → List FatEntry → ℕ → Option (Result Found)
pick fuel device fs [] n = some (err enoent)
pick fuel device fs (f ∷ files) zero = found_of (fill_found fuel device fs f)
pick fuel device fs (f ∷ files) (suc n) = pick fuel device fs files n

-- The number behind another, in the same sector or at the start of the next.
module _ (m e : ℕ) (some_entries : 0 < m) where
  next_inside : e % m + 1 < m → ((e + 1) / m ≡ e / m) × ((e + 1) % m ≡ e % m + 1)
  next_inside lt =
      let split : e / m * m + (e % m + 1) ≡ e + 1 = omega (arith, div-add-mod' e m) in
      let none_more = div-eq_of_lt {n = e % m + 1} {m = m} lt in
      let same = mod-eq_of_lt {n = e % m + 1} {m = m} lt in
      let index = mul-add-div_right some_entries (e / m) (e % m + 1) in
      let place = mul-add-mod_self_right (e / m) m (e % m + 1) in
      (
        ap (λ (t : ℕ). t / m) (sym split) ∙ index ∙ omega (arith, none_more),
        ap (λ (t : ℕ). t % m) (sym split) ∙ place ∙ same,
      )

  next_sector : e % m + 1 ≡ m → ((e + 1) / m ≡ e / m + 1) × ((e + 1) % m ≡ 0)
  next_sector full =
      let split : e / m * m + m ≡ e + 1 = omega (arith, div-add-mod' e m) in
      let index = mul-add-div_right some_entries (e / m) m in
      let place = mul-add-mod_self_right (e / m) m m in
      (
        ap (λ (t : ℕ). t / m) (sym split)
            ∙ index
            ∙ ap (λ (t : ℕ). e / m + t) (div_self some_entries),
        ap (λ (t : ℕ). t % m) (sym split) ∙ place ∙ mod_self m,
      )

-- The root directory of a file system: its sectors can be read, and the buffer then holds the bytes of `disk`.
pub record IsRoot (read_sector : ℕ → Option (ℕ → ℕ)) (disk : ℕ → ℕ → ℕ) (fs : Fat) (m total : ℕ)
    : Type 0 where
  pub some_entries : 0 < m
  pub width : fs.params.bytes_per_sector ≡ 32 * m
  pub sectors :
      (e : ℕ) → e < total → read_sector ((rootdir_sector fs + e / m) % 2 ^ 32) ≡ some (disk (e / m))

module _ (read_sector : ℕ → Option (ℕ → ℕ)) (fuel device : ℕ) (fs : Fat) (disk : ℕ → ℕ → ℕ)
    (m total : ℕ) where
  module _ (root : IsRoot read_sector disk fs m total) where
    -- The sector of the entry is in the buffer once `load_sector` is through.
    pub IsReady : ℕ → (ℕ → ℕ) → ℕ → Type 0
    IsReady e io_buffer dir_sector =
        load_sector read_sector fs io_buffer dir_sector (32 * e)
        ≡ some (disk (e / m), (rootdir_sector fs + e / m + 1) % 2 ^ 32)

    place_of : (e : ℕ) → 32 * e % fs.params.bytes_per_sector ≡ 32 * (e % m)
    place_of e =
        ap (λ (t : ℕ). 32 * e % t) root.width ∙ scaled-mod 32 e m (omega arith) root.some_entries

    pub load_first :
        (e : ℕ) (io_buffer : ℕ → ℕ)
        → e % m ≡ 0
        → e < total
        → IsReady e io_buffer ((rootdir_sector fs + e / m) % 2 ^ 32)
    unfolding load_sector IsReady
    load_first e io_buffer first lt =
        let begin : (32 * e % fs.params.bytes_per_sector == 0) ≡ true =
          ground (arith, place_of e) in
        rw (begin, root.sectors e lt) (ap (λ (t : ℕ). some (disk (e / m), t)) (omega arith))

    load_later :
        (e dir_sector : ℕ) (io_buffer : ℕ → ℕ)
        → 0 < e % m
        → load_sector read_sector fs io_buffer dir_sector (32 * e) ≡ some (io_buffer, dir_sector)
    unfolding load_sector
    load_later e dir_sector io_buffer later =
        let same : (32 * e % fs.params.bytes_per_sector == 0) ≡ false =
          ground (arith, place_of e) in
        rw same refl

    next-IsReady :
        (e : ℕ)
        → e + 1 < total
        → IsReady (e + 1) (disk (e / m)) ((rootdir_sector fs + e / m + 1) % 2 ^ 32)
    unfolding IsReady
    next-IsReady e lt =
        let below = mod-lt e root.some_entries in
        elim (dec_lt (e % m + 1) m) [
          | yes inside ↦
              let (index, place) = next_inside m e root.some_entries inside in
              load_later (e + 1) ((rootdir_sector fs + e / m + 1) % 2 ^ 32) (disk (e / m))
                (omega (arith, place))
              ∙ ap (λ (t : ℕ). some (disk t, (rootdir_sector fs + t + 1) % 2 ^ 32)) (sym index)
          | no full ↦
              let (index, place) = next_sector m e root.some_entries (omega (arith, below, full)) in
              let at : (rootdir_sector fs + (e + 1) / m) % 2 ^ 32
                  ≡ (rootdir_sector fs + e / m + 1) % 2 ^ 32 =
                ap (λ (t : ℕ). t % 2 ^ 32) (omega (arith, index)) in
              subst (λ t. IsReady (e + 1) (disk (e / m)) t) at
                (load_first (e + 1) (disk (e / m)) place lt)
        ]

    module _ (n : ℕ) where
      pass_over :
          (left e i dir_sector : ℕ) (io_buffer : ℕ → ℕ)
          → IsReady e io_buffer dir_sector
          → is_skipped (disk (e / m)) (32 * (e % m)) ≡ true
          → root_loop read_sector fuel device fs (n + 2) (suc left) (32 * e) io_buffer dir_sector i
            ≡ root_loop read_sector fuel device fs
                (n + 2)
                left
                (32 * (e + 1))
                (disk (e / m))
                ((rootdir_sector fs + e / m + 1) % 2 ^ 32)
                i
      unfolding root_loop take_entry IsReady
      pass_over left e i dir_sector io_buffer ready skipped =
          let next : 32 * e + 32 ≡ 32 * (e + 1) = omega arith in
          rw (ready, place_of e, skipped, next) refl

      count_over :
          (left e i dir_sector : ℕ) (io_buffer : ℕ → ℕ)
          → IsReady e io_buffer dir_sector
          → is_skipped (disk (e / m)) (32 * (e % m)) ≡ false
          → i < n
          → root_loop read_sector fuel device fs (n + 2) (suc left) (32 * e) io_buffer dir_sector i
            ≡ root_loop read_sector fuel device fs
                (n + 2)
                left
                (32 * (e + 1))
                (disk (e / m))
                ((rootdir_sector fs + e / m + 1) % 2 ^ 32)
                (i + 1)
      unfolding root_loop take_entry IsReady
      count_over left e i dir_sector io_buffer ready kept lt =
          let next : 32 * e + 32 ≡ 32 * (e + 1) = omega arith in
          let other : (i == n + 2 - 2) ≡ false = ground arith in
          rw (ready, place_of e, kept, other, next) refl

      stop_at :
          (left e dir_sector : ℕ) (io_buffer : ℕ → ℕ)
          → IsReady e io_buffer dir_sector
          → is_skipped (disk (e / m)) (32 * (e % m)) ≡ false
          → root_loop read_sector fuel device fs (n + 2) (suc left) (32 * e) io_buffer dir_sector n
            ≡ found_of (fill_found fuel device fs (entry_at (disk (e / m)) (32 * (e % m))))
      unfolding root_loop take_entry IsReady
      stop_at left e dir_sector io_buffer ready kept =
          let wanted : (n == n + 2 - 2) ≡ true = ground arith in
          rw (ready, place_of e, kept, wanted) refl

      at_end :
          (j i dir_sector : ℕ) (io_buffer : ℕ → ℕ)
          → root_loop read_sector fuel device fs (n + 2) 0 j io_buffer dir_sector i
            ≡ some (err enoent)
      unfolding root_loop
      at_end j i dir_sector io_buffer = refl

      pub root_loop_lem :
          (left e i dir_sector : ℕ) (io_buffer : ℕ → ℕ)
          → e + left ≡ total
          → i ≤ n
          → (0 < left → IsReady e io_buffer dir_sector)
          → root_loop read_sector fuel device fs (n + 2) left (32 * e) io_buffer dir_sector i
            ≡ pick fuel device fs (entries disk m left e) (n - i)
      unfolding entries pick
      root_loop_lem zero e i dir_sector io_buffer all le ready =
          at_end (32 * e) i dir_sector io_buffer
      root_loop_lem (suc left) e i dir_sector io_buffer all le ready_at =
          let ready = ready_at (omega arith) in
          let next : 0 < left
              → IsReady (e + 1) (disk (e / m)) ((rootdir_sector fs + e / m + 1) % 2 ^ 32) =
            λ more. next-IsReady e (omega (arith, more)) in
          let go_on : (k : ℕ)
              → k ≤ n
              → root_loop read_sector fuel device fs (n + 2) left (32 * (e + 1)) (disk (e / m))
                  ((rootdir_sector fs + e / m + 1) % 2 ^ 32) k
                ≡ pick fuel device fs (entries disk m left (e + 1)) (n - k) =
            λ k le2.
              root_loop_lem left (e + 1) k ((rootdir_sector fs + e / m + 1) % 2 ^ 32) (disk (e / m))
                (omega arith) le2 next in
          elim (Bool-cases (is_skipped (disk (e / m)) (32 * (e % m)))) [
            | inl skipped ↦
                rw skipped (pass_over left e i dir_sector io_buffer ready skipped ∙ go_on i le)
            | inr kept ↦ elim (ℕ_discrete i n) [
              | yes same ↦
                  let here : 0 ≡ n - i = omega (arith, same) in
                  rw kept (
                    ap
                      (root_loop read_sector fuel device fs (n + 2) (suc left) (32 * e) io_buffer
                        dir_sector)
                      same
                    ∙ stop_at left e dir_sector io_buffer ready kept
                    ∙ ap
                        (pick fuel device fs
                          (entry_at (disk (e / m)) (32 * (e % m)) ∷ entries disk m left (e + 1)))
                        here)
              | no differ ↦
                  let further : suc (n - (i + 1)) ≡ n - i = omega (arith, differ) in
                  rw kept (
                    count_over left e i dir_sector io_buffer ready kept (omega (arith, differ))
                    ∙ go_on (i + 1) (omega (arith, differ))
                    ∙ ap
                        (pick fuel device fs
                          (entry_at (disk (e / m)) (32 * (e % m)) ∷ entries disk m left (e + 1)))
                        further)
            ]
          ]
