-- ===== src/Fat/Dir/Root.antt =====
-- What `fat_readdir` of kernel/drivers/fs/fat.c lists of the root directory.
use dos.Prelude.{
  List, Option, [], ap, ap₂, arith, false, not, refl, some, subst, suc, true, zero, ℕ, ◌%◌, ◌*◌,
  ◌+◌, ◌/◌, ◌<◌, ◌==◌, ◌^◌, ◌∙◌, ◌∷◌, ◌≡◌,
}
use native.Mathlib.Nat.{zero-div, zero-mod}
use dos.Vfs.{Result, ok}
use dos.Fat.{Fat, FatStat, FatEntry, rootdir_sector, rootdir_sector-lt, fat_stat_fill}
use dos.Fat.Dir.{Found, root_loop, read_root, numbered, fat_readdir}
use dos.Fat.Dir.Entries.{entries, pick, IsRoot, IsReady, load_first, root_loop_lem}

-- What an index of the root directory stands for.
unfoldable pub listing :
    (List FatEntry → ℕ → Option (Result Found))
    → FatStat
    → List FatEntry
    → ℕ
    → Option (Result Found)
listing pick_in itself files zero = some (ok (46 ∷ [], itself))
listing pick_in itself files (suc zero) = some (ok (46 ∷ 46 ∷ [], itself))
listing pick_in itself files (suc (suc n)) = pick_in files n

root_index :
    (read_sector : ℕ → Option (ℕ → ℕ)) (fuel device : ℕ) (fs : Fat) (disk : ℕ → ℕ → ℕ) (m total : ℕ)
    (io_buffer : ℕ → ℕ) (f : FatEntry) (index : ℕ)
    → IsRoot read_sector disk fs m total
    → f.size ≡ 32 * total
    → read_root read_sector fuel device fs index io_buffer f
      ≡ listing
          (pick fuel device fs)
          (numbered f.cluster (fat_stat_fill device fs f))
          (entries disk m total 0)
          index
unfolding read_root listing
root_index read_sector fuel device fs disk m total io_buffer f zero root size = refl
root_index read_sector fuel device fs disk m total io_buffer f (suc zero) root size = refl
root_index read_sector fuel device fs disk m total io_buffer f (suc (suc n)) root size =
    let shown : suc (suc n) ≡ n + 2 = omega arith in
    let rounds : (f.size + 31) / 32 ≡ total = omega (arith, size) in
    let start : 0 ≡ 32 * 0 = omega arith in
    let begin : (rootdir_sector fs + 0 / m) % 2 ^ 32 ≡ rootdir_sector fs =
      omega (arith, rootdir_sector-lt fs, zero-div m) in
    let ready : 0 < total
        → IsReady read_sector fuel device fs disk m total root 0 io_buffer (rootdir_sector fs) =
      λ more.
        subst (λ t. IsReady read_sector fuel device fs disk m total root 0 io_buffer t) begin
          (load_first read_sector fuel device fs disk m total root 0 io_buffer (zero-mod m) more) in
    let not_itself : (suc (suc n) == 0) ≡ false = ground arith in
    let not_parent : (suc (suc n) == 1) ≡ false = ground arith in
    rw (not_itself, not_parent)
      (ap₂ (λ (i r : ℕ). root_loop read_sector fuel device fs i r 0 io_buffer (rootdir_sector fs) 0)
          shown rounds
        ∙ ap
            (λ (j : ℕ).
              root_loop read_sector fuel device fs (n + 2) total j io_buffer (rootdir_sector fs) 0)
            start
        ∙ root_loop_lem read_sector fuel device fs disk m total root n total 0 0 (rootdir_sector fs)
            io_buffer (omega arith) (omega arith) ready
        ∙ ap (pick fuel device fs (entries disk m total 0)) (omega arith))

-- `fat_readdir` of the root directory is the listing of its entries.
pub fat_readdir-listing :
    (read_sector : ℕ → Option (ℕ → ℕ)) (fuel device : ℕ) (fs : Fat) (disk : ℕ → ℕ → ℕ) (m total : ℕ)
    (io_buffer : ℕ → ℕ) (st : FatStat) (f : FatEntry) (index : ℕ)
    → IsRoot read_sector disk fs m total
    → st.st_private ≡ some f
    → f.attributes.directory ≡ true
    → f.cluster ≡ 0
    → f.size ≡ 32 * total
    → fat_readdir read_sector fuel device fs index io_buffer st
      ≡ listing
          (pick fuel device fs)
          (numbered f.cluster (fat_stat_fill device fs f))
          (entries disk m total 0)
          index
unfolding fat_readdir
fat_readdir-listing read_sector fuel device fs disk m total io_buffer st f index root file directory
      first size =
    let at_root : (f.cluster == 0) ≡ true = ground (arith, first) in
    let is_directory : not f.attributes.directory ≡ false = ap not directory in
    rw (file, is_directory, at_root)
      (root_index read_sector fuel device fs disk m total io_buffer f index root size)
