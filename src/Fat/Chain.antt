-- ===== src/Fat/Chain.antt =====
-- The two loops of `fat_read` of kernel/drivers/fs/fat.c along the chain of clusters.
use dos.Prelude.{
  Bool-cases, List, Option, [], ap, append-nil, ap₂, arith, dec_lt, false, if◌then◌else◌, inl, inr,
  leb, ltb, refl, some, subst, suc, sym, tabulate, true, zero, ℕ, ◌%◌, ◌*◌, ◌++◌, ◌+◌, ◌-◌, ◌/◌,
  ◌<◌, ◌==◌, ◌^◌, ◌∙◌, ◌≡◌, ◌≤◌,
}
use native.Mathlib.Nat.{suc-mul, add-mul}
use dos.Sectors.{copy_sector_lem, piece_byte, piece_byte_first, piece_byte_join}
use dos.Vfs.{ok}
use dos.Fat.{
  Fat, invalid, next_cluster, rootdir_sector, cluster_sector, copy_cluster, skip_clusters,
  read_clusters,
}

-- The cluster so many steps behind another.
abbrev pub nth_cluster : Fat → ℕ → ℕ → ℕ
nth_cluster fs cluster zero = cluster
nth_cluster fs cluster (suc n) = next_cluster fs (nth_cluster fs cluster n)

-- The first sector of a cluster: behind the reserved sectors, the copies of the table and the root
-- directory come the clusters, from number 2 on.
abbrev pub data_sector : Fat → ℕ → ℕ
data_sector fs cluster =
    fs.start_lba
    + fs.params.reserved_sectors
    + fs.params.number_of_fat * fs.params.sectors_per_fat
    + fs.params.rootdir_entries * 32 / fs.params.bytes_per_sector
    + (cluster - 2) * fs.params.sectors_per_cluster

cluster_sector-data :
    (fs : Fat) (cluster : ℕ)
    → fs.params.sectors_per_cluster < 256
    → 2 ≤ cluster
    → data_sector fs cluster < 2 ^ 32
    → cluster_sector fs cluster ≡ data_sector fs cluster
unfolding cluster_sector rootdir_sector
cluster_sector-data fs cluster byte numbered on_disk =
    let spc = fs.params.sectors_per_cluster in
    let parts : 2 * spc + (cluster - 2) * spc ≡ cluster * spc =
      let sum : 2 + (cluster - 2) ≡ cluster = omega (arith, numbered) in
      sym (add-mul 2 (cluster - 2) spc) ∙ ap (λ (t : ℕ). t * spc) sum in
    omega (arith, parts, byte, on_disk)

-- The clusters from one on hold so many bytes, their numbers are valid, and their first sectors,
-- which have numbers of 32 bits, can be read; the buffer then holds the bytes of `disk`.
pub record IsReadable (read_sector : ℕ → Option (ℕ → ℕ)) (disk : ℕ → ℕ → ℕ) (fs : Fat)
    (cluster len : ℕ) : Type 0 where
  pub chain :
      (k : ℕ) → k * fs.params.bytes_per_sector < len → nth_cluster fs cluster k < invalid fs.type
  pub byte : fs.params.sectors_per_cluster < 256
  pub from_two : (k : ℕ) → k * fs.params.bytes_per_sector < len → 2 ≤ nth_cluster fs cluster k
  pub on_disk :
      (k : ℕ)
      → k * fs.params.bytes_per_sector < len
      → data_sector fs (nth_cluster fs cluster k) < 2 ^ 32
  pub sectors :
      (k : ℕ)
      → k * fs.params.bytes_per_sector < len
      → read_sector (data_sector fs (nth_cluster fs cluster k))
        ≡ some (disk (nth_cluster fs cluster k))

-- The byte at an index of the chain of clusters.
abbrev pub chain_byte : (ℕ → ℕ → ℕ) → Fat → ℕ → ℕ → ℕ
chain_byte disk fs cluster i =
    disk (nth_cluster fs cluster (i / fs.params.bytes_per_sector)) (i % fs.params.bytes_per_sector)

module _ (fs : Fat) (cluster : ℕ) where
  unfoldable pub bytes : ℕ
  bytes = fs.params.bytes_per_sector

  skip_round :
      (rounds offset n : ℕ)
      → bytes ≤ offset
      → nth_cluster fs cluster n < invalid fs.type
      → skip_clusters (suc rounds) fs offset (nth_cluster fs cluster n)
        ≡ skip_clusters rounds fs (offset - bytes) (nth_cluster fs cluster (suc n))
  unfolding bytes skip_clusters
  skip_round rounds offset n le lt =
      let more : leb fs.params.bytes_per_sector offset ≡ true = ground arith in
      let valid : ltb (nth_cluster fs cluster n) (invalid fs.type) ≡ true = ground arith in
      rw (more, valid) refl

  -- The loop ends at the cluster that holds the byte at the offset.
  pub skip_clusters_lem :
      (rounds rest n : ℕ)
      → rest < bytes
      → ((k : ℕ) → k < n + rounds → nth_cluster fs cluster k < invalid fs.type)
      → skip_clusters rounds fs (rounds * bytes + rest) (nth_cluster fs cluster n)
        ≡ (rest, nth_cluster fs cluster (n + rounds))
  unfolding skip_clusters
  skip_clusters_lem zero rest n lt valid =
      ap₂ (λ (a b : ℕ). (a, nth_cluster fs cluster b)) (omega arith) (omega arith)
  skip_clusters_lem (suc rounds) rest n lt valid =
      let width = suc-mul rounds bytes in
      let less : suc rounds * bytes + rest - bytes ≡ rounds * bytes + rest = omega (arith, width) in
      let sum : suc n + rounds ≡ n + suc rounds = omega arith in
      skip_round rounds (suc rounds * bytes + rest) n (omega (arith, width)) (valid n (omega arith))
      ∙ ap (λ t. skip_clusters rounds fs t (nth_cluster fs cluster (suc n))) less
      ∙ skip_clusters_lem rounds rest (suc n) lt (λ k h. valid k (omega (arith, h)))
      ∙ ap (λ t. (rest, nth_cluster fs cluster t)) sum

module _ (read_sector : ℕ → Option (ℕ → ℕ)) (disk : ℕ → ℕ → ℕ) (fs : Fat) (cluster offset : ℕ) where
  -- The byte that stands at an index of what is read from a cluster on.
  abbrev read_byte : ℕ → ℕ → ℕ
  read_byte =
      piece_byte (λ n a. disk (nth_cluster fs cluster n) a) fs.params.bytes_per_sector
        (offset % fs.params.bytes_per_sector)

  read_round :
      (fuel n count to_read : ℕ) (rest : List ℕ)
      → nth_cluster fs cluster n < invalid fs.type
      → 0 < count
      → (if ltb fs.params.bytes_per_sector count then fs.params.bytes_per_sector else count)
        ≡ to_read
      → read_sector (cluster_sector fs (nth_cluster fs cluster n))
        ≡ some (disk (nth_cluster fs cluster n))
      → read_clusters read_sector fuel fs offset (nth_cluster fs cluster (suc n)) (count - to_read)
        ≡ some (ok rest)
      → read_clusters read_sector (suc fuel) fs offset (nth_cluster fs cluster n) count
        ≡ some (
            ok (
              tabulate to_read
                (offset % fs.params.bytes_per_sector)
                (disk (nth_cluster fs cluster n))
              ++ rest))
  unfolding read_clusters copy_cluster
  read_round fuel n count to_read rest lt some_left size sector run =
      let valid : ltb (nth_cluster fs cluster n) (invalid fs.type) ≡ true = ground arith in
      let left : (count == 0) ≡ false = ground arith in
      rw (valid, left, size, sector, run, copy_sector_lem) refl

  read_clusters_end :
      (fuel n : ℕ)
      → 0 < fuel
      → read_clusters read_sector fuel fs offset (nth_cluster fs cluster n) 0 ≡ some (ok [])
  unfolding read_clusters
  read_clusters_end zero n some_fuel = absurd (omega arith)
  read_clusters_end (suc fuel) n some_fuel =
      elim (Bool-cases (ltb (nth_cluster fs cluster n) (invalid fs.type))) [
        | inl e ↦ rw e refl
        | inr e ↦ rw e refl
      ]

  pub read_clusters_lem :
      (fuel n count : ℕ) {len : ℕ}
      → IsReadable read_sector disk fs cluster len
      → 0 < fs.params.bytes_per_sector
      → n * fs.params.bytes_per_sector + count ≤ len
      → count < fuel
      → read_clusters read_sector fuel fs offset (nth_cluster fs cluster n) count
        ≡ some (ok (tabulate count 0 (read_byte n)))
  read_clusters_lem zero n count readable some_bytes inside enough = absurd (omega arith)
  read_clusters_lem (suc fuel) n zero readable some_bytes inside enough =
      read_clusters_end (suc fuel) n (omega arith)
  read_clusters_lem (suc fuel) n (suc c) readable some_bytes inside enough =
      let bps = fs.params.bytes_per_sector in
      let valid = readable.chain n (omega arith) in
      let here =
        cluster_sector-data fs (nth_cluster fs cluster n) readable.byte
          (readable.from_two n (omega arith)) (readable.on_disk n (omega arith)) in
      let sector = ap read_sector here ∙ readable.sectors n (omega arith) in
      elim (dec_lt bps (suc c)) [
        | yes more ↦
            let size : (if ltb fs.params.bytes_per_sector (suc c)
                  then fs.params.bytes_per_sector
                  else suc c)
                ≡ fs.params.bytes_per_sector =
              ground arith in
            let rest =
              read_clusters_lem fuel (suc n) (suc c - bps) readable some_bytes
                (omega (arith, suc-mul n bps)) (omega arith) in
            let whole : bps + (suc c - bps) ≡ suc c = omega arith in
            read_round fuel n (suc c) bps (tabulate (suc c - bps) 0 (read_byte (suc n))) valid
              (omega arith) size sector rest
            ∙ ap (λ t. some (ok t))
                (piece_byte_join (λ n a. disk (nth_cluster fs cluster n) a) bps (offset % bps) n
                    (suc c - bps) some_bytes
                  ∙ ap (λ t. tabulate t 0 (read_byte n)) whole)
        | no last ↦
            let size : (if ltb fs.params.bytes_per_sector (suc c)
                  then fs.params.bytes_per_sector
                  else suc c)
                ≡ suc c =
              ground arith in
            let none_left : 0 ≡ suc c - suc c = omega arith in
            let rest : read_clusters read_sector fuel fs offset (nth_cluster fs cluster (suc n))
                  (suc c - suc c)
                ≡ some (ok []) =
              subst
                (λ t.
                  read_clusters read_sector fuel fs offset (nth_cluster fs cluster (suc n)) t
                  ≡ some (ok []))
                none_left (read_clusters_end fuel (suc n) (omega arith)) in
            read_round fuel n (suc c) (suc c) [] valid (omega arith) size sector rest
            ∙ ap (λ t. some (ok t))
                (append-nil (tabulate (suc c) (offset % bps) (disk (nth_cluster fs cluster n)))
                  ∙ piece_byte_first (λ n a. disk (nth_cluster fs cluster n) a) bps (offset % bps) n
                      (suc c) (omega arith))
      ]
