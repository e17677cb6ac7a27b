-- ===== src/Fat/Read.antt =====
-- What `fat_read` of kernel/drivers/fs/fat.c reads.
use dos.Prelude.{
  Option, ap, ap₂, arith, false, if◌then◌else◌, leb, ltb, min, refl, some, suc, sym, tabulate,
  tabulate_ext, ℕ, ◌%◌, ◌*◌, ◌+◌, ◌-◌, ◌/◌, ◌<◌, ◌^◌, ◌∙◌, ◌≡◌,
}
use native.Mathlib.Nat.{
  suc-mul, mod-lt, div-add-mod', mod-mod, mul-le-mul_right, mul-add-div_right,
  mul-add-mod_self_right,
}
use dos.Vfs.{ok}
use dos.Fat.{Fat, FatStat, FatEntry, skip_clusters, read_from, fat_read}
use dos.Fat.Chain.{nth_cluster, IsReadable, chain_byte, bytes, skip_clusters_lem, read_clusters_lem}

-- A read that starts in a file.
pub record IsRead (read_sector : ℕ → Option (ℕ → ℕ)) (disk : ℕ → ℕ → ℕ) (fs : Fat) (st : FatStat)
    (f : FatEntry) (count offset : ℕ) : Type 0 where
  pub file : st.st_private ≡ some f
  pub inside : offset < f.size
  pub some_bytes : 0 < fs.params.bytes_per_sector
  pub plain : offset + count < 2 ^ 32
  pub readable : IsReadable read_sector disk fs f.cluster (min (offset + count) f.size)

module _ {read_sector : ℕ → Option (ℕ → ℕ)} {disk : ℕ → ℕ → ℕ} {fs : Fat} {st : FatStat}
    {f : FatEntry} {count offset : ℕ} (r : IsRead read_sector disk fs st f count offset) where
  fat_read_run :
      (start : ℕ × ℕ)
      → skip_clusters (offset / fs.params.bytes_per_sector) fs offset f.cluster ≡ start
      → fat_read read_sector fs st count offset
        ≡ read_from read_sector fs (min (offset + count) f.size - offset) start
  unfolding fat_read
  fat_read_run start skipped =
      let within : leb f.size offset ≡ false = ground (arith, r.inside) in
      let cut : (if ltb f.size ((offset + count) % 2 ^ 32) then f.size - offset else count)
          ≡ min (offset + count) f.size - offset =
        let same : (offset + count) % 2 ^ 32 ≡ offset + count = omega (arith, r.plain) in
        rw same (ground (arith, r.inside)) in
      rw (r.file, within, cut, skipped) refl

  skipped : skip_clusters (offset / fs.params.bytes_per_sector) fs offset f.cluster ≡ (
    offset % fs.params.bytes_per_sector,
    nth_cluster fs f.cluster (offset / fs.params.bytes_per_sector),
  )
  unfolding bytes
  skipped =
      let bps = fs.params.bytes_per_sector in
      let q = offset / bps in
      let split = div-add-mod' offset bps in
      let first : 0 + q ≡ q = omega arith in
      ap (λ t. skip_clusters q fs t f.cluster) (sym split)
      ∙ skip_clusters_lem fs f.cluster q (offset % bps) 0 (mod-lt offset r.some_bytes) (λ k lt.
        let below = mul-le-mul_right {m = suc k} {n = q} bps (omega (arith, lt)) in
        r.readable.chain k (omega (arith, below, suc-mul k bps, split, r.inside, r.some_bytes)))
      ∙ ap (λ t. (offset % bps, nth_cluster fs f.cluster t)) first

-- `fat_read` of an offset inside the file, if the clusters can be read and `offset + count` does not
-- wrap, reads on to the end of the file at most. Byte `k` comes from the cluster `k / s` behind the one of the offset,
-- where a sector has `s` bytes, at the place `offset % s + k % s`: behind the sector, if that is `s` or more.
pub fat_read_lem :
    {read_sector : ℕ → Option (ℕ → ℕ)} {disk : ℕ → ℕ → ℕ} (fs : Fat) (st : FatStat) (f : FatEntry)
    (count offset : ℕ)
    → IsRead read_sector disk fs st f count offset
    → fat_read read_sector fs st count offset
      ≡ some (
          ok (
            tabulate (min (offset + count) f.size - offset) 0 λ k.
              disk
                (nth_cluster fs f.cluster
                  (offset / fs.params.bytes_per_sector + k / fs.params.bytes_per_sector))
                (offset % fs.params.bytes_per_sector + k % fs.params.bytes_per_sector)))
unfolding read_from
fat_read_lem {read_sector} {disk} fs st f count offset r =
    let bps = fs.params.bytes_per_sector in
    let q = offset / bps in
    let wanted = min (offset + count) f.size - offset in
    let again : offset % bps % bps ≡ offset % bps = mod-mod offset bps in
    fat_read_run r (offset % bps, nth_cluster fs f.cluster q) (skipped r)
    ∙ read_clusters_lem read_sector disk fs f.cluster (offset % bps) (wanted + 1) q wanted
        r.readable r.some_bytes (omega (arith, div-add-mod' offset bps, r.inside)) (omega arith)
    ∙ ap
        (λ off. some (
          ok
            (tabulate wanted 0 λ k. disk (nth_cluster fs f.cluster (q + k / bps)) (off + k % bps))))
        again

-- `fat_read` at an offset inside the file that is a multiple of the size of a sector gives the
-- bytes of the chain of clusters from the offset on, to the end of the file at most, if the
-- clusters up to there are in the chain and have numbers from 2 on, their first sectors have
-- numbers of 32 bits and can be read, a cluster has fewer than 256 sectors and `offset + count`
-- does not wrap. A cluster has the bytes of its first sector.
pub fat_read_aligned :
    {read_sector : ℕ → Option (ℕ → ℕ)} {disk : ℕ → ℕ → ℕ} (fs : Fat) (st : FatStat) (f : FatEntry)
    (count offset : ℕ)
    → IsRead read_sector disk fs st f count offset
    → offset % fs.params.bytes_per_sector ≡ 0
    → fat_read read_sector fs st count offset
      ≡ some (
          ok
            (tabulate (min (offset + count) f.size - offset) offset (chain_byte disk fs f.cluster)))
fat_read_aligned {read_sector} {disk} fs st f count offset r aligned =
    let bps = fs.params.bytes_per_sector in
    let q = offset / bps in
    fat_read_lem fs st f count offset r
    ∙ ap (λ t. some (ok t))
        (tabulate_ext (min (offset + count) f.size - offset) 0 offset
          (λ k. disk (nth_cluster fs f.cluster (q + k / bps)) (offset % bps + k % bps))
          (chain_byte disk fs f.cluster)
          λ k lt.
            let at : q * bps + k ≡ offset + k = omega (arith, div-add-mod' offset bps, aligned) in
            let plain : 0 + k ≡ k = omega arith in
            let index : q + k / bps ≡ (offset + k) / bps =
              sym (mul-add-div_right r.some_bytes q k) ∙ ap (λ (t : ℕ). t / bps) at in
            let place : offset % bps + k % bps ≡ (offset + k) % bps =
              let same : (q * bps + k) % bps ≡ k % bps = mul-add-mod_self_right q bps k in
              omega (arith, aligned, same, ap (λ (t : ℕ). t % bps) at) in
            ap (λ (t : ℕ). disk (nth_cluster fs f.cluster (q + t / bps)) (offset % bps + t % bps))
              plain
            ∙ ap₂ (λ (x y : ℕ). disk (nth_cluster fs f.cluster x) y) index place)
