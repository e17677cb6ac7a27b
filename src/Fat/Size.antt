-- ===== src/Fat/Size.antt =====
-- What `fat_calculate_actual_size` of kernel/drivers/fs/fat.c counts.
use dos.Prelude.{
  ==_false_of_ne, ap, arith, false, ltb, none, refl, some, subst, suc, sym, true, zero, ℕ, ◌%◌, ◌*◌,
  ◌+◌, ◌<◌, ◌==◌, ◌^◌, ◌∙◌, ◌≡◌, ◌≢◌, ◌≤◌,
}
use native.Mathlib.Nat.{suc-mul}
use dos.Fat.{Fat, FatEntry, invalid, count_clusters, fat_calculate_actual_size}
use dos.Fat.Chain.{nth_cluster}

module _ (fs : Fat) (cluster : ℕ) where
  count_round :
      (fuel n size : ℕ)
      → nth_cluster fs cluster n < invalid fs.type
      → count_clusters (suc fuel) fs (nth_cluster fs cluster n) size
        ≡ count_clusters fuel fs
            (nth_cluster fs cluster (suc n))
            ((size + fs.params.bytes_per_sector) % 2 ^ 32)
  unfolding count_clusters
  count_round fuel n size lt =
      let more : ltb (nth_cluster fs cluster n) (invalid fs.type) ≡ true = ground arith in
      rw more refl

  count_clusters_lem :
      (left fuel n size : ℕ)
      → ((k : ℕ) → k < n + left → nth_cluster fs cluster k < invalid fs.type)
      → invalid fs.type ≤ nth_cluster fs cluster (n + left)
      → left < fuel
      → size < 2 ^ 32
      → count_clusters fuel fs (nth_cluster fs cluster n) size
        ≡ some ((size + left * fs.params.bytes_per_sector) % 2 ^ 32)
  unfolding count_clusters
  count_clusters_lem left zero n size chain end enough small = absurd (omega arith)
  count_clusters_lem zero (suc fuel) n size chain end enough small =
      let here : n + 0 ≡ n = omega arith in
      let last : invalid fs.type ≤ nth_cluster fs cluster n =
        subst (λ t. invalid fs.type ≤ nth_cluster fs cluster t) here end in
      let over : ltb (nth_cluster fs cluster n) (invalid fs.type) ≡ false = ground arith in
      let same : size ≡ (size + 0 * fs.params.bytes_per_sector) % 2 ^ 32 = omega (arith, small) in
      rw over (ap some same)
  count_clusters_lem (suc left) (suc fuel) n size chain end enough small =
      let sum : n + suc left ≡ suc n + left = omega arith in
      let bytes = fs.params.bytes_per_sector in
      let total : ((size + bytes) % 2 ^ 32 + left * bytes) % 2 ^ 32
          ≡ (size + suc left * bytes) % 2 ^ 32 =
        omega (arith, suc-mul left bytes) in
      count_round fuel n size (chain n (omega arith))
      ∙ count_clusters_lem left fuel (suc n) ((size + bytes) % 2 ^ 32)
          (λ k lt. chain k (omega (arith, lt)))
          (subst (λ t. invalid fs.type ≤ nth_cluster fs cluster t) sum end) (omega arith)
          (omega arith)
      ∙ ap some total

  count_clusters-cyclic :
      (fuel n size : ℕ)
      → ((k : ℕ) → nth_cluster fs cluster k < invalid fs.type)
      → count_clusters fuel fs (nth_cluster fs cluster n) size ≡ none
  unfolding count_clusters
  count_clusters-cyclic zero n size chain = refl
  count_clusters-cyclic (suc fuel) n size chain =
      count_round fuel n size (chain n)
      ∙ count_clusters-cyclic fuel (suc n) ((size + fs.params.bytes_per_sector) % 2 ^ 32) chain

fat_calculate_counted :
    (fuel : ℕ) (fs : Fat) (f : FatEntry)
    → f.cluster ≢ 0
    → fat_calculate_actual_size fuel fs f ≡ count_clusters fuel fs f.cluster 0
unfolding fat_calculate_actual_size
fat_calculate_counted fuel fs f used =
    let file : (f.cluster == 0) ≡ false = ==_false_of_ne f.cluster 0 used in rw file refl

-- For a chain of `n` clusters that does not start at 0, `fat_calculate_actual_size` ends after `n`
-- rounds and gives `n` times the size of a sector, as a number of 32 bits.
pub fat_calculate_actual_size_lem :
    (fuel n : ℕ) (fs : Fat) (f : FatEntry)
    → f.cluster ≢ 0
    → ((k : ℕ) → k < n → nth_cluster fs f.cluster k < invalid fs.type)
    → invalid fs.type ≤ nth_cluster fs f.cluster n
    → n < fuel
    → fat_calculate_actual_size fuel fs f ≡ some (n * fs.params.bytes_per_sector % 2 ^ 32)
fat_calculate_actual_size_lem fuel n fs f used chain end enough =
    let first : 0 + n ≡ n = omega arith in
    let plain : 0 + n * fs.params.bytes_per_sector ≡ n * fs.params.bytes_per_sector = omega arith in
    fat_calculate_counted fuel fs f used
    ∙ count_clusters_lem fs f.cluster n fuel 0 0 (λ k lt. chain k (omega (arith, lt)))
        (subst (λ t. invalid fs.type ≤ nth_cluster fs f.cluster t) (sym first) end) enough
        (omega arith)
    ∙ ap (λ (t : ℕ). some (t % 2 ^ 32)) plain

-- For a chain that never leaves the clusters, as when it goes round, no number of rounds is enough for
-- `fat_calculate_actual_size`.
pub fat_calculate_actual_size-cyclic :
    (fuel : ℕ) (fs : Fat) (f : FatEntry)
    → f.cluster ≢ 0
    → ((k : ℕ) → nth_cluster fs f.cluster k < invalid fs.type)
    → fat_calculate_actual_size fuel fs f ≡ none
fat_calculate_actual_size-cyclic fuel fs f used chain =
    fat_calculate_counted fuel fs f used ∙ count_clusters-cyclic fs f.cluster fuel 0 0 chain
