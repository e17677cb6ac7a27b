-- ===== src/Stdlib/Sort/Split.antt =====
-- The partition of `qsort` of kernel/libc/stdlib.c puts what is smaller than the pivot before it.
use dos.Prelude.{
  Bool, List, ap, arith, false, length, refl, subst, suc, true, ℕ, ℕ_discrete, ◌%◌, ◌+◌, ◌-◌, ◌<◌,
  ◌^◌, ◌∙◌, ◌≡◌, ◌≤◌,
}
use dos.Prelude.Int.{ℤ}
use dos.Stdlib.Sort.{swap, partition_loop, place_pivot, partition_range}
use dos.Stdlib.Sort.Places.{
  at, IsMoved, IsMoved-refl, IsMoved-trans, swap-IsMoved, swap-left, swap-right, swap-other,
}
use dos.Stdlib.Sort.Count.{count, count-swap}
use dos.Stdlib.Sort.Rounds.{IsBelow, below, IsSplitting, partition_loop-IsSplitting}

module _ {ℓ} {A : Type ℓ} (outside : A) (compar : A → A → ℤ) where
  -- An array whose range is split at its pivot.
  pub record IsPartition (start end pivot_index : ℕ) (base result : List A) : Type ℓ where
    pub inside : (start ≤ pivot_index) × (pivot_index < end)
    pub moved : IsMoved outside start end base result
    pub before :
        (k : ℕ)
        → start ≤ k
        → k < pivot_index
        → below compar (at outside result k) (at outside result pivot_index) ≡ true
    pub behind :
        (k : ℕ)
        → pivot_index < k
        → k < end
        → below compar (at outside result k) (at outside result pivot_index) ≡ false
    pub counts : (test : A → Bool) → count test result ≡ count test base

  place_pivot-IsPartition :
      {start pivot_index bound : ℕ} {base result : List A}
      → IsSplitting outside compar start pivot_index bound pivot_index base result
      → pivot_index < length base
      → IsPartition start (suc pivot_index) bound base (swap outside result bound pivot_index)
  place_pivot-IsPartition {start} {pivot_index} {bound} {base} {result} s room =
      let (a, b, c) = s.order in
      let longer : suc pivot_index ≤ length result = omega (arith, s.moved.size) in
      let placed : at outside (swap outside result bound pivot_index) bound
          ≡ at outside base pivot_index =
        swap-left outside result bound pivot_index (omega arith) ∙ s.pivot in
      record {
        inside = (a, omega arith);
        moved = IsMoved-trans outside s.moved (
            swap-IsMoved outside result bound pivot_index a (omega arith) (omega arith)
              (omega arith) longer);
        before = λ k low high.
            rw
              (
                placed,
                swap-other outside result bound pivot_index k (λ e. omega (arith, e))
                    (λ e. omega (arith, e)),
              )
              (s.smaller k low high);
        behind = λ k low high. elim (ℕ_discrete k pivot_index) [
          | yes d ↦
              rw (placed, d, swap-right outside result bound pivot_index (omega arith))
                (s.other bound (omega arith) (omega arith))
          | no ne ↦
              rw
                (
                  placed,
                  swap-other outside result bound pivot_index k (λ e. omega (arith, e))
                      (λ e. omega (arith, e)),
                )
                (s.other k (omega arith) (omega arith))
        ];
        counts = λ test.
            count-swap test outside result bound pivot_index (omega arith) (omega arith)
            ∙ s.counts test;
      }

  partition_run :
      (base result : List A) (start end i bound : ℕ)
      → partition_loop outside compar
          (end - 1 - start)
          base
          (end - 1)
          ((start + 2 ^ 32 - 1) % 2 ^ 32)
          start
        ≡ (i, result)
      → (i + 1) % 2 ^ 32 ≡ bound
      → partition_range outside compar base start end ≡ (bound, swap outside result bound (end - 1))
  unfolding partition_range place_pivot
  partition_run base result start end i bound run e =
      ap (place_pivot outside compar (end - 1)) run
      ∙ ap (λ t. (t, swap outside result t (end - 1))) e

  -- `partition_range` of a range that is not empty.
  pub partition_range-IsPartition :
      (base : List A) (start end : ℕ)
      → start < end
      → end ≤ length base
      → end < 2 ^ 32
      → (pivot_index : ℕ) × (result : List A) × (partition_range outside compar base start end
          ≡ (pivot_index, result))
        × IsPartition start end pivot_index base result
  unfolding IsBelow
  partition_range-IsPartition base start end some_range room small =
      let begin : IsSplitting outside compar start (end - 1) start start base base = record {
        moved = IsMoved-refl outside start (suc (end - 1)) base;
        order = (omega arith, omega arith, omega arith);
        pivot = refl;
        smaller = λ k low high. absurd (omega arith);
        other = λ k low high. absurd (omega arith);
        counts = λ test. refl;
      } in
      let ((i, result), bound, run, below_bound, done) =
        partition_loop-IsSplitting outside compar (end - 1 - start) ((start + 2 ^ 32 - 1) % 2 ^ 32)
          begin (omega arith) (omega arith) (omega arith) (omega arith) in
      let last : suc (end - 1) ≡ end = omega arith in
      (
        bound,
        swap outside result bound (end - 1),
        partition_run base result start end i bound run below_bound,
        subst (λ t. IsPartition start t bound base (swap outside result bound (end - 1))) last
            (place_pivot-IsPartition done (omega arith)),
      )
