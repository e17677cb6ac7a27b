-- ===== src/Stdlib/Sort/Rounds.antt =====
-- The rounds of the partition of `qsort` of kernel/libc/stdlib.c.
use dos.Prelude.{
  Bool, Bool-cases, List, ap, arith, false, inl, inr, length, refl, subst, suc, sym, true, zero, ℕ,
  ℕ_discrete, ◌%◌, ◌+◌, ◌<◌, ◌^◌, ◌∙◌, ◌≡◌, ◌≤◌,
}
use dos.Prelude.Int.{ℤ, is_negative}
use dos.Stdlib.Sort.{swap, is_smaller, partition_loop}
use dos.Stdlib.Sort.Places.{
  at, IsMoved, IsMoved-trans, swap-IsMoved, swap-left, swap-right, swap-other,
}
use dos.Stdlib.Sort.Count.{count, count-swap}

-- `i` is one below the bound, and wraps when the bound is 0.
unfoldable pub IsBelow : ℕ → ℕ → Type 0
IsBelow i bound = (i + 1) % 2 ^ 32 ≡ bound

-- Whether an element comes before another.
abbrev pub below {ℓ} : {A : Type ℓ} → (A → A → ℤ) → A → A → Bool
below compar x y = is_negative (compar x y)

module _ {ℓ} {A : Type ℓ} (outside : A) (compar : A → A → ℤ) where
  -- What holds before a round of the loop, with the elements smaller than the pivot in front of
  -- `bound`.
  pub record IsSplitting (start pivot_index bound j : ℕ) (base result : List A) : Type ℓ where
    pub moved : IsMoved outside start (suc pivot_index) base result
    pub order : (start ≤ bound) × (bound ≤ j) × (j ≤ pivot_index)
    pub pivot : at outside result pivot_index ≡ at outside base pivot_index
    pub smaller :
        (k : ℕ)
        → start ≤ k
        → k < bound
        → below compar (at outside result k) (at outside base pivot_index) ≡ true
    pub other :
        (k : ℕ)
        → bound ≤ k
        → k < j
        → below compar (at outside result k) (at outside base pivot_index) ≡ false
    pub counts : (test : A → Bool) → count test result ≡ count test base

  split_other :
      {start pivot_index bound j : ℕ} {base result : List A}
      → IsSplitting start pivot_index bound j base result
      → j < pivot_index
      → below compar (at outside result j) (at outside base pivot_index) ≡ false
      → IsSplitting start pivot_index bound (j + 1) base result
  split_other {j} s lt e = record {
    moved = s.moved;
    order = let (a, b, c) = s.order in (a, omega arith, omega arith);
    pivot = s.pivot;
    smaller = s.smaller;
    other = λ k low high. elim (ℕ_discrete k j) [
      | yes d ↦ rw d e
      | no ne ↦ s.other k low (omega arith)
    ];
    counts = s.counts;
  }

  split_smaller :
      {start pivot_index bound j : ℕ} {base result : List A}
      → IsSplitting start pivot_index bound j base result
      → pivot_index < length base
      → j < pivot_index
      → below compar (at outside result j) (at outside base pivot_index) ≡ true
      → IsSplitting start pivot_index (bound + 1) (j + 1) base (swap outside result bound j)
  split_smaller {start} {pivot_index} {bound} {j} {base} {result} s room lt e =
      let (a, b, c) = s.order in
      let room2 : suc pivot_index ≤ length result = omega (arith, s.moved.size) in
      record {
        moved =
            IsMoved-trans outside s.moved (
              swap-IsMoved outside result bound j a (omega arith) (omega arith) (omega arith)
                room2);
        order = (omega arith, omega arith, omega arith);
        pivot =
            swap-other outside result bound j pivot_index (λ e. omega (arith, e))
              (λ e. omega (arith, e))
            ∙ s.pivot;
        smaller = λ k low high. elim (ℕ_discrete k bound) [
          | yes d ↦ rw (d, swap-left outside result bound j (omega arith)) e
          | no ne ↦
              rw
                (swap-other outside result bound j k (λ e. omega (arith, e))
                  (λ e. omega (arith, e)))
                (s.smaller k low (omega arith))
        ];
        other = λ k low high. elim (ℕ_discrete k j) [
          | yes d ↦
              rw (d, swap-right outside result bound j (omega arith))
                (s.other bound (omega arith) (omega arith))
          | no ne ↦
              rw
                (swap-other outside result bound j k (λ e. omega (arith, e))
                  (λ e. omega (arith, e)))
                (s.other k (omega arith) (omega arith))
        ];
        counts = λ test.
            count-swap test outside result bound j (omega arith) (omega arith) ∙ s.counts test;
      }

  -- A round of the loop.
  loop_smaller :
      (rounds pivot_index i bound j : ℕ) (result : List A)
      → is_smaller outside compar result j pivot_index ≡ true
      → (i + 1) % 2 ^ 32 ≡ bound
      → partition_loop outside compar (suc rounds) result pivot_index i j
        ≡ partition_loop outside compar rounds
            (swap outside result bound j)
            pivot_index
            bound
            (j + 1)
  unfolding partition_loop
  loop_smaller rounds pivot_index i bound j result test e = rw test (
      ap (λ t. partition_loop outside compar rounds (swap outside result t j) pivot_index t (j + 1))
        e)

  loop_other :
      (rounds pivot_index i j : ℕ) (result : List A)
      → is_smaller outside compar result j pivot_index ≡ false
      → partition_loop outside compar (suc rounds) result pivot_index i j
        ≡ partition_loop outside compar rounds result pivot_index i (j + 1)
  unfolding partition_loop
  loop_other rounds pivot_index i j result test = rw test refl

  pub partition_loop-IsSplitting :
      (rounds i : ℕ) {start pivot_index bound j : ℕ} {base result : List A}
      → IsSplitting start pivot_index bound j base result
      → IsBelow i bound
      → pivot_index < length base
      → pivot_index < 2 ^ 32
      → rounds + j ≡ pivot_index
      → (final : ℕ × List A) × (bound : ℕ) × (partition_loop outside compar rounds result
            pivot_index i j
          ≡ final)
        × IsBelow final.0 bound
        × IsSplitting start pivot_index bound pivot_index base final.1
  unfolding partition_loop is_smaller IsBelow
  partition_loop-IsSplitting zero i {start} {pivot_index} {bound} {j} {base} {result} s at_i room
        small e =
      (
        (i, result),
        bound,
        refl,
        at_i,
        subst (λ t. IsSplitting start pivot_index bound t base result) (omega (arith, e)) s,
      )
  partition_loop-IsSplitting (suc rounds) i {start} {pivot_index} {bound} {j} {base} {result} s at_i
        room small e =
      elim (Bool-cases (below compar (at outside result j) (at outside result pivot_index))) [
        | inl test ↦
            let (final, last, run, below_last, done) =
              partition_loop-IsSplitting rounds bound
                (split_smaller s room (omega arith) (rw (sym s.pivot) test))
                (let (a, b, c) = s.order in omega arith) room small (omega arith) in
            (
              final,
              last,
              loop_smaller rounds pivot_index i bound j result test at_i ∙ run,
              below_last,
              done,
            )
        | inr test ↦
            let (final, last, run, below_last, done) =
              partition_loop-IsSplitting rounds i
                (split_other s (omega arith) (rw (sym s.pivot) test)) at_i room small
                (omega arith) in
            (final, last, loop_other rounds pivot_index i j result test ∙ run, below_last, done)
      ]
