-- ===== src/Stdlib/Sort/Order.antt =====
-- What `qsort` of kernel/libc/stdlib.c makes of an array.
use dos.Prelude.{
  Bool, List, ap, arith, dec_lt, false, inl, inr, leb, length, refl, some, suc, sym, true, zero, ℕ,
  ℕ_discrete, ◌%◌, ◌+◌, ◌-◌, ◌<◌, ◌>>=◌, ◌^◌, ◌∙◌, ◌≡◌, ◌≤◌,
}
use dos.Prelude.Int.{ℤ}
use dos.Stdlib.Sort.{qsort, qsort_inplace, sort_parts, partition_range}
use dos.Stdlib.Sort.Places.{at, IsMoved, IsMoved-refl, IsMoved-trans, IsMoved-widen}
use dos.Stdlib.Sort.Count.{count}
use dos.Stdlib.Sort.Rounds.{below}
use dos.Stdlib.Sort.Split.{IsPartition, partition_range-IsPartition}

module _ {ℓ} {A : Type ℓ} where
  -- The comparison sees an order in which some elements may be equal.
  pub record IsOrder (compar : A → A → ℤ) : Type ℓ where
    pub asymmetric : (x y : A) → below compar x y ≡ true → below compar y x ≡ false
    pub transitive :
        (x y z : A) → below compar y x ≡ false → below compar z y ≡ false → below compar z x ≡ false

module _ {ℓ} {A : Type ℓ} (outside : A) (compar : A → A → ℤ) where
  -- No element of the range is smaller than one before it.
  abbrev pub IsSorted : ℕ → ℕ → List A → Type 0
  IsSorted start end base =
      (i j : ℕ)
      → start ≤ i
      → i < j
      → j < end
      → below compar (at outside base j) (at outside base i) ≡ false

  -- A range of an array is in order, and the array has the same elements as another.
  pub record IsArranged (start end : ℕ) (base result : List A) : Type ℓ where
    pub moved : IsMoved outside start end base result
    pub sorted : IsSorted start end result
    pub counts : (test : A → Bool) → count test result ≡ count test base

  IsArranged-none :
      {start end : ℕ} (base : List A) → end ≤ start + 1 → IsArranged start end base base
  IsArranged-none {start} {end} base short = record {
    moved = IsMoved-refl outside start end base;
    sorted = λ i j low lt high. absurd (omega arith);
    counts = λ test. refl;
  }

  -- The parts before and behind the pivot are put in order one after the other.
  module _ {start end pivot_index : ℕ} {base split left right : List A} (order : IsOrder compar)
      (p : IsPartition outside compar start end pivot_index base split)
      (f : IsArranged start pivot_index split left)
      (g : IsArranged (pivot_index + 1) end left right) where
    -- What stands where in the end.
    front : (k : ℕ) → k < pivot_index → at outside right k ≡ at outside left k
    front k h = g.moved.outer k (inl (omega arith))

    middle : at outside right pivot_index ≡ at outside split pivot_index
    middle =
        g.moved.outer pivot_index (inl (omega arith))
        ∙ f.moved.outer pivot_index (inr (omega arith))

    front_below :
        (k : ℕ)
        → start ≤ k
        → k < pivot_index
        → below compar (at outside right k) (at outside split pivot_index) ≡ true
    front_below k low high =
        let (m, l, u, e) = f.moved.inner k low high in rw (front k high, e) (p.before m l u)

    back_above :
        (k : ℕ)
        → pivot_index < k
        → k < end
        → below compar (at outside right k) (at outside split pivot_index) ≡ false
    back_above k low high =
        let (m, l, u, e) = g.moved.inner k (omega arith) high in
        rw (e, f.moved.outer m (inr (omega arith))) (p.behind m (omega arith) u)

    -- An element behind the place of the pivot, or there, and one before it.
    across :
        (i j : ℕ)
        → start ≤ i
        → i < pivot_index
        → pivot_index ≤ j
        → j < end
        → below compar (at outside right j) (at outside right i) ≡ false
    across i j low lt le high =
        let small =
          order.asymmetric (at outside right i) (at outside split pivot_index)
            (front_below i low lt) in
        elim (ℕ_discrete j pivot_index) [
          | yes e ↦ rw (e, middle) small
          | no ne ↦
              order.transitive (at outside right i) (at outside split pivot_index)
                (at outside right j) small (back_above j (omega arith) high)
        ]

    join-IsSorted : IsSorted start end right
    join-IsSorted i j low lt high = elim (dec_lt i pivot_index) [
      | yes before ↦ elim (dec_lt j pivot_index) [
        | yes both ↦ rw (front i before, front j both) (f.sorted i j low lt both)
        | no apart ↦ across i j low before (omega arith) high
      ]
      | no after ↦ elim (ℕ_discrete i pivot_index) [
        | yes e ↦ rw (e, middle) (back_above j (omega arith) high)
        | no ne ↦ g.sorted i j (omega arith) lt high
      ]
    ]

    join : IsArranged start end base right
    join =
        let (low, high) = p.inside in
        record {
          moved = IsMoved-trans outside p.moved (
              IsMoved-trans outside (IsMoved-widen outside (omega arith) (omega arith) f.moved)
                (IsMoved-widen outside (omega arith) (omega arith) g.moved));
          sorted = join-IsSorted;
          counts = λ test. g.counts test ∙ f.counts test ∙ p.counts test;
        }

  -- A call that leaves the range as it is, and one that splits it.
  inplace_short :
      (fuel : ℕ) (base : List A) (start end : ℕ)
      → start ≤ end
      → end < 2 ^ 32
      → end ≤ start + 1
      → qsort_inplace outside compar (suc fuel) base start end ≡ some base
  unfolding qsort_inplace
  inplace_short fuel base start end le small short =
      let test : leb ((end + 2 ^ 32 - start) % 2 ^ 32) 1 ≡ true = ground arith in rw test refl

  inplace_long :
      (fuel : ℕ) (base split left : List A) (start end pivot_index : ℕ)
      → start + 1 < end
      → end < 2 ^ 32
      → partition_range outside compar base start end ≡ (pivot_index, split)
      → qsort_inplace outside compar fuel split start pivot_index ≡ some left
      → qsort_inplace outside compar (suc fuel) base start end
        ≡ qsort_inplace outside compar fuel left (pivot_index + 1) end
  unfolding qsort_inplace sort_parts
  inplace_long fuel base split left start end pivot_index long small parts run =
      let test : leb ((end + 2 ^ 32 - start) % 2 ^ 32) 1 ≡ false = ground arith in
      rw test (
        ap (λ t. sort_parts outside compar (qsort_inplace outside compar fuel) t start end) parts
        ∙ ap (λ t. t >>= λ left. qsort_inplace outside compar fuel left (pivot_index + 1) end) run)

  qsort_inplace-IsArranged :
      (fuel : ℕ) (base : List A) (start end : ℕ)
      → IsOrder compar
      → start ≤ end
      → end ≤ length base
      → end < 2 ^ 32
      → end - start < fuel
      → (result : List A) × (qsort_inplace outside compar fuel base start end ≡ some result)
        × IsArranged start end base result
  qsort_inplace-IsArranged zero base start end order le room small enough = absurd (omega arith)
  qsort_inplace-IsArranged (suc fuel) base start end order le room small enough =
      elim (dec_lt (start + 1) end) [
        | no short ↦ (
          base,
          inplace_short fuel base start end le small (omega arith),
          IsArranged-none base (omega arith),
        )
        | yes long ↦
            let (pivot_index, split, parts, p) =
              partition_range-IsPartition outside compar base start end (omega arith) room small in
            let (low, high) = p.inside in
            let (left, run_left, f) =
              qsort_inplace-IsArranged fuel split start pivot_index order low
                (omega (arith, p.moved.size)) (omega arith) (omega arith) in
            let (right, run_right, g) =
              qsort_inplace-IsArranged fuel left (pivot_index + 1) end order (omega arith)
                (omega (arith, p.moved.size, f.moved.size)) small (omega arith) in
            (
              right,
              inplace_long fuel base split left start end pivot_index long small parts run_left
                  ∙ run_right,
              join order p f g,
            )
      ]

  -- With a comparison that sees an order, `qsort` of fewer than 2 ^ 32 elements ends; no element of
  -- the result is smaller than one before it, and every test counts as many elements as before, so
  -- that the result is the array in another order.
  pub qsort_lem :
      (base : List A) (num : ℕ)
      → IsOrder compar
      → num ≡ length base
      → num < 2 ^ 32
      → (result : List A) × (qsort outside compar base num ≡ some result)
        × (length result ≡ num)
        × IsSorted 0 num result
        × ((test : A → Bool) → count test result ≡ count test base)
  unfolding qsort
  qsort_lem base num order e small =
      let (result, run, done) =
        qsort_inplace-IsArranged (num + 1) base 0 num order (omega arith) (omega (arith, e)) small
          (omega arith) in
      (result, run, done.moved.size ∙ sym e, done.sorted, done.counts)
