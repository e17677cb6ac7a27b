-- ===== src/Stdlib/Sort.antt =====
-- `swap` and `qsort` of kernel/libc/stdlib.c. The array is the list of its elements, `outside` stands
-- for what is read beside it, and a `size_t` has 32 bits.
pub mod Places
pub mod Rounds
pub mod Split
pub mod Order
pub mod Count
use dos.Prelude.{
  Bool, List, Option, get_or, if◌then◌else◌, leb, none, set, some, suc, zero, ℕ, ◌%◌, ◌+◌, ◌-◌,
  ◌>>=◌, ◌^◌,
}
use dos.Prelude.Int.{ℤ, is_negative}

module _ {ℓ} {A : Type ℓ} (outside : A) where
  pub swap : List A → ℕ → ℕ → List A
  swap base a b = set (set base a (get_or base b outside)) b (get_or base a outside)

  module _ (compar : A → A → ℤ) where
    -- `cmp < 0` for the elements at two indices.
    pub is_smaller : List A → ℕ → ℕ → Bool
    is_smaller base j pivot_index =
        is_negative (compar (get_or base j outside) (get_or base pivot_index outside))

    -- The loop of the partition with so many rounds to go: `i` at its end, and the array.
    pub partition_loop : ℕ → List A → ℕ → ℕ → ℕ → ℕ × List A
    unfolding is_smaller swap
    partition_loop zero base pivot_index i j = (i, base)
    partition_loop (suc rounds) base pivot_index i j =
        let next = (i + 1) % 2 ^ 32 in
        let smaller = partition_loop rounds (swap base next j) pivot_index next (j + 1) in
        let other = partition_loop rounds base pivot_index i (j + 1) in
        if is_smaller base j pivot_index then smaller else other

    -- The place of the pivot behind the partition, and the array.
    pub place_pivot : ℕ → ℕ × List A → ℕ × List A
    unfolding swap
    place_pivot pivot_index (i, base) = ((i + 1) % 2 ^ 32, swap base ((i + 1) % 2 ^ 32) pivot_index)

    -- The range is split at its last element; `i` starts at `start - 1`, which may wrap.
    pub partition_range : List A → ℕ → ℕ → ℕ × List A
    unfolding partition_loop place_pivot
    partition_range base start end =
        place_pivot (end - 1)
          (partition_loop (end - 1 - start) base (end - 1) ((start + 2 ^ 32 - 1) % 2 ^ 32) start)

    -- The calls for the parts before and behind the pivot.
    pub sort_parts : (List A → ℕ → ℕ → Option (List A)) → ℕ × List A → ℕ → ℕ → Option (List A)
    sort_parts sort (pivot_index, base) start end =
        sort base start pivot_index >>= λ left. sort left (pivot_index + 1) end

    -- None is that the fuel runs out.
    pub qsort_inplace : ℕ → List A → ℕ → ℕ → Option (List A)
    unfolding partition_range sort_parts
    qsort_inplace zero base start end = none
    qsort_inplace (suc fuel) base start end =
        let sorted = sort_parts (qsort_inplace fuel) (partition_range base start end) start end in
        if leb ((end + 2 ^ 32 - start) % 2 ^ 32) 1 then some base else sorted

    -- A part of a range is smaller than the range.
    unfoldable pub qsort : List A → ℕ → Option (List A)
    unfolding qsort_inplace
    qsort base num = qsort_inplace (num + 1) base 0 num
