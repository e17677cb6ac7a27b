-- ===== src/Stdlib/Search.antt =====
-- What `bsearch` of kernel/libc/stdlib.c finds.
use dos.Prelude.{
  Bool-cases, Option, arith, dec_lt, inl, inr, ltb, none, refl, some, suc, true, zero, ℕ, ◌%◌, ◌+◌,
  ◌-◌, ◌/◌, ◌<◌, ◌^◌, ◌∙◌, ◌≡◌, ◌≤◌, ◌⊎◌,
}
use dos.Prelude.Int.{ℤ, pos, negsuc}
use dos.Stdlib.{bsearch, bsearch_loop}

-- The array is in ascending order, as the comparisons with the key see it: behind an element above
-- the key all are above it, and before one below the key all are below it.
pub record IsAscending (num : ℕ) (compar : ℕ → ℤ) : Type 0 where
  pub above : (i j n : ℕ) → i ≤ j → j < num → compar i ≡ negsuc n → (m : ℕ) × (compar j ≡ negsuc m)
  pub below :
      (i j n : ℕ) → i ≤ j → j < num → compar j ≡ pos (suc n) → (m : ℕ) × (compar i ≡ pos (suc m))

-- A result of the search among the first elements.
abbrev pub IsFound : ℕ → (ℕ → ℤ) → Option ℕ → Type 0
IsFound num compar (some k) = (k < num) × (compar k ≡ pos 0)
IsFound num compar none = (k : ℕ) → k < num → ¬ (compar k ≡ pos 0)

-- All elements that equal the key are in the range.
Within : ℕ → (ℕ → ℤ) → ℕ → ℕ → Type 0
Within num compar start end = (k : ℕ) → k < num → compar k ≡ pos 0 → (start ≤ k) × (k < end)

ℤ-cases : (z : ℤ) → ((n : ℕ) × (z ≡ negsuc n)) ⊎ ((z ≡ pos 0) ⊎ ((n : ℕ) × (z ≡ pos (suc n))))
ℤ-cases (negsuc n) = inl (n, refl)
ℤ-cases (pos zero) = inr (inl refl)
ℤ-cases (pos (suc n)) = inr (inr (n, refl))

left_of :
    (num : ℕ) (compar : ℕ → ℤ) (mid k n : ℕ) {start end : ℕ}
    → IsAscending num compar
    → k < num
    → compar mid ≡ negsuc n
    → compar k ≡ pos 0
    → (start ≤ k) × (k < end)
    → (start ≤ k) × (k < mid)
left_of num compar mid k n order lt neg eq (low, high) = elim (dec_lt k mid) [
  | yes before ↦ (low, before)
  | no after ↦ let (m, neg_too) = order.above mid k n (omega (arith, after)) lt neg in absurd cc
]

right_of :
    (num : ℕ) (compar : ℕ → ℤ) (mid k n : ℕ) {start end : ℕ}
    → IsAscending num compar
    → mid < num
    → compar mid ≡ pos (suc n)
    → compar k ≡ pos 0
    → (start ≤ k) × (k < end)
    → (mid + 1 ≤ k) × (k < end)
right_of num compar mid k n order lt more eq (low, high) = elim (dec_lt mid k) [
  | yes after ↦ (omega (arith, after), high)
  | no before ↦ let (m, more_too) = order.below k mid n (omega (arith, before)) lt more in absurd cc
]

-- A round of the loop, by the result of the comparison.
module _ (fuel : ℕ) (compar : ℕ → ℤ) (start end mid : ℕ) where
  loop_hit :
      ltb start end ≡ true
      → (start + end) % 2 ^ 32 / 2 ≡ mid
      → compar mid ≡ pos 0
      → bsearch_loop (suc fuel) compar start end ≡ some (some mid)
  unfolding bsearch_loop
  loop_hit e plain equal = rw (e, plain, equal) (rw plain refl)

  loop_left :
      (n : ℕ)
      → ltb start end ≡ true
      → (start + end) % 2 ^ 32 / 2 ≡ mid
      → compar mid ≡ negsuc n
      → bsearch_loop (suc fuel) compar start end ≡ bsearch_loop fuel compar start mid
  unfolding bsearch_loop
  loop_left n e plain above = rw (e, plain, above) (rw plain refl)

  loop_right :
      (n : ℕ)
      → ltb start end ≡ true
      → (start + end) % 2 ^ 32 / 2 ≡ mid
      → compar mid ≡ pos (suc n)
      → bsearch_loop (suc fuel) compar start end ≡ bsearch_loop fuel compar (mid + 1) end
  unfolding bsearch_loop
  loop_right n e plain below = rw (e, plain, below) (rw plain refl)

bsearch_loop-IsFound :
    (fuel num : ℕ) (compar : ℕ → ℤ) (start end : ℕ)
    → IsAscending num compar
    → num ≤ 2 ^ 31
    → end ≤ num
    → end - start < fuel
    → Within num compar start end
    → (r : Option ℕ) × (bsearch_loop fuel compar start end ≡ some r) × IsFound num compar r
unfolding bsearch_loop Within
bsearch_loop-IsFound zero num compar start end order small inside enough within =
    absurd (omega arith)
bsearch_loop-IsFound (suc fuel) num compar start end order small inside enough within =
    elim (Bool-cases (ltb start end)) [
      | inr e ↦ (
        none,
        rw e refl,
        λ k lt eq. let (low, high) = within k lt eq in ground (arith, e, low, high),
      )
      | inl e ↦
          let mid = (start + end) / 2 in
          let low : start ≤ mid = ground (arith, e) in
          let high : mid < end = ground (arith, e) in
          let plain : (start + end) % 2 ^ 32 / 2 ≡ mid = omega (arith, small, inside, low, high) in
          elim (ℤ-cases (compar mid)) [
            | inl (n, neg) ↦
                let left : Within num compar start mid =
                  λ k lt eq. left_of num compar mid k n order lt neg eq (within k lt eq) in
                let (r, found, right) =
                  bsearch_loop-IsFound fuel num compar start mid order small (omega arith)
                    (omega arith) left in
                (r, loop_left fuel compar start end mid n e plain neg ∙ found, right)
            | inr (inl zero_at) ↦ (
              some mid,
              loop_hit fuel compar start end mid e plain zero_at,
              (omega arith, zero_at),
            )
            | inr (inr (n, more)) ↦
                let right_half : Within num compar (mid + 1) end = λ k lt eq.
                  right_of num compar mid k n order (omega arith) more eq (within k lt eq) in
                let (r, found, right) =
                  bsearch_loop-IsFound fuel num compar (mid + 1) end order small inside
                    (omega arith) right_half in
                (r, loop_right fuel compar start end mid n e plain more ∙ found, right)
          ]
    ]

-- `bsearch` in an array in ascending order of at most 2 ^ 31 elements ends; if it gives an element,
-- that one equals the key, and if it gives NULL, none does.
pub bsearch_lem :
    (num : ℕ) (compar : ℕ → ℤ)
    → IsAscending num compar
    → num ≤ 2 ^ 31
    → (r : Option ℕ) × (bsearch num compar ≡ some r) × IsFound num compar r
unfolding bsearch Within
bsearch_lem num compar order small =
    bsearch_loop-IsFound (num + 1) num compar 0 num order small (omega arith) (omega arith)
      (λ k lt eq. (omega arith, lt))
