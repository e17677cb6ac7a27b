-- ===== src/Stdlib/Tests.antt =====
-- Concrete numbers, texts and arrays for kernel/libc/stdlib.c.
use dos.Prelude.{
  Bool, List, Option, [], arith, length, ltb, ltb→lt, refl, some, suc, sym, zero, ℕ, ◌<◌, ◌∙◌, ◌∷◌,
  ◌≡◌, ◌≤◌,
}
use dos.Prelude.Int.{minus, is_negative, ℤ, pos, negsuc}
use dos.Stdlib.{ltoa, lutoa, strtol, atol, bsearch}
use dos.Stdlib.Digits.{strtol-ltoa}
use dos.Stdlib.Sort.{qsort}
use dos.Stdlib.Sort.Order.{IsOrder, IsSorted, qsort_lem}
use dos.Stdlib.Sort.Count.{count}
use dos.Stdlib.Search.{IsAscending, IsFound, bsearch_lem}

strtol-ltoa_example :
    (strtol (ltoa (pos 48879) 16) 16 ≡ pos 48879) × (strtol (lutoa 48879 16) 16 ≡ pos 48879)
strtol-ltoa_example = strtol-ltoa 16 48879 (omega arith) (omega arith) (omega arith)

-- The key compared with the elements of an array: below the key up to index 2, the key there.
abbrev against : ℕ → ℤ
against zero = pos 1
against (suc zero) = pos 1
against (suc (suc zero)) = pos 0
against (suc (suc (suc i))) = negsuc 0

against-IsAscending : IsAscending 5 against
against-IsAscending = record { above = rises; below = falls }
  where
    rises : (i j n : ℕ) → i ≤ j → j < 5 → against i ≡ negsuc n → (m : ℕ) × (against j ≡ negsuc m)
    rises i (suc (suc (suc j))) n le lt e = (0, refl)
    rises zero zero n le lt e = absurd cc
    rises (suc i) zero n le lt e = absurd (omega arith)
    rises zero (suc zero) n le lt e = absurd cc
    rises (suc zero) (suc zero) n le lt e = absurd cc
    rises (suc (suc i)) (suc zero) n le lt e = absurd (omega arith)
    rises zero (suc (suc zero)) n le lt e = absurd cc
    rises (suc zero) (suc (suc zero)) n le lt e = absurd cc
    rises (suc (suc zero)) (suc (suc zero)) n le lt e = absurd cc
    rises (suc (suc (suc i))) (suc (suc zero)) n le lt e = absurd (omega arith)

    falls :
        (i j n : ℕ) → i ≤ j → j < 5 → against j ≡ pos (suc n) → (m : ℕ) × (against i ≡ pos (suc m))
    falls zero j n le lt e = (0, refl)
    falls (suc zero) j n le lt e = (0, refl)
    falls (suc (suc i)) zero n le lt e = absurd (omega arith)
    falls (suc (suc i)) (suc zero) n le lt e = absurd (omega arith)
    falls (suc (suc i)) (suc (suc zero)) n le lt e = absurd cc
    falls (suc (suc i)) (suc (suc (suc j))) n le lt e = absurd cc

bsearch_example : (r : Option ℕ) × (bsearch 5 against ≡ some r) × IsFound 5 against r
bsearch_example = bsearch_lem 5 against against-IsAscending (omega arith)

texts :
    (ltoa (negsuc 41) 10 ≡ 45 ∷ 52 ∷ 50 ∷ [])
    × (atol (32 ∷ 43 ∷ 55 ∷ []) ≡ pos 7)
    × (strtol (48 ∷ 120 ∷ 49 ∷ 70 ∷ []) 0 ≡ pos 31)
unfolding ltoa atol strtol
texts = (refl, refl, refl)

-- Numbers in ascending order.
minus-negative : (x y : ℕ) → is_negative (minus x y) ≡ ltb x y
minus-negative x y = ground arith

minus-IsOrder : IsOrder minus
minus-IsOrder = record {
  asymmetric = λ x y h.
      rw minus-negative (let lt = ltb→lt x y (sym (minus-negative x y) ∙ h) in ground arith);
  transitive = λ x y z h k. rw minus-negative (
      let first = sym (minus-negative y x) ∙ h in
      let second = sym (minus-negative z y) ∙ k in ground arith);
}

abbrev nine : List ℕ
nine = 5 ∷ 3 ∷ 7 ∷ 6 ∷ 2 ∷ 9 ∷ 1 ∷ 4 ∷ 8 ∷ []

sorts : qsort 0 minus nine 9 ≡ some (1 ∷ 2 ∷ 3 ∷ 4 ∷ 5 ∷ 6 ∷ 7 ∷ 8 ∷ 9 ∷ [])
unfolding qsort
sorts = refl

qsort_example :
    (result : List ℕ) × (qsort 0 minus nine 9 ≡ some result)
    × (length result ≡ 9)
    × IsSorted 0 minus 0 9 result
    × ((test : ℕ → Bool) → count test result ≡ count test nine)
qsort_example = qsort_lem 0 minus nine 9 minus-IsOrder refl (omega arith)
