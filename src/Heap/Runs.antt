-- ===== src/Heap/Runs.antt =====
-- Runs of free blocks in the bitmap of kernel/modules/heap.c, and how many blocks are used.
use dos.Prelude.{
  ap, ap₂, arith, dec_lt, false, fun_ext, if◌then◌else◌, inl, inr, leb, suc, sym, true, zero, ℕ,
  ℕ_discrete, ◌+◌, ◌-◌, ◌<◌, ◌==◌, ◌∙◌, ◌≡◌, ◌≢◌, ◌≤◌, ◌⊎◌,
}
use dos.Heap.{fill, count_free, free_loop, heap_get_new_id, next_id}

-- The blocks from `x` on are free, `n` of them.
abbrev pub FreeRun : (ℕ → ℕ) → ℕ → ℕ → Type 0
FreeRun bitmap x n = (i : ℕ) → x ≤ i → i < x + n → bitmap i ≡ 0

-- The blocks below `n` that are used.
pub count_used : (ℕ → ℕ) → ℕ → ℕ
count_used bitmap zero = 0
count_used bitmap (suc n) = (if bitmap n == 0 then 0 else 1) + count_used bitmap n

pub count_used-le : (bitmap : ℕ → ℕ) (n : ℕ) → count_used bitmap n ≤ n
unfolding count_used
count_used-le bitmap zero = omega arith
count_used-le bitmap (suc n) = ground (arith, count_used-le bitmap n)

-- How much of a run lies below `n`.
abbrev overlap : ℕ → ℕ → ℕ → ℕ
overlap x k n = if leb n x then 0 else if leb n (x + k) then n - x else k

pub fill_inside : (bitmap : ℕ → ℕ) (x k v i : ℕ) → x ≤ i → i < x + k → fill bitmap x k v i ≡ v
fill_inside bitmap x k v i low high = ground arith

pub fill_outside :
    (bitmap : ℕ → ℕ) (x k v i : ℕ) → (i < x) ⊎ (x + k ≤ i) → fill bitmap x k v i ≡ bitmap i
fill_outside bitmap x k v i out = ground arith

overlap_inside : (x k n : ℕ) → x ≤ n → n < x + k → overlap x k (suc n) ≡ overlap x k n + 1
overlap_inside x k n low high = ground arith

overlap_outside : (x k n : ℕ) → (n < x) ⊎ (x + k ≤ n) → overlap x k (suc n) ≡ overlap x k n
overlap_outside x k n out = ground arith

pub count_used_free :
    (bitmap : ℕ → ℕ) (n : ℕ) → bitmap n ≡ 0 → count_used bitmap (suc n) ≡ count_used bitmap n
unfolding count_used
count_used_free bitmap n free = ground (arith, free)

count_used_taken :
    (bitmap : ℕ → ℕ) (n : ℕ) → bitmap n ≢ 0 → count_used bitmap (suc n) ≡ count_used bitmap n + 1
unfolding count_used
count_used_taken bitmap n taken = ground (arith, taken)

count_used_same :
    (f g : ℕ → ℕ) (n : ℕ)
    → f n ≡ g n
    → count_used f (suc n) + count_used g n ≡ count_used g (suc n) + count_used f n
unfolding count_used
count_used_same f g n same = rw same (omega arith)

count_used-overlap :
    (bitmap : ℕ → ℕ) (x k v n : ℕ)
    → FreeRun bitmap x k
    → v ≢ 0
    → count_used (fill bitmap x k v) n ≡ count_used bitmap n + overlap x k n
unfolding count_used
count_used-overlap bitmap x k v zero free some_id = ground arith
count_used-overlap bitmap x k v (suc n) free some_id =
    let rest = count_used-overlap bitmap x k v n free some_id in
    let outside : (n < x) ⊎ (x + k ≤ n)
        → count_used (fill bitmap x k v) (suc n) ≡ count_used bitmap (suc n) + overlap x k (suc n) =
      λ out.
        let same = count_used_same (fill bitmap x k v) bitmap n (fill_outside bitmap x k v n out) in
        let grows = overlap_outside x k n out in omega (arith, same, rest, grows) in
    elim (dec_lt n x) [
      | yes before ↦ outside (inl before)
      | no from ↦ elim (dec_lt n (x + k)) [
        | no behind ↦ outside (inr (omega (arith, behind)))
        | yes inside ↦
            let low : x ≤ n = omega (arith, from) in
            let here = fill_inside bitmap x k v n low inside in
            let taken = count_used_taken (fill bitmap x k v) n (λ e. some_id (sym here ∙ e)) in
            let was_free = count_used_free bitmap n (free n low inside) in
            let grows = overlap_inside x k n low inside in
            omega (arith, taken, was_free, rest, grows)
      ]
    ]

pub count_used-fill :
    (bitmap : ℕ → ℕ) (x k v n : ℕ)
    → FreeRun bitmap x k
    → v ≢ 0
    → x + k ≤ n
    → count_used (fill bitmap x k v) n ≡ count_used bitmap n + k
count_used-fill bitmap x k v n free some_id inside =
    let sum = count_used-overlap bitmap x k v n free some_id in ground (arith, sum)

pub count_free_bounds :
    (n : ℕ) (bitmap : ℕ → ℕ) (count x : ℕ)
    → x ≤ count
    → (count_free n bitmap count x ≤ n) × (x + count_free n bitmap count x ≤ count)
unfolding count_free
count_free_bounds zero bitmap count x le = (omega arith, omega arith)
count_free_bounds (suc n) bitmap count x le = elim (dec_lt x count) [
  | yes lt ↦
      let (few, inside) = count_free_bounds n bitmap count (x + 1) (omega arith) in
      (ground (arith, few), ground (arith, inside))
  | no past ↦ (ground (arith, past), ground (arith, past))
]

pub count_free_pos :
    (n : ℕ) (bitmap : ℕ → ℕ) (count x : ℕ)
    → 0 < n
    → x < count
    → bitmap x ≡ 0
    → 0 < count_free n bitmap count x
unfolding count_free
count_free_pos zero bitmap count x above lt free = absurd (omega arith)
count_free_pos (suc n) bitmap count x above lt free = ground (arith, free)

-- A count that is full is a free run.
pub count_free-FreeRun :
    (n : ℕ) (bitmap : ℕ → ℕ) (count x : ℕ) → count_free n bitmap count x ≡ n → FreeRun bitmap x n
unfolding count_free
count_free-FreeRun zero bitmap count x e = λ i low high. absurd (omega arith)
count_free-FreeRun (suc n) bitmap count x e = λ i low high. elim (ℕ_discrete x i) [
  | yes same ↦ let here : bitmap x ≡ 0 = ground (arith, e) in rw (sym same) here
  | no other ↦
      let full : count_free n bitmap count (x + 1) ≡ n = ground (arith, e) in
      count_free-FreeRun n bitmap count (x + 1) full i (omega (arith, other)) (omega arith)
]

-- A new id is none of its neighbours', and not that of a free block.
pub heap_get_new_id_lem :
    (a b : ℕ)
    → a < 256
    → b < 256
    → (heap_get_new_id a b ≢ a)
      × (heap_get_new_id a b ≢ b)
      × (heap_get_new_id a b ≢ 0)
      × (heap_get_new_id a b < 256)
unfolding heap_get_new_id next_id
heap_get_new_id_lem a b ha hb =
    (λ e. ground (arith, e), λ e. ground (arith, e), λ e. ground (arith, e), ground arith)

fill-fill :
    (bitmap : ℕ → ℕ) (x k i : ℕ)
    → fill (fill bitmap x 1 0) (x + 1) k 0 i ≡ fill bitmap x (suc k) 0 i
fill-fill bitmap x k i = ground arith

-- What stops the loop of `heap_free`.
abbrev pub Stops : ℕ → ℕ → ℕ → ℕ → (ℕ → ℕ) → Type 0
Stops left k id x bitmap = (k ≡ left) ⊎ (bitmap (x + k) ≢ id)

Stops-next :
    (left k id x : ℕ) (bitmap : ℕ → ℕ)
    → Stops (suc left) (suc k) id x bitmap
    → Stops left k id (x + 1) (fill bitmap x 1 0)
Stops-next left k id x bitmap (inl full) = inl (omega (arith, full))
Stops-next left k id x bitmap (inr other) = inr λ e.
    let next : x + 1 + k ≡ x + suc k = omega arith in
    other
      (ap bitmap (sym next) ∙ sym (fill_outside bitmap x 1 0 (x + 1 + k) (inr (omega arith))) ∙ e)

not_id :
    (left id x : ℕ) (bitmap : ℕ → ℕ) → Stops (suc left) zero id x bitmap → (bitmap x == id) ≡ false
not_id left id x bitmap (inl full) = absurd (omega (arith, full))
not_id left id x bitmap (inr other) =
    let here : x + 0 ≡ x = omega arith in
    let differs : bitmap x ≢ id = λ e. other (ap bitmap here ∙ e) in ground (arith, differs)

pub free_loop_lem :
    (left k id x : ℕ) (bitmap : ℕ → ℕ)
    → k ≤ left
    → ((i : ℕ) → x ≤ i → i < x + k → bitmap i ≡ id)
    → Stops left k id x bitmap
    → free_loop left id x bitmap ≡ (x + k, fill bitmap x k 0)
unfolding free_loop
free_loop_lem zero zero id x bitmap le run stops =
    let here : x ≡ x + 0 = omega arith in
    rw (sym here) (ap (λ f. (x, f)) (fun_ext λ i. ground arith))
free_loop_lem (suc left) zero id x bitmap le run stops =
    let here : x ≡ x + 0 = omega arith in
    rw (not_id left id x bitmap stops, sym here) (ap (λ f. (x, f)) (fun_ext λ i. ground arith))
free_loop_lem zero (suc k) id x bitmap le run stops = absurd (omega arith)
free_loop_lem (suc left) (suc k) id x bitmap le run stops =
    let here : (bitmap x == id) ≡ true = ground (arith, run x) in
    let next : x + 1 + k ≡ x + suc k = omega arith in
    let cleared = fill bitmap x 1 0 in
    let run' : (i : ℕ) → x + 1 ≤ i → i < x + 1 + k → cleared i ≡ id = λ i low high.
      fill_outside bitmap x 1 0 i (inr low) ∙ run i (omega (arith, low)) (omega (arith, high)) in
    let stops' = Stops-next left k id x bitmap stops in
    rw here (
      free_loop_lem left k id (x + 1) cleared (omega (arith, le)) run' stops'
      ∙ ap₂ (λ (n : ℕ) (f : ℕ → ℕ). (n, f)) next (fun_ext λ i. fill-fill bitmap x k i))
