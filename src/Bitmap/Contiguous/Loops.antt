-- ===== src/Bitmap/Contiguous/Loops.antt =====
-- The check loop and the marking loop of `bitmap_alloc_contiguous_pages`, page by page.
use dos.Prelude.{ℕ, zero, suc, ◌+◌, ◌*◌, ◌≤◌, ◌<◌, ◌≡◌, refl, ◌⊎◌, inl, inr}
use dos.Prelude.{Bool, true, false, ◌&&◌, ◌||◌, ltb, leb, arith, List, length, set}
use dos.Prelude.{length-set, ◌∙◌}
use dos.Bits.{enable_bit, isset_bit}
use dos.Bitmap.{word_at, next_word, next_bit, run_is_free, mark_run}
use dos.Bitmap.Pages.{used_in, used_in-place, used_in-enable, IsWords, IsWords-enable}

-- Page `q` is one of the `n` pages from `s` on.
abbrev pub in_run : ℕ → ℕ → ℕ → Bool
in_run s n q = leb s q && ltb q (s + n)

place :
    (ii jj : ℕ) → jj ≤ 32 → (next_word ii jj * 32 + next_bit jj ≡ ii * 32 + jj) × (next_bit jj < 32)
place ii jj h = ground arith

module _ (ws : List ℕ) (len : ℕ) where
  -- What one passing round of the check has seen.
  round-true :
      (left ii jj : ℕ)
      → ii < len
      → jj ≤ 32
      → run_is_free ws len (suc left) ii jj ≡ true
      → (next_word ii jj < len)
        × (isset_bit (word_at ws (next_word ii jj)) (next_bit jj) ≡ false)
        × (run_is_free ws len left (next_word ii jj) (next_bit jj + 1) ≡ true)
  unfolding run_is_free
  round-true left ii jj hi hj e = ground arith

  round-false :
      (left ii jj : ℕ)
      → ii < len
      → jj ≤ 32
      → run_is_free ws len (suc left) ii jj ≡ false
      → (len ≤ next_word ii jj)
        ⊎ (isset_bit (word_at ws (next_word ii jj)) (next_bit jj) ≡ true)
        ⊎ ((next_word ii jj < len)
            × (run_is_free ws len left (next_word ii jj) (next_bit jj + 1) ≡ false))
  unfolding run_is_free
  round-false left ii jj hi hj e = ground arith

  -- Every page of a run that passes is free and lies in the map.
  pub run_is_free-true :
      (left ii jj : ℕ)
      → ii < len
      → jj ≤ 32
      → run_is_free ws len left ii jj ≡ true
      → (k : ℕ) → k < left
      → (used_in ws (ii * 32 + jj + k) ≡ false) × (ii * 32 + jj + k < len * 32)
  run_is_free-true zero ii jj hi hj e k lt = absurd (omega arith)
  run_is_free-true (suc left) ii jj hi hj e zero lt =
      let (inside, clear, rest) = round-true left ii jj hi hj e in
      let (same, low) = place ii jj hj in
      let here : ii * 32 + jj + 0 ≡ next_word ii jj * 32 + next_bit jj = omega (arith, same) in
      (rw (here, used_in-place ws (next_word ii jj) (next_bit jj) low) clear, omega arith)
  run_is_free-true (suc left) ii jj hi hj e (suc k) lt =
      let (inside, clear, rest) = round-true left ii jj hi hj e in
      let (same, low) = place ii jj hj in
      let there : ii * 32 + jj + suc k ≡ next_word ii jj * 32 + (next_bit jj + 1) + k =
        omega (arith, same) in
      rw there (
        run_is_free-true left (next_word ii jj) (next_bit jj + 1) inside (omega arith) rest k
          (omega arith))

  -- A run that fails has a page that is used or lies outside the map.
  pub run_is_free-false :
      (left ii jj : ℕ)
      → ii < len
      → jj ≤ 32
      → run_is_free ws len left ii jj ≡ false
      → (k : ℕ) × (k < left)
        × ((used_in ws (ii * 32 + jj + k) ≡ true) ⊎ (len * 32 ≤ ii * 32 + jj + k))
  run_is_free-false zero ii jj hi hj e = absurd (unfold run_is_free in cc)
  run_is_free-false (suc left) ii jj hi hj e =
      let (same, low) = place ii jj hj in
      elim (round-false left ii jj hi hj e) [
        | inl out ↦ (0, omega arith, inr (omega arith))
        | inr (inl taken) ↦
            let here : ii * 32 + jj + 0 ≡ next_word ii jj * 32 + next_bit jj =
              omega (arith, same) in
            (
              0,
              omega arith,
              inl (rw (here, used_in-place ws (next_word ii jj) (next_bit jj) low) taken),
            )
        | inr (inr (inside, later)) ↦
            let (k, lt, bad) =
              run_is_free-false left (next_word ii jj) (next_bit jj + 1) inside (omega arith)
                later in
            let there : ii * 32 + jj + suc k ≡ next_word ii jj * 32 + (next_bit jj + 1) + k =
              omega (arith, same) in
            (suc k, omega arith, rw there bad)
      ]

pub length-mark_run :
    (left : ℕ) (ws : List ℕ) (ii jj : ℕ) → length (mark_run ws left ii jj) ≡ length ws
unfolding mark_run
length-mark_run zero ws ii jj = refl
length-mark_run (suc left) ws ii jj =
    length-mark_run left
      (set ws (next_word ii jj) (enable_bit (word_at ws (next_word ii jj)) (next_bit jj))) _ _
    ∙ length-set ws _ _

pub mark_run-IsWords :
    (left : ℕ) (ws : List ℕ) (ii jj : ℕ) → jj ≤ 32 → IsWords ws → IsWords (mark_run ws left ii jj)
unfolding mark_run
mark_run-IsWords zero ws ii jj hj v = v
mark_run-IsWords (suc left) ws ii jj hj v =
    let (same, low) = place ii jj hj in
    mark_run-IsWords left
      (set ws (next_word ii jj) (enable_bit (word_at ws (next_word ii jj)) (next_bit jj)))
      (next_word ii jj) (next_bit jj + 1) (omega arith)
      (IsWords-enable ws v (next_word ii jj) (next_bit jj) low)

-- The loop marks the pages of the run and no other.
pub mark_run-marks :
    (left : ℕ) (ws : List ℕ) (ii jj q : ℕ)
    → jj ≤ 32
    → ii * 32 + jj + left ≤ length ws * 32
    → used_in (mark_run ws left ii jj) q ≡ (in_run (ii * 32 + jj) left q || used_in ws q)
unfolding mark_run
mark_run-marks zero ws ii jj q hj fits = ground arith
mark_run-marks (suc left) ws ii jj q hj fits =
    let (same, low) = place ii jj hj in
    let w' = next_word ii jj in
    let j' = next_bit jj in
    let ws' = set ws w' (enable_bit (word_at ws w') j') in
    let ih = mark_run-marks left ws' w' (j' + 1) q (omega arith) (rw length-set (omega arith)) in
    rw (ih, used_in-enable ws w' j' q (omega arith) low) (ground (arith, same))
