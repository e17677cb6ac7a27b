-- ===== src/Heap/Search.antt =====
-- The search of `heap_alloc` in one block of kernel/modules/heap.c: that it ends, and what it finds.
use dos.Prelude.{
  Bool, Bool-cases, Option, arith, dec_lt, false, if◌then◌else◌, inl, inr, leb, none, refl, some,
  suc, true, zero, ℕ, ◌&&◌, ◌*◌, ◌+◌, ◌-◌, ◌<◌, ◌==◌, ◌||◌, ◌≡◌, ◌≤◌,
}
use dos.Heap.{search_blocks, count_free}
use dos.Heap.Runs.{FreeRun, count_free_bounds, count_free_pos, count_free-FreeRun}

-- What the search gives: a free run inside the bitmap, or none.
abbrev pub IsRun : (ℕ → ℕ) → ℕ → ℕ → Option ℕ → Type 0
IsRun bitmap count needed none = Unit {0}
IsRun bitmap count needed (some x) = FreeRun bitmap x needed × (x + needed ≤ count)

-- The rounds that are left at most.
abbrev measure : ℕ → Bool → ℕ → ℕ
measure count wrapped x = if wrapped then count + 1 - x else 2 * count + 2 - x

-- Where the next round starts.
abbrev next_start : (ℕ → ℕ) → ℕ → ℕ → ℕ → ℕ
next_start bitmap count needed x =
    if bitmap x == 0 then x + count_free needed bitmap count x else x + 1

next_start_bounds :
    (bitmap : ℕ → ℕ) (count needed x : ℕ)
    → x < count
    → 0 < needed
    → (x < next_start bitmap count needed x) × (next_start bitmap count needed x ≤ count)
next_start_bounds bitmap count needed x lt above =
    let (few, inside) = count_free_bounds needed bitmap count x (omega (arith, lt)) in
    let some_free = count_free_pos needed bitmap count x above lt in
    (ground (arith, some_free, lt), ground (arith, inside, lt))

round-IsRun :
    (bitmap : ℕ → ℕ) (count needed x : ℕ)
    → x < count
    → (bitmap x == 0 && count_free needed bitmap count x == needed) ≡ true
    → IsRun bitmap count needed (some x)
round-IsRun bitmap count needed x lt e =
    let full : count_free needed bitmap count x ≡ needed = ground (arith, e) in
    let (few, inside) = count_free_bounds needed bitmap count x (omega (arith, lt)) in
    (count_free-FreeRun needed bitmap count x full, omega (arith, full, inside))

measure_falls :
    (count : ℕ) (wrapped : Bool) (x y fuel : ℕ)
    → x < count
    → x < y
    → measure count wrapped x < suc fuel
    → measure count wrapped y < fuel
measure_falls count true x y fuel lt further enough = omega arith
measure_falls count false x y fuel lt further enough = omega arith

module _ (bitmap : ℕ → ℕ) (count needed lfb : ℕ) (some_blocks : 0 < count)
    (above : 0 < needed) where
  -- A round from an index that is inside the bitmap.
  round_inside :
      (fuel : ℕ) (wrapped : Bool) (x : ℕ)
      → x < count
      → ((r : Option ℕ) × (search_blocks fuel bitmap count needed lfb wrapped
              (next_start bitmap count needed x)
            ≡ some r)
          × IsRun bitmap count needed r)
      → (r : Option ℕ) × (search_blocks (suc fuel) bitmap count needed lfb wrapped x ≡ some r)
        × IsRun bitmap count needed r
  unfolding search_blocks
  round_inside fuel wrapped x lt (r, e, run) =
      let here : leb count x ≡ false = ground (arith, lt) in
      let same : (wrapped || false) ≡ wrapped = or_false wrapped in
      elim (Bool-cases (x == lfb)) [
        | inl stop ↦ (none, rw (stop) refl, tt)
        | inr go ↦ elim (Bool-cases (bitmap x == 0 && count_free needed bitmap count x == needed)) [
          | inl found ↦
              (some x, rw (go, here) (rw found refl), round-IsRun bitmap count needed x lt found)
          | inr missed ↦ (r, rw (go, here) (rw (missed, same) e), run)
        ]
      ]
    where
      or_false : (b : Bool) → (b || false) ≡ b
      or_false true = refl
      or_false false = refl

  -- A round from the end of the bitmap, the first time.
  round_wraps :
      (fuel x : ℕ)
      → count ≤ x
      → ((r : Option ℕ) × (search_blocks fuel bitmap count needed lfb true
              (next_start bitmap count needed 0)
            ≡ some r)
          × IsRun bitmap count needed r)
      → (r : Option ℕ) × (search_blocks (suc fuel) bitmap count needed lfb false x ≡ some r)
        × IsRun bitmap count needed r
  unfolding search_blocks
  round_wraps fuel x past (r, e, run) =
      let here : leb count x ≡ true = ground (arith, past) in
      elim (Bool-cases (x == lfb)) [
        | inl stop ↦ (none, rw stop refl, tt)
        | inr go ↦ elim (Bool-cases (bitmap 0 == 0 && count_free needed bitmap count 0 == needed)) [
          | inl found ↦ (
            some 0,
            rw (go, here) (rw found refl),
            round-IsRun bitmap count needed 0 some_blocks found,
          )
          | inr missed ↦ (r, rw (go, here) (rw missed e), run)
        ]
      ]

  -- The second time the search gives up.
  round_ends :
      (fuel x : ℕ) → count ≤ x → search_blocks (suc fuel) bitmap count needed lfb true x ≡ some none
  unfolding search_blocks
  round_ends fuel x past =
      let here : leb count x ≡ true = ground (arith, past) in
      elim (Bool-cases (x == lfb)) [ inl stop ↦ rw stop refl | inr go ↦ rw (go, here) refl ]

  pub search_blocks_lem :
      (fuel : ℕ) (wrapped : Bool) (x : ℕ)
      → x ≤ count
      → measure count wrapped x < fuel
      → (r : Option ℕ) × (search_blocks fuel bitmap count needed lfb wrapped x ≡ some r)
        × IsRun bitmap count needed r
  search_blocks_lem zero wrapped x le enough = absurd (omega (arith, enough))
  search_blocks_lem (suc fuel) true x le enough = elim (dec_lt x count) [
    | yes lt ↦
        let (further, bounded) = next_start_bounds bitmap count needed x lt above in
        round_inside fuel true x lt (
          search_blocks_lem fuel true (next_start bitmap count needed x) bounded
            (measure_falls count true x (next_start bitmap count needed x) fuel lt further enough))
    | no past ↦ (none, round_ends fuel x (omega (arith, past)), tt)
  ]
  search_blocks_lem (suc fuel) false x le enough = elim (dec_lt x count) [
    | yes lt ↦
        let (further, bounded) = next_start_bounds bitmap count needed x lt above in
        round_inside fuel false x lt (
          search_blocks_lem fuel false (next_start bitmap count needed x) bounded
            (measure_falls count false x (next_start bitmap count needed x) fuel lt further enough))
    | no past ↦
        let (up, bounded) = next_start_bounds bitmap count needed 0 some_blocks above in
        round_wraps fuel x (omega (arith, past)) (
          search_blocks_lem fuel true (next_start bitmap count needed 0) bounded
            (omega (arith, up, past, enough)))
  ]
