-- ===== src/Bitmap/Contiguous.antt =====
-- `bitmap_alloc_contiguous_pages` of kernel/modules/bitmap.c: the first run of free pages.
mod Loops
pub use Loops.{in_run}
use dos.Prelude.{ℕ, ◌+◌, ◌-◌, ◌*◌, ◌/◌, ◌%◌, ◌^◌, ◌≤◌, ◌<◌, ◌≡◌, refl, ◌⊎◌, inl, inr}
use dos.Prelude.{Bool, true, false, not, ◌&&◌, ◌||◌, arith, Option, none, some, Option-cases}
use dos.Prelude.{◌==◌, Bool-cases, ==_iff, zero, suc, ◌∙◌, dec_lt}
use dos.Bitmap.{
  Bitmap, page_size, bitmap_len, word_at, null, is_free, scan_words, bitmap_alloc_contiguous_pages,
  frame_addr, run_is_free, mark_run,
}
use dos.Bitmap.Scan.{Found, scan_words-some, scan_words-none}
use dos.Bitmap.Pages.{page_used, total, page_addr, IsValid, used_in-place, used_in}
use dos.Bitmap.Alloc.{frame_addr-eq}
use Loops.{run_is_free-true, run_is_free-false, mark_run-marks, mark_run-IsWords, length-mark_run}

-- The `n` pages from `s` on lie in the map and are free.
abbrev pub IsFreeRun : Bitmap → ℕ → ℕ → Type 0
IsFreeRun b n s = (k : ℕ) → k < n → (page_used b (s + k) ≡ false) × (s + k < total b)

-- What a call for `n` pages that returns `r` has done: it handed out the pages from `page` on.
pub record TookRun (b : Bitmap) (n : ℕ) (r : ℕ × Bitmap) : Type 0 where
  pub page : ℕ
  pub were_free : IsFreeRun b n page
  pub returned : r.0 ≡ page_addr b page
  pub lowest : (q : ℕ) → q < page → ¬ IsFreeRun b n q
  pub marked : (q : ℕ) → page_used r.1 q ≡ (in_run page n q || page_used b q)
  pub valid : IsValid r.1

-- It found no such run and changed nothing.
pub record RefusedRun (b : Bitmap) (n : ℕ) (r : ℕ × Bitmap) : Type 0 where
  pub returned : r.0 ≡ null
  pub no_run : (q : ℕ) → ¬ IsFreeRun b n q
  pub same : r.1 ≡ b

module _ (b : Bitmap) (v : IsValid b) (n : ℕ) where
  -- The test of the search: bit `j` of word `i` starts a free run.
  abbrev test : ℕ → ℕ → Bool
  test i j = is_free b.words i j && run_is_free b.words (bitmap_len b) (n - 1) i (j + 1)

  abbrev after : ℕ → ℕ → Bitmap
  after i j = record b { words = mark_run b.words n i j; locked = 0 }

  contiguous-none :
      scan_words test (bitmap_len b) 0 ≡ none → bitmap_alloc_contiguous_pages b n ≡ (null, b)
  unfolding bitmap_alloc_contiguous_pages
  contiguous-none e = ground (arith, v.unlocked)

  contiguous-some :
      (i j : ℕ)
      → scan_words test (bitmap_len b) 0 ≡ some (i, j)
      → bitmap_alloc_contiguous_pages b n ≡ (frame_addr b i j, after i j)
  unfolding bitmap_alloc_contiguous_pages
  contiguous-some i j e = rw (e, bitmap_alloc_contiguous_pages)

  test-IsFreeRun :
      (i j : ℕ) → i < bitmap_len b → j < 32 → test i j ≡ true → IsFreeRun b n (i * 32 + j)
  test-IsFreeRun i j hi hj e zero lt =
      let clear : page_used b (i * 32 + j) ≡ false = ground (arith, used_in-place b.words i j hj) in
      let here : i * 32 + j + 0 ≡ i * 32 + j = omega arith in rw here (clear, omega arith)
  test-IsFreeRun i j hi hj e (suc k) lt =
      let later =
        run_is_free-true b.words (bitmap_len b) (n - 1) i (j + 1) hi (omega arith) (ground arith) k
          (omega arith) in
      let there : i * 32 + j + suc k ≡ i * 32 + (j + 1) + k = omega arith in rw there later

  test-misses :
      0 < n → (q : ℕ) → q / 32 < bitmap_len b → test (q / 32) (q % 32) ≡ false → ¬ IsFreeRun b n q
  test-misses pos q hi e run = elim (Bool-cases (is_free b.words (q / 32) (q % 32))) [
    | inr used ↦ absurd (let p : q + 0 ≡ q = omega arith in ground (arith, run 0, p))
    | inl free ↦
        let (k, lt, bad) =
          run_is_free-false b.words (bitmap_len b) (n - 1) (q / 32) (q % 32 + 1) hi (omega arith)
            (ground arith) in
        let there : q / 32 * 32 + (q % 32 + 1) + k ≡ q + suc k = omega arith in
        let (r0, r1) = run (suc k) (omega arith) in
        elim bad [
          | inl used ↦ absurd (let u = rw there at used in ground arith)
          | inr out ↦ absurd (omega arith)
        ]
  ]

  misses_outside : 0 < n → (q : ℕ) → bitmap_len b ≤ q / 32 → ¬ IsFreeRun b n q
  misses_outside pos q out run = let (r0, r1) = run 0 pos in absurd (omega arith)

  after-IsValid : (i j : ℕ) → j < 32 → IsValid (after i j)
  after-IsValid i j hj = record {
    stored = rw length-mark_run v.stored;
    words = mark_run-IsWords n b.words i j (omega arith) v.words;
    start_pos = v.start_pos;
    aligned = v.aligned;
    fits = v.fits;
    unlocked = refl;
  }

  contiguous-RefusedRun :
      0 < n
      → scan_words test (bitmap_len b) 0 ≡ none
      → RefusedRun b n (bitmap_alloc_contiguous_pages b n)
  contiguous-RefusedRun pos e = rw (contiguous-none e) (record {
    returned = refl;
    no_run = λ q. elim (dec_lt (q / 32) (bitmap_len b)) [
      | yes inside ↦ test-misses pos q inside (
          scan_words-none test (bitmap_len b) 0 (q / 32) (q % 32) e (omega arith) (omega arith)
            (omega arith))
      | no outside ↦ misses_outside pos q (omega arith)
    ];
    same = refl;
  })

  contiguous-TookRun :
      0 < n
      → (i j : ℕ) → scan_words test (bitmap_len b) 0 ≡ some (i, j)
      → TookRun b n (bitmap_alloc_contiguous_pages b n)
  contiguous-TookRun pos i j e =
      let f = scan_words-some test (bitmap_len b) 0 i j e in
      let run = test-IsFreeRun i j (omega (arith, f.high)) f.bit f.passes in
      let (last_free, last_in) = run (n - 1) (omega arith) in
      rw (contiguous-some i j e) (record {
        page = i * 32 + j;
        were_free = run;
        returned = frame_addr-eq b v i j (omega (arith, f.high)) f.bit;
        lowest = λ q lt.
            test-misses pos q (omega (arith, f.high, f.bit))
              (f.first (q / 32) (q % 32) (omega arith) (omega arith) (omega arith));
        marked =
            λ q. mark_run-marks n b.words i j q (omega (arith, f.bit)) (omega (arith, v.stored));
        valid = after-IsValid i j f.bit;
      })

-- `bitmap_alloc_contiguous_pages` on a valid map, asked for at least one page, hands out the
-- lowest run of that many free pages inside the map, marks those pages and no other, returns the
-- address of the first and keeps the map valid; only when no such run exists does it return
-- NULL, and then nothing has changed.
pub bitmap_alloc_contiguous_pages_lem :
    (b : Bitmap) (n : ℕ)
    → IsValid b
    → 0 < n
    → TookRun b n (bitmap_alloc_contiguous_pages b n)
      ⊎ RefusedRun b n (bitmap_alloc_contiguous_pages b n)
bitmap_alloc_contiguous_pages_lem b n v pos =
    elim (Option-cases (scan_words (test b v n) (bitmap_len b) 0)) [
      | inl e ↦ inr (contiguous-RefusedRun b v n pos e)
      | inr ((i, j), e) ↦ inl (contiguous-TookRun b v n pos i j e)
    ]
