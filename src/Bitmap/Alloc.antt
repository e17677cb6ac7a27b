-- ===== src/Bitmap/Alloc.antt =====
-- `bitmap_alloc_page` of kernel/modules/bitmap.c: first fit, and nothing else changes.
use dos.Prelude.{ℕ, ◌+◌, ◌*◌, ◌/◌, ◌%◌, ◌<◌, ◌≡◌, refl, ◌⊎◌, inl, inr}
use dos.Prelude.{true, false, ◌||◌, ◌==◌, arith, none, some, Option-cases}
use dos.Prelude.{length, length-set, set}
use dos.Bits.{enable_bit}
use dos.Bitmap.{
  Bitmap, bitmap_len, word_at, null, is_free, scan_words, bitmap_alloc_page, frame_addr,
}
use dos.Bitmap.Scan.{scan_words-some, scan_words-none}
use dos.Bitmap.Pages.{
  page_used, total, page_addr, IsValid, used_in-enable, used_in-place, IsWords-enable,
}

-- What a call that returns `r` has done: it handed out page `p`.
pub record Took (b : Bitmap) (r : ℕ × Bitmap) : Type 0 where
  pub page : ℕ
  pub in_map : page < total b
  pub returned : r.0 ≡ page_addr b page
  pub was_free : page_used b page ≡ false
  pub lowest : (q : ℕ) → q < page → page_used b q ≡ true
  pub marked : (q : ℕ) → page_used r.1 q ≡ ((page == q) || page_used b q)
  pub rest_kept :
      (r.1.start_addr ≡ b.start_addr)
      × (r.1.frames ≡ b.frames)
      × (length r.1.words ≡ length b.words)

-- It found no free page and changed nothing.
pub record Refused (b : Bitmap) (r : ℕ × Bitmap) : Type 0 where
  pub returned : r.0 ≡ null
  pub full : (q : ℕ) → q < total b → page_used b q ≡ true
  pub same : r.1 ≡ b

module _ (b : Bitmap) (v : IsValid b) where
  -- No address wraps: a page of the map lies below the end of the frames.
  pub frame_addr-eq :
      (i j : ℕ) → i < bitmap_len b → j < 32 → frame_addr b i j ≡ page_addr b (i * 32 + j)
  frame_addr-eq i j hi hj = omega (arith, v.fits)

  -- The state after bit `j` of word `i` is set.
  abbrev pub after : ℕ → ℕ → Bitmap
  after i j = record b { words = set b.words i (enable_bit (word_at b.words i) j); locked = 0 }

  pub after-IsValid : (i j : ℕ) → j < 32 → IsValid (after i j)
  after-IsValid i j hj = record {
    stored = rw length-set v.stored;
    words = IsWords-enable b.words v.words i j hj;
    start_pos = v.start_pos;
    aligned = v.aligned;
    fits = v.fits;
    unlocked = refl;
  }

  alloc_page-none :
      scan_words (is_free b.words) (bitmap_len b) 0 ≡ none → bitmap_alloc_page b ≡ (null, b)
  unfolding bitmap_alloc_page
  alloc_page-none e = ground (arith, v.unlocked)

  alloc_page-some :
      (i j : ℕ)
      → scan_words (is_free b.words) (bitmap_len b) 0 ≡ some (i, j)
      → bitmap_alloc_page b ≡ (frame_addr b i j, after i j)
  unfolding bitmap_alloc_page
  alloc_page-some i j e = rw (e, bitmap_alloc_page)

  alloc_page-Refused :
      scan_words (is_free b.words) (bitmap_len b) 0 ≡ none → Refused b (bitmap_alloc_page b)
  alloc_page-Refused e = rw (alloc_page-none e) (record {
    returned = refl;
    full = λ q lt.
        ground (arith, scan_words-none (is_free b.words) (bitmap_len b) 0 (q / 32) (q % 32) e);
    same = refl;
  })

  alloc_page-Took :
      (i j : ℕ)
      → scan_words (is_free b.words) (bitmap_len b) 0 ≡ some (i, j)
      → Took b (bitmap_alloc_page b)
  alloc_page-Took i j e =
      let f = scan_words-some (is_free b.words) (bitmap_len b) 0 i j e in
      rw (alloc_page-some i j e) (record {
        page = i * 32 + j;
        in_map = omega (arith, f.high, f.bit);
        returned = frame_addr-eq i j (omega (arith, f.high)) f.bit;
        was_free = ground (arith, used_in-place b.words i j f.bit, f.passes);
        lowest = λ q lt. ground (arith, f.first (q / 32) (q % 32));
        marked = λ q. used_in-enable b.words i j q (omega (arith, f.high, v.stored)) f.bit;
        rest_kept = (refl, refl, length-set b.words i _);
      })

-- `bitmap_alloc_page` on a valid map hands out the lowest free page, marks that page and no other,
-- and returns its address; only when every page is used does it return NULL, and then nothing
-- has changed.
pub bitmap_alloc_page_lem :
    (b : Bitmap) → IsValid b → Took b (bitmap_alloc_page b) ⊎ Refused b (bitmap_alloc_page b)
bitmap_alloc_page_lem b v = elim (Option-cases (scan_words (is_free b.words) (bitmap_len b) 0)) [
  | inl e ↦ inr (alloc_page-Refused b v e)
  | inr ((i, j), e) ↦ inl (alloc_page-Took b v i j e)
]

-- `bitmap_alloc_page` keeps the map valid, on success and on failure.
pub bitmap_alloc_page-IsValid : (b : Bitmap) → IsValid b → IsValid (bitmap_alloc_page b).1
bitmap_alloc_page-IsValid b v =
    elim (Option-cases (scan_words (is_free b.words) (bitmap_len b) 0)) [
      | inl e ↦ rw (alloc_page-none b v e) v
      | inr ((i, j), e) ↦
          rw (alloc_page-some b v i j e)
            (after-IsValid b v i j (scan_words-some _ (bitmap_len b) 0 i j e).bit)
    ]
