-- ===== src/Bitmap/Free.antt =====
-- `bitmap_free_pages` of kernel/modules/bitmap.c.
use dos.Prelude.{ℕ, zero, suc, ◌+◌, ◌*◌, ◌/◌, ◌%◌, ◌^◌, ◌≤◌, ◌<◌, ◌≡◌, refl, inl, inr, sym}
use dos.Prelude.{not, ◌&&◌, arith, ◌∙◌}
use dos.Prelude.{List, length, length-set, set, list_ext, ◌==◌}
use dos.Prelude.{◌≢◌, set_out_of_range}
use dos.Bits.{disable_bit}
use dos.Bits.Laws.{word_ext}
use dos.Bitmap.{Bitmap, word_at, null, page_index, free_loop, bitmap_free_pages, bitmap_alloc_page}
use dos.Bitmap.Pages.{
  page_used, total, page_addr, IsValid, IsWords, used_in-place, used_in, used_in-disable,
  IsWords-disable,
}
use dos.Bitmap.Alloc.{bitmap_alloc_page_lem, bitmap_alloc_page-IsValid}
use dos.Bitmap.Contiguous.{in_run}

-- The page of an address that lies less than 2 GiB above the start.
page_index-page_addr :
    (start p : ℕ) → start + p * 4096 < 2 ^ 32 → p < 2 ^ 19 → page_index start (start + p * 4096) ≡ p
unfolding page_index
page_index-page_addr start p fits low = ground arith

module _ (start : ℕ) where
  length-free_loop :
      (left : ℕ) (ws : List ℕ) (addr : ℕ) → length (free_loop start ws left addr) ≡ length ws
  unfolding free_loop
  length-free_loop zero ws addr = refl
  length-free_loop (suc left) ws addr =
      let p = page_index start addr in
      length-free_loop left (set ws (p / 32) (disable_bit (word_at ws (p / 32)) (p % 32))) _
      ∙ length-set ws _ _

  free_loop-IsWords :
      (left : ℕ) (ws : List ℕ) (addr : ℕ) → IsWords ws → IsWords (free_loop start ws left addr)
  unfolding free_loop
  free_loop-IsWords zero ws addr v = v
  free_loop-IsWords (suc left) ws addr v =
      let p = page_index start addr in
      free_loop-IsWords left (set ws (p / 32) (disable_bit (word_at ws (p / 32)) (p % 32))) _
        (IsWords-disable ws v (p / 32) (p % 32) (omega arith))

  -- The loop frees the pages of the run and no other.
  free_loop-frees :
      (left : ℕ) (ws : List ℕ) (p q : ℕ)
      → p + left ≤ length ws * 32
      → p + left ≤ 2 ^ 19
      → start + (p + left) * 4096 ≤ 2 ^ 32
      → used_in (free_loop start ws left (start + p * 4096)) q
        ≡ (not (in_run p left q) && used_in ws q)
  unfolding free_loop
  free_loop-frees zero ws p q fits low top = ground arith
  free_loop-frees (suc zero) ws p q fits low top =
      let here : page_index start (start + p * 4096) ≡ p =
        page_index-page_addr start p (omega arith) (omega arith) in
      rw (here, used_in-disable ws (p / 32) (p % 32) q (omega arith) (omega arith)) (ground arith)
  free_loop-frees (suc (suc left)) ws p q fits low top =
      let here : page_index start (start + p * 4096) ≡ p =
        page_index-page_addr start p (omega arith) (omega arith) in
      let next : (start + p * 4096 + 4096) % 2 ^ 32 ≡ start + (p + 1) * 4096 = omega arith in
      let ws' = set ws (p / 32) (disable_bit (word_at ws (p / 32)) (p % 32)) in
      let ih =
        free_loop-frees (suc left) ws' (p + 1) q (rw length-set (omega arith)) (omega arith)
          (omega arith) in
      rw (here, next, ih, used_in-disable ws (p / 32) (p % 32) q (omega arith) (omega arith))
        (ground arith)

-- `bitmap_free_pages`, given the address of page `p` of a valid map and `n` pages from there that
-- lie in the map and below 2 GiB from its start, clears the bits of those pages and of no other,
-- and keeps the map valid.
pub bitmap_free_pages_lem :
    (b : Bitmap) (p n : ℕ)
    → IsValid b
    → p + n ≤ total b
    → p + n ≤ 2 ^ 19
    → ((q : ℕ)
        → page_used (bitmap_free_pages b (page_addr b p) n) q
          ≡ (not (in_run p n q) && page_used b q))
      × IsValid (bitmap_free_pages b (page_addr b p) n)
unfolding bitmap_free_pages
bitmap_free_pages_lem b p n v fits low = (
  λ q.
      free_loop-frees b.start_addr n b.words p q (omega (arith, v.stored)) low
        (omega (arith, v.fits)),
  record {
    stored = rw (length-free_loop b.start_addr n b.words (page_addr b p)) v.stored;
    words = free_loop-IsWords b.start_addr n b.words (page_addr b p) v.words;
    start_pos = v.start_pos;
    aligned = v.aligned;
    fits = v.fits;
    unlocked = refl;
  },
)

-- The same bits make the same words.
words_ext :
    (ws ws' : List ℕ)
    → IsWords ws
    → IsWords ws'
    → length ws ≡ length ws'
    → ((q : ℕ) → used_in ws q ≡ used_in ws' q)
    → ws ≡ ws'
words_ext ws ws' v v' e h = list_ext 0 ws ws' e λ i.
    word_ext (word_at ws i) (word_at ws' i) (v i) (v' i)
      λ k lt. sym (used_in-place ws i k lt) ∙ h (i * 32 + k) ∙ used_in-place ws' i k lt

-- The run of one page is that page.
in_run-one : (p q : ℕ) → in_run p 1 q ≡ (p == q)
in_run-one p q = ground arith

-- A valid state is known by its bounds and its pages.
Bitmap_ext :
    (a b : Bitmap)
    → IsValid a
    → IsValid b
    → a.start_addr ≡ b.start_addr
    → a.frames ≡ b.frames
    → length a.words ≡ length b.words
    → ((q : ℕ) → page_used a q ≡ page_used b q)
    → a ≡ b
Bitmap_ext a b va vb e f l h =
    let w = words_ext a.words b.words va.words vb.words l h in
    ground (arith, w, va.unlocked, vb.unlocked)

free_kept :
    (b : Bitmap) (addr n : ℕ)
    → ((bitmap_free_pages b addr n).start_addr ≡ b.start_addr)
      × ((bitmap_free_pages b addr n).frames ≡ b.frames)
      × (length (bitmap_free_pages b addr n).words ≡ length b.words)
unfolding bitmap_free_pages
free_kept b addr n = (refl, refl, length-free_loop b.start_addr n b.words addr)

-- A page that `bitmap_alloc_page` has handed out of a valid map of at most 2 GiB goes back by `bitmap_free_pages`: the two calls together leave the state as it was.
pub free-alloc_page :
    (b : Bitmap)
    → IsValid b
    → total b ≤ 2 ^ 19
    → (bitmap_alloc_page b).0 ≢ null
    → bitmap_free_pages (bitmap_alloc_page b).1 (bitmap_alloc_page b).0 1 ≡ b
free-alloc_page b v low got = elim (bitmap_alloc_page_lem b v) [
  | inr refused ↦ absurd (got refused.returned)
  | inl took ↦
      let r = bitmap_alloc_page b in
      let p = took.page in
      let (start, frames, len) = took.rest_kept in
      let (freed, valid) =
        bitmap_free_pages_lem r.1 p 1 (bitmap_alloc_page-IsValid b v)
          (rw frames (omega (arith, took.in_map))) (omega (arith, took.in_map)) in
      let same_addr : r.0 ≡ page_addr r.1 p = omega (arith, took.returned, start) in
      let (kept_start, kept_frames, kept_len) = free_kept r.1 (page_addr r.1 p) 1 in
      rw same_addr (
        Bitmap_ext (bitmap_free_pages r.1 (page_addr r.1 p) 1) b valid v (kept_start ∙ start)
          (kept_frames ∙ frames) (kept_len ∙ len)
          λ q. ground (arith, freed q, took.marked q, took.was_free))
]

-- Past 2 GiB from the start the index of a page is a huge number.
page_index-high :
    (start p : ℕ)
    → start + p * 4096 < 2 ^ 32
    → 2 ^ 19 ≤ p
    → 2 ^ 26 ≤ page_index start (start + p * 4096) / 32
unfolding page_index
page_index-high start p fits high = ground arith

-- A page of a valid map that lies 2 GiB or more above its start is not freed: the index of its
-- word comes from a signed difference and lies outside the map, so no word of the map changes.
pub bitmap_free_pages_high :
    (b : Bitmap) (p : ℕ)
    → IsValid b
    → length b.words ≤ 2 ^ 26
    → p < total b
    → 2 ^ 19 ≤ p
    → bitmap_free_pages b (page_addr b p) 1 ≡ b
unfolding bitmap_free_pages free_loop
bitmap_free_pages_high b p v small inside high =
    let out = page_index-high b.start_addr p (omega (arith, v.fits)) high in
    let i = page_index b.start_addr (page_addr b p) / 32 in
    let j = page_index b.start_addr (page_addr b p) % 32 in
    let kept : set b.words i (disable_bit (word_at b.words i) j) ≡ b.words =
      set_out_of_range b.words i (disable_bit (word_at b.words i) j) (omega arith) in
    ground (arith, v.unlocked, kept)
