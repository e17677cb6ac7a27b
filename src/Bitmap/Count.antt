-- ===== src/Bitmap/Count.antt =====
-- `bitmap_allocated_pages` of kernel/modules/bitmap.c: both ways of counting give the number of
-- used pages.
use dos.Prelude.{
  Bool, List, ap, arith, bit_and, false, if◌then◌else◌, inl, inr, refl, suc, true, zero, ℕ, ◌*◌,
  ◌+◌, ◌-◌, ◌/◌, ◌<◌, ◌==◌, ◌^◌, ◌||◌, ◌∙◌, ◌≡◌, ◌≢◌, ◌≤◌,
}
use dos.Prelude.Fields.{bit_and_mask}
use dos.Bits.{isset_bit}
use dos.Bitmap.{
  Bitmap, bitmap_len, word_at, null, count_bits, count_words, popcnt64, bitmap_allocated_pages,
  bitmap_alloc_page,
}
use dos.Bitmap.Pages.{total, IsValid, IsWords, used_in-place, used_in}
use dos.Bitmap.Alloc.{bitmap_alloc_page_lem, bitmap_alloc_page-IsValid}

-- The number of used pages among the `n` from `s` on.
unfoldable pub used_from : List ℕ → ℕ → ℕ → ℕ
used_from ws s zero = 0
used_from ws s (suc n) = (if used_in ws s then 1 else 0) + used_from ws (s + 1) n

-- What the instruction `popcnt` returns: the number of ones of its operand.
abbrev pub IsPopcnt : (ℕ → ℕ) → Type 0
IsPopcnt popcnt32 = (w : ℕ) → w < 2 ^ 32 → popcnt32 w ≡ count_bits w 32 0

used_from-add :
    (ws : List ℕ) (m s n : ℕ) → used_from ws s (m + n) ≡ used_from ws s m + used_from ws (s + m) n
unfolding used_from
used_from-add ws zero s n =
    let a : 0 + n ≡ n = omega arith in let c : s + 0 ≡ s = omega arith in rw (a, c) (omega arith)
used_from-add ws (suc m) s n =
    let a : suc m + n ≡ suc (m + n) = omega arith in
    let c : s + suc m ≡ s + 1 + m = omega arith in
    rw (a, c) (omega (arith, used_from-add ws m (s + 1) n))

count_bits-used_from :
    (ws : List ℕ) (i left j : ℕ)
    → j + left ≤ 32
    → count_bits (word_at ws i) left j ≡ used_from ws (i * 32 + j) left
unfolding used_from count_bits
count_bits-used_from ws i zero j h = refl
count_bits-used_from ws i (suc left) j h =
    let next : i * 32 + j + 1 ≡ i * 32 + (j + 1) = omega arith in
    rw (
      next,
      ← count_bits-used_from ws i left (j + 1) (omega arith),
      used_in-place ws i j (omega arith),
    )

module _ (popcnt32 : ℕ → ℕ) (popcnt : IsPopcnt popcnt32) where
  popcnt64-word : (w : ℕ) → w < 2 ^ 32 → popcnt64 popcnt32 w ≡ count_bits w 32 0
  unfolding popcnt64
  popcnt64-word w lt =
      let low : bit_and w 0xFFFFFFFF ≡ w = bit_and_mask 32 w ∙ omega arith in
      let high : w / 2 ^ 32 ≡ 0 = omega arith in
      let none_set : popcnt32 0 ≡ 0 = popcnt 0 (omega arith) ∙ no_bits in
      rw (low, high) (omega (arith, popcnt w lt, none_set))
    where
      no_bits : count_bits 0 32 0 ≡ 0
      no_bits = unfold count_bits isset_bit in refl

  count_words-used_from :
      (has_popcnt : Bool) (ws : List ℕ)
      → IsWords ws
      → (left i : ℕ) → count_words popcnt32 has_popcnt ws left i ≡ used_from ws (i * 32) (left * 32)
  unfolding count_words
  count_words-used_from has ws v zero i = unfold used_from in refl
  count_words-used_from has ws v (suc left) i =
      let split : suc left * 32 ≡ 32 + left * 32 = omega arith in
      let next : i * 32 + 32 ≡ (i + 1) * 32 = omega arith in
      let here : i * 32 ≡ i * 32 + 0 = omega arith in
      let bits : count_bits (word_at ws i) 32 0 ≡ used_from ws (i * 32) 32 =
        count_bits-used_from ws i 32 0 (omega arith) ∙ ap (λ s. used_from ws s 32) (omega arith) in
      rw
        (
          split,
          used_from-add ws 32 (i * 32) (left * 32),
          next,
          ← count_words-used_from has ws v left (i + 1),
          ← bits,
        )
        (ground (arith, popcnt64-word (word_at ws i) (v i)))

-- With the instruction `popcnt` or without it, `bitmap_allocated_pages` on a valid map is the
-- number of used pages of the map.
pub bitmap_allocated_pages_lem :
    (popcnt32 : ℕ → ℕ)
    → IsPopcnt popcnt32
    → (has_popcnt : Bool) (b : Bitmap) → IsValid b
    → bitmap_allocated_pages popcnt32 has_popcnt b ≡ used_from b.words 0 (total b)
unfolding bitmap_allocated_pages
bitmap_allocated_pages_lem popcnt32 popcnt has b v =
    count_words-used_from popcnt32 popcnt has b.words v.words (bitmap_len b) 0

module _ (ws ws' : List ℕ) (p : ℕ) (was_free : used_in ws p ≡ false)
    (marked : (q : ℕ) → used_in ws' q ≡ ((p == q) || used_in ws q)) where
  used_from-after : (n s : ℕ) → p < s → used_from ws' s n ≡ used_from ws s n
  unfolding used_from
  used_from-after zero s h = refl
  used_from-after (suc n) s h = ground (arith, used_from-after n (s + 1), marked s)

  used_from-marked : (n s : ℕ) → s ≤ p → p < s + n → used_from ws' s n ≡ used_from ws s n + 1
  unfolding used_from
  used_from-marked zero s lo hi = absurd (omega arith)
  used_from-marked (suc n) s lo hi =
      ground (arith, used_from-marked n (s + 1), used_from-after n (s + 1), marked s, was_free)

used_from-alloc_page :
    (b : Bitmap)
    → IsValid b
    → (bitmap_alloc_page b).0 ≢ null
    → used_from (bitmap_alloc_page b).1.words 0 (total (bitmap_alloc_page b).1)
      ≡ used_from b.words 0 (total b) + 1
used_from-alloc_page b v got = elim (bitmap_alloc_page_lem b v) [
  | inr refused ↦ absurd (got refused.returned)
  | inl took ↦ rw took.rest_kept.1 (
      used_from-marked b.words (bitmap_alloc_page b).1.words took.page took.was_free took.marked
        (total b) 0 (omega arith) (omega (arith, took.in_map)))
]

-- When `bitmap_alloc_page` on a valid map returns a page, `bitmap_allocated_pages` reports one
-- page more than before, with the instruction `popcnt` or without it.
pub bitmap_allocated_pages-alloc_page :
    (popcnt32 : ℕ → ℕ)
    → IsPopcnt popcnt32
    → (has_popcnt : Bool) (b : Bitmap) → IsValid b
    → (bitmap_alloc_page b).0 ≢ null
    → bitmap_allocated_pages popcnt32 has_popcnt (bitmap_alloc_page b).1
      ≡ bitmap_allocated_pages popcnt32 has_popcnt b + 1
bitmap_allocated_pages-alloc_page popcnt32 popcnt has b v got =
    rw
      (
        bitmap_allocated_pages_lem popcnt32 popcnt has b v,
        bitmap_allocated_pages_lem popcnt32 popcnt has (bitmap_alloc_page b).1
            (bitmap_alloc_page-IsValid b v),
      )
      (used_from-alloc_page b v got)

-- The pages of the map that are not used.
abbrev pub free_pages : Bitmap → ℕ
free_pages b = total b - used_from b.words 0 (total b)

used_from-full :
    (ws : List ℕ) (n s : ℕ)
    → ((q : ℕ) → s ≤ q → q < s + n → used_in ws q ≡ true)
    → used_from ws s n ≡ n
unfolding used_from
used_from-full ws zero s full = refl
used_from-full ws (suc n) s full =
    let ih = used_from-full ws n (s + 1) (λ q lo hi. full q (omega arith) (omega arith)) in
    ground (arith, ih, full s)

-- While a page is free, the allocator does not return NULL.
pub alloc_page-has_free :
    (b : Bitmap) → IsValid b → 0 < free_pages b → (bitmap_alloc_page b).0 ≢ null
alloc_page-has_free b v some_free = elim (bitmap_alloc_page_lem b v) [
  | inl took ↦ λ e. omega (arith, e, took.returned, v.start_pos)
  | inr refused ↦
      absurd (
        omega (arith, used_from-full b.words (total b) 0 (λ q lo hi. refused.full q (omega arith))))
]

-- A call of the allocator uses up one page at most.
pub free_pages-alloc_page :
    (b : Bitmap)
    → IsValid b
    → (bitmap_alloc_page b).0 ≢ null
    → free_pages b ≤ free_pages (bitmap_alloc_page b).1 + 1
free_pages-alloc_page b v got = elim (bitmap_alloc_page_lem b v) [
  | inl took ↦ omega (arith, used_from-alloc_page b v got, took.rest_kept.1)
  | inr refused ↦ absurd (got refused.returned)
]
