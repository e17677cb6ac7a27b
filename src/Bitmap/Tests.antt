-- ===== src/Bitmap/Tests.antt =====
-- Small maps: two words, of which pages 0 to 2 and 4 are used.
use dos.Prelude.{
  List, [], arith, get_or-replicate, length, length-replicate, ltb, not, refl, replicate, suc, true,
  zero, ℕ, ◌%◌, ◌&&◌, ◌*◌, ◌+◌, ◌<◌, ◌∷◌, ◌≡◌, ◌≢◌, ◌≤◌, ◌⊎◌,
}
use dos.Bits.{isset_bit, enable_bit, disable_bit}
use dos.Bitmap.{
  Bitmap, null, bitmap_alloc_page, bitmap_alloc_contiguous_pages, bitmap_free_pages, bitmap_init,
  bitmap_allocated_pages, count_bits, word_at, round_up,
}
use dos.Bitmap.Pages.{page_used, total, page_addr, IsValid, IsWords}
use dos.Bitmap.Alloc.{Took, Refused, bitmap_alloc_page_lem}
use dos.Bitmap.Contiguous.{TookRun, RefusedRun, in_run, bitmap_alloc_contiguous_pages_lem}
use dos.Bitmap.Free.{bitmap_free_pages_lem}
use dos.Bitmap.Count.{used_from, IsPopcnt, bitmap_allocated_pages_lem}
use dos.Bitmap.Init.{bitmap_init-starts}

abbrev map : Bitmap
map = record { words = 0x17 ∷ 0 ∷ []; frames = 64; start_addr = 4096; locked = 0 }

map-IsWords : IsWords (0x17 ∷ 0 ∷ [])
map-IsWords zero = omega arith
map-IsWords (suc zero) = omega arith
map-IsWords (suc (suc i)) = omega arith

map-IsValid : IsValid map
map-IsValid = record {
  stored = omega arith;
  words = map-IsWords;
  start_pos = omega arith;
  aligned = refl;
  fits = omega arith;
  unlocked = refl;
}

-- Page 3, at 4096 + 3 * 4096.
alloc_runs : bitmap_alloc_page map ≡ (16384, record map { words = 0x1f ∷ 0 ∷ [] })
unfolding bitmap_alloc_page isset_bit enable_bit
alloc_runs = refl

-- Three pages in a row are free from page 5 on.
contiguous_runs :
    bitmap_alloc_contiguous_pages map 3 ≡ (24576, record map { words = 0xf7 ∷ 0 ∷ [] })
unfolding bitmap_alloc_contiguous_pages isset_bit enable_bit
contiguous_runs = refl

-- A run over the border of two words.
across_words :
    bitmap_alloc_contiguous_pages (record map { words = 0x7fffffff ∷ 0 ∷ [] }) 2
    ≡ (131072, record map { words = 0xffffffff ∷ 1 ∷ [] })
unfolding bitmap_alloc_contiguous_pages isset_bit enable_bit
across_words = refl

free_runs : bitmap_free_pages map 8192 2 ≡ record map { words = 0x11 ∷ 0 ∷ [] }
unfolding bitmap_free_pages disable_bit
free_runs = refl

got : (bitmap_alloc_page map).0 ≢ null
unfolding bitmap_alloc_page isset_bit enable_bit
got = λ e. absurd (omega arith)

ones : ℕ → ℕ
ones w = count_bits w 32 0

ones-IsPopcnt : IsPopcnt ones
unfolding ones
ones-IsPopcnt w lt = refl

bitmap_alloc_page_example : Took map (bitmap_alloc_page map) ⊎ Refused map (bitmap_alloc_page map)
bitmap_alloc_page_example = bitmap_alloc_page_lem map map-IsValid

contiguous_example :
    TookRun map 3 (bitmap_alloc_contiguous_pages map 3)
    ⊎ RefusedRun map 3 (bitmap_alloc_contiguous_pages map 3)
contiguous_example = bitmap_alloc_contiguous_pages_lem map 3 map-IsValid (omega arith)

free_pages_example :
    ((q : ℕ)
      → page_used (bitmap_free_pages map (page_addr map 1) 2) q
        ≡ (not (in_run 1 2 q) && page_used map q))
    × IsValid (bitmap_free_pages map (page_addr map 1) 2)
free_pages_example = bitmap_free_pages_lem map 1 2 map-IsValid (omega arith) (omega arith)

-- 16385 free words, a little more than 2 GiB.
zeros : List ℕ
zeros = replicate 16385 0

length-zeros : length zeros ≡ 16385
unfolding zeros
length-zeros = length-replicate {A = ℕ} 16385 0

abbrev big : Bitmap
big = record { words = zeros; frames = 524320; start_addr = 4096; locked = 0 }

big-IsValid : IsValid big
big-IsValid = record {
  stored = omega (arith, length-zeros);
  words = λ i. rw (zeros_at i) (omega arith);
  start_pos = omega arith;
  aligned = refl;
  fits = omega arith;
  unlocked = refl;
}
  where
    zeros_at : (i : ℕ) → word_at zeros i ≡ 0
    zeros_at i = unfold zeros in get_or-replicate 16385 i 0

allocated_pages_example : bitmap_allocated_pages ones true map ≡ used_from (0x17 ∷ 0 ∷ []) 0 64
allocated_pages_example = bitmap_allocated_pages_lem ones ones-IsPopcnt true map map-IsValid

init_example :
    IsValid (bitmap_init (7 ∷ 9 ∷ []) 4096 266240)
    × (4096 ≤ (bitmap_init (7 ∷ 9 ∷ []) 4096 266240).start_addr)
    × ((bitmap_init (7 ∷ 9 ∷ []) 4096 266240).start_addr < 4096 + 4096)
    × ((bitmap_init (7 ∷ 9 ∷ []) 4096 266240).start_addr % 4096 ≡ 0)
    × (266240
        ≤ (bitmap_init (7 ∷ 9 ∷ []) 4096 266240).start_addr
          + (bitmap_init (7 ∷ 9 ∷ []) 4096 266240).frames * 4096)
    × ((bitmap_init (7 ∷ 9 ∷ []) 4096 266240).start_addr
          + (bitmap_init (7 ∷ 9 ∷ []) 4096 266240).frames * 4096
        < 266240 + 4096)
    × ((p : ℕ)
        → p < total (bitmap_init (7 ∷ 9 ∷ []) 4096 266240)
        → page_used (bitmap_init (7 ∷ 9 ∷ []) 4096 266240) p ≡ ltb p 32)
unfolding bitmap_init round_up
init_example =
    bitmap_init-starts (7 ∷ 9 ∷ []) 4096 266240 init_words (omega arith) (omega arith) (omega arith)
      (omega arith) (omega arith) (omega arith)
  where
    init_words : IsWords (7 ∷ 9 ∷ [])
    init_words zero = omega arith
    init_words (suc zero) = omega arith
    init_words (suc (suc i)) = omega arith
