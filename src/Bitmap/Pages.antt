-- ===== src/Bitmap/Pages.antt =====
-- The map as a set of pages, and what a valid state of kernel/modules/bitmap.c is.
use dos.Prelude.{ℕ, ◌+◌, ◌*◌, ◌/◌, ◌%◌, ◌^◌, ◌≤◌, ◌<◌, ◌≡◌}
use dos.Prelude.{Bool, not, ◌&&◌, ◌||◌, ◌==◌, ==_false_of_ne, arith}
use dos.Prelude.{
  List, length, set, get_or-set_self, get_or-set_ne, get_or-set_either, ℕ_discrete, inl, inr,
}
use dos.Bits.{isset_bit, enable_bit, disable_bit}
use dos.Bits.Laws.{isset-enable, isset-disable, enable_bit-lt, disable_bit-lt}
use dos.Bitmap.{Bitmap, page_size, bitmap_len, word_at}

-- Whether the bit of page `p` is set, `p` counted from the start of the map.
abbrev pub used_in : List ℕ → ℕ → Bool
used_in ws p = isset_bit (word_at ws (p / 32)) (p % 32)

abbrev pub page_used : Bitmap → ℕ → Bool
page_used b p = used_in b.words p

-- The pages that the allocators look at: those of whole words of the map.
abbrev pub total : Bitmap → ℕ
total b = bitmap_len b * 32

abbrev pub page_addr : Bitmap → ℕ → ℕ
page_addr b p = b.start_addr + p * page_size

abbrev pub IsWords : List ℕ → Type 0
IsWords ws = (i : ℕ) → word_at ws i < 2 ^ 32

-- The map has its words, the frames lie in the 32-bit address space from a page boundary on, and
-- the lock is free.
pub record IsValid (b : Bitmap) : Type 0 where
  pub stored : bitmap_len b ≤ length b.words
  pub words : IsWords b.words
  pub start_pos : 0 < b.start_addr
  pub aligned : b.start_addr % page_size ≡ 0
  pub fits : page_addr b b.frames ≤ 2 ^ 32
  pub unlocked : b.locked ≡ 0

module _ (ws : List ℕ) (valid : IsWords ws) (i j : ℕ) (bit : j < 32) where
  IsWords-set : (w : ℕ) → w < 2 ^ 32 → IsWords (set ws i w)
  IsWords-set w lt k = elim (get_or-set_either ws i k w 0) [
    | inl new ↦ rw new lt
    | inr old ↦ rw old (valid k)
  ]

  pub IsWords-enable : IsWords (set ws i (enable_bit (word_at ws i) j))
  IsWords-enable = IsWords-set _ (enable_bit-lt (word_at ws i) j (valid i) bit)

  pub IsWords-disable : IsWords (set ws i (disable_bit (word_at ws i) j))
  IsWords-disable = IsWords-set _ (disable_bit-lt (word_at ws i) j (valid i))

-- Setting bit `j` of word `i` marks page `i * 32 + j` and no other.
pub used_in-enable :
    (ws : List ℕ) (i j q : ℕ)
    → i < length ws
    → j < 32
    → used_in (set ws i (enable_bit (word_at ws i) j)) q ≡ ((i * 32 + j == q) || used_in ws q)
used_in-enable ws i j q hi hj = elim (ℕ_discrete i (q / 32)) [
  | yes e ↦ rw (← e, get_or-set_self ws i _ 0 hi, isset-enable) (ground arith)
  | no ne ↦ rw (get_or-set_ne ws i (q / 32) _ 0 ne, ==_false_of_ne (i * 32 + j) q (omega arith))
]

-- Clearing bit `j` of word `i` frees page `i * 32 + j` and no other.
pub used_in-disable :
    (ws : List ℕ) (i j q : ℕ)
    → i < length ws
    → j < 32
    → used_in (set ws i (disable_bit (word_at ws i) j)) q ≡ (not (i * 32 + j == q) && used_in ws q)
used_in-disable ws i j q hi hj = elim (ℕ_discrete i (q / 32)) [
  | yes e ↦
      rw (← e, get_or-set_self ws i _ 0 hi, isset-disable _ j (q % 32) hj (omega arith))
        (ground arith)
  | no ne ↦ rw (get_or-set_ne ws i (q / 32) _ 0 ne, ==_false_of_ne (i * 32 + j) q (omega arith))
]

pub used_in-place :
    (ws : List ℕ) (i j : ℕ) → j < 32 → used_in ws (i * 32 + j) ≡ isset_bit (word_at ws i) j
used_in-place ws i j hj =
    let d : (i * 32 + j) / 32 ≡ i = omega arith in
    let m : (i * 32 + j) % 32 ≡ j = omega arith in rw (d, m)
