-- ===== src/Bitmap/Init.antt =====
-- `bitmap_init` of kernel/modules/bitmap.c.
use dos.Prelude.{
  List, [], arith, get_or-set_either, get_or-set_ne, get_or-set_self, inl, inr, length, length-set,
  ltb, min, refl, set, suc, true, zero, ℕ, ℕ_discrete, ◌%◌, ◌*◌, ◌+◌, ◌-◌, ◌/◌, ◌<◌, ◌^◌, ◌∙◌, ◌∷◌,
  ◌≡◌, ◌≢◌, ◌≤◌,
}
use dos.Prelude.Bits.{all_below, all_below_sound}
use dos.Bits.{isset_bit}
use dos.Bits.Laws.{isset-zero}
use native.Mathlib.Nat.{div-mul-le_self}
use dos.Bitmap.{Bitmap, bitmap_init, round_up, clear_bytes, word_at}
use dos.Bitmap.Pages.{page_used, total, IsValid, IsWords, used_in}

length-clear_bytes : (ws : List ℕ) (n : ℕ) → length (clear_bytes ws n) ≡ length ws
unfolding clear_bytes
length-clear_bytes [] n = refl
length-clear_bytes (w ∷ ws) n = omega (arith, length-clear_bytes ws (n - 4))

-- Clearing low bytes makes no word larger.
word_at-clear_bytes-le : (ws : List ℕ) (n i : ℕ) → word_at (clear_bytes ws n) i ≤ word_at ws i
unfolding clear_bytes
word_at-clear_bytes-le [] n i = omega arith
word_at-clear_bytes-le (w ∷ ws) n zero = div-mul-le_self w (256 ^ min n 4)
word_at-clear_bytes-le (w ∷ ws) n (suc i) = word_at-clear_bytes-le ws (n - 4) i

-- A word all of whose bytes are cleared is zero.
word_at-clear_bytes :
    (ws : List ℕ) (n i : ℕ)
    → ((k : ℕ) → word_at ws k < 2 ^ 32)
    → i * 4 + 4 ≤ n
    → word_at (clear_bytes ws n) i ≡ 0
unfolding clear_bytes
word_at-clear_bytes [] n i v h = refl
word_at-clear_bytes (w ∷ ws) n zero v h =
    let four : min n 4 ≡ 4 = omega arith in rw four (omega (arith, v 0))
word_at-clear_bytes (w ∷ ws) n (suc i) v h =
    word_at-clear_bytes ws (n - 4) i (λ k. v (suc k)) (omega arith)

round_up_lem :
    (n : ℕ)
    → n ≤ 2 ^ 32 - 4096
    → (n ≤ round_up n) × (round_up n < n + 4096) × (round_up n % 4096 ≡ 0)
unfolding round_up
round_up_lem n h = ground arith

-- The rounded length of the memory from a page boundary on ends within the address space.
round_up_rest :
    (start m : ℕ)
    → 0 < start
    → start % 4096 ≡ 0
    → start + m < 2 ^ 32
    → start + round_up m / 4096 * 4096 ≤ 2 ^ 32
unfolding round_up
round_up_rest start m pos aligned h = ground arith

-- The least number of pages that covers what lies between.
round_up_cover :
    (start top : ℕ)
    → start ≤ top
    → top - start ≤ 2 ^ 32 - 4096
    → (top ≤ start + round_up (top - start) / 4096 * 4096)
      × (start + round_up (top - start) / 4096 * 4096 < top + 4096)
round_up_cover start top above small =
    let (covers, tight, exact) = round_up_lem (top - start) small in
    (omega (arith, covers, exact, above), omega (arith, tight, above))

all_ones : all_below 32 (λ k. isset_bit 0xFFFFFFFF k) ≡ true
unfolding all_below isset_bit
all_ones = refl

-- The first word marks its 32 pages; a word of zeros marks none.
used_in-first :
    (ws : List ℕ) (p : ℕ)
    → 0 < length ws
    → (p / 32 ≢ 0 → word_at ws (p / 32) ≡ 0)
    → used_in (set ws 0 0xFFFFFFFF) p ≡ ltb p 32
used_in-first ws p stored zeros = elim (ℕ_discrete 0 (p / 32)) [
  | yes first ↦
      rw (← first, get_or-set_self ws 0 0xFFFFFFFF 0 stored)
        (all_below_sound 32 (λ k. isset_bit 0xFFFFFFFF k) (p % 32) all_ones (omega arith)
          ∙ ground arith)
  | no later ↦
      rw
        (
          get_or-set_ne ws 0 (p / 32) 0xFFFFFFFF 0 later,
          zeros (λ e. later (omega arith)),
          isset-zero (p % 32),
        )
        (ground arith)
]

module _ (memory : List ℕ) (start_address max_memory : ℕ) where
  abbrev start : ℕ
  start = round_up start_address

  abbrev b : Bitmap
  b = bitmap_init memory start_address max_memory

  -- When the start address, which is not 0, can be rounded up to a page boundary that is not above
  -- `max_memory`, itself below `2 ^ 32`, and the memory from there on has words of 32 bits for the
  -- map, at least one, `bitmap_init` leaves a well-formed map: frame 0 is the first page boundary
  -- from the start address on, the frames are the least number of pages that cover the rest up to
  -- `max_memory`, and of the pages that the words of the map stand for only the first 32 are used.
  pub bitmap_init-starts :
      IsWords memory
      → b.frames / 32 ≤ length memory
      → 0 < length memory
      → 0 < start_address
      → start_address ≤ 2 ^ 32 - 4096
      → start ≤ max_memory
      → max_memory < 2 ^ 32
      → IsValid b
        × (start_address ≤ b.start_addr)
        × (b.start_addr < start_address + 4096)
        × (b.start_addr % 4096 ≡ 0)
        × (max_memory ≤ b.start_addr + b.frames * 4096)
        × (b.start_addr + b.frames * 4096 < max_memory + 4096)
        × ((p : ℕ) → p < total b → page_used b p ≡ ltb p 32)
  unfolding bitmap_init
  bitmap_init-starts words stored some_word pos low above top =
      let (up, near, aligned) = round_up_lem start_address low in
      let m : (max_memory + 2 ^ 32 - start) % 2 ^ 32 ≡ max_memory - start = omega arith in
      let frames = round_up ((max_memory + 2 ^ 32 - start) % 2 ^ 32) / 4096 in
      let (covers, tight) = round_up_cover start max_memory above (omega arith) in
      let cleared = clear_bytes memory (frames / 8) in
      let same : length cleared ≡ length memory = length-clear_bytes memory (frames / 8) in
      (
        record {
          stored = omega (arith, length-set cleared 0 0xFFFFFFFF, same);
          words = λ i. elim (get_or-set_either cleared 0 i 0xFFFFFFFF 0) [
            | inl new ↦ rw new (omega arith)
            | inr old ↦
                rw old (omega (arith, word_at-clear_bytes-le memory (frames / 8) i, words i))
          ];
          start_pos = omega arith;
          aligned = aligned;
          fits =
              rw m (round_up_rest start (max_memory - start) (omega arith) aligned (omega arith));
          unlocked = refl;
        },
        up,
        near,
        aligned,
        rw m covers,
        rw m tight,
        λ p inside.
            used_in-first cleared p (omega arith)
              (λ later. word_at-clear_bytes memory (frames / 8) (p / 32) words (omega arith)),
      )
