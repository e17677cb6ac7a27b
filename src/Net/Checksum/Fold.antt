-- ===== src/Net/Checksum/Fold.antt =====
-- The checksum of kernel/modules/net: the sum of its input and of the checksum folds to all ones.
use dos.Prelude.{
  Bool-cases, List, [], ap, arith, inl, inr, length, refl, suc, zero, ℕ, ◌%◌, ◌*◌, ◌+◌, ◌-◌, ◌/◌,
  ◌<◌, ◌==◌, ◌^◌, ◌∙◌, ◌∷◌, ◌≡◌, ◌≤◌,
}
use dos.Net.Checksum.{add_words, fold_carries, finish_checksum}

fold_carries-mod : (n c : ℕ) → fold_carries n c % 65535 ≡ c % 65535
unfolding fold_carries
fold_carries-mod zero c = refl
fold_carries-mod (suc n) c = elim (Bool-cases (c / 2 ^ 16 == 0)) [
  | inl e ↦ rw e refl
  | inr e ↦ rw e (fold_carries-mod n (c % 2 ^ 16 + c / 2 ^ 16) ∙ omega arith)
]

fold_carries-pos : (n c : ℕ) → 0 < c → 0 < fold_carries n c
unfolding fold_carries
fold_carries-pos zero c pos = pos
fold_carries-pos (suc n) c pos = elim (Bool-cases (c / 2 ^ 16 == 0)) [
  | inl e ↦ rw e pos
  | inr e ↦ rw e (fold_carries-pos n (c % 2 ^ 16 + c / 2 ^ 16) (omega (arith, pos)))
]

-- Two rounds are enough.
pub fold_carries-lt : (c : ℕ) → c < 2 ^ 32 → fold_carries 2 c < 2 ^ 16
unfolding fold_carries
fold_carries-lt c small = ground (arith, small)

total_pos : (c : ℕ) → c < 2 ^ 32 → 0 < c + (2 ^ 16 - 1 - fold_carries 2 c % 2 ^ 16)
unfolding fold_carries
total_pos c small = ground (arith, small)

-- When the checksum of a sum is added to it, the checksum of that is 0.
pub finish_checksum-complement :
    (c : ℕ) → c + 2 ^ 16 < 2 ^ 32 → finish_checksum (c + finish_checksum c) ≡ 0
unfolding finish_checksum
finish_checksum-complement c small =
    let low = fold_carries-lt c (omega (arith, small)) in
    let same = fold_carries-mod 2 c in
    let total = c + (2 ^ 16 - 1 - fold_carries 2 c % 2 ^ 16) in
    let whole = fold_carries-mod 2 total in
    let top = fold_carries-lt total (omega (arith, small)) in
    let pos = fold_carries-pos 2 total (total_pos c (omega (arith, small))) in
    omega (arith, low, same, whole, top, pos)

-- Where a sum starts does not matter to what is added.
pub add_words-plus :
    (bytes : List ℕ) (c k : ℕ)
    → add_words bytes ((c + k) % 2 ^ 32) ≡ (add_words bytes c + k) % 2 ^ 32
unfolding add_words
add_words-plus [] c k = refl
add_words-plus (a ∷ []) c k = omega arith
add_words-plus (a ∷ b ∷ bytes) c k =
    let order : ((c + k) % 2 ^ 32 + (a + b * 2 ^ 8)) % 2 ^ 32
        ≡ ((c + (a + b * 2 ^ 8)) % 2 ^ 32 + k) % 2 ^ 32 =
      omega arith in
    ap (add_words bytes) order ∙ add_words-plus bytes ((c + (a + b * 2 ^ 8)) % 2 ^ 32) k

pub data AllBytes : List ℕ → Type 0 where
  nil : AllBytes []
  cons : {byte : ℕ} {bytes : List ℕ} → byte < 256 → AllBytes bytes → AllBytes (byte ∷ bytes)

pub add_words-le :
    {bytes : List ℕ} (c : ℕ) → AllBytes bytes → add_words bytes c ≤ c + 65535 * length bytes
unfolding add_words
add_words-le c nil = omega arith
add_words-le c (cons low nil) = omega (arith, low)
add_words-le c (cons {byte = a} low (cons {byte = b} {bytes} high rest)) =
    let more = add_words-le ((c + (a + b * 2 ^ 8)) % 2 ^ 32) rest in omega (arith, low, high, more)
