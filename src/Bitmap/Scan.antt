-- ===== src/Bitmap/Scan.antt =====
-- What the nested search loops of kernel/modules/bitmap.c find: the first place, in address order,
-- that passes the test.
use dos.Prelude.{ℕ, zero, suc, ◌+◌, ◌*◌, ◌≤◌, ◌<◌, ◌≡◌, Bool, true, false, arith}
use dos.Prelude.{none, some, inl, inr, Bool-cases, Option-cases, ℕ_discrete}
use dos.Bitmap.{scan_bits, scan_words}

record FoundBit (test : ℕ → Bool) (n j k : ℕ) : Type 0 where
  low : j ≤ k
  high : k < j + n
  passes : test k ≡ true
  first : (m : ℕ) → j ≤ m → m < k → test m ≡ false

scan_bits-some : (test : ℕ → Bool) (n j k : ℕ) → scan_bits test n j ≡ some k → FoundBit test n j k
unfolding scan_bits
scan_bits-some test zero j k e = absurd (ground arith)
scan_bits-some test (suc n) j k e = elim (Bool-cases (test j)) [
  | inl hit ↦
      let same : j ≡ k = ground arith in
      record {
        low = omega arith;
        high = omega arith;
        passes = rw (← same) hit;
        first = λ m lo hi. absurd (omega arith);
      }
  | inr miss ↦
      let rest = scan_bits-some test n (j + 1) k (ground arith) in
      record {
        low = omega (arith, rest.low);
        high = omega (arith, rest.high);
        passes = rest.passes;
        first = λ m lo hi. ground (arith, rest.first m);
      }
]

scan_bits-none :
    (test : ℕ → Bool) (n j m : ℕ) → scan_bits test n j ≡ none → j ≤ m → m < j + n → test m ≡ false
unfolding scan_bits
scan_bits-none test zero j m e lo hi = absurd (omega arith)
scan_bits-none test (suc n) j m e lo hi = ground (arith, scan_bits-none test n (j + 1) m)

-- Place `(a, b)` is the first that passes, among the words from `i` on.
pub record Found (test : ℕ → ℕ → Bool) (n i a b : ℕ) : Type 0 where
  pub low : i ≤ a
  pub high : a < i + n
  pub bit : b < 32
  pub passes : test a b ≡ true
  pub first : (a' b' : ℕ) → i ≤ a' → b' < 32 → a' * 32 + b' < a * 32 + b → test a' b' ≡ false

pub scan_words-some :
    (test : ℕ → ℕ → Bool) (n i a b : ℕ) → scan_words test n i ≡ some (a, b) → Found test n i a b
unfolding scan_words
scan_words-some test zero i a b e = absurd (ground arith)
scan_words-some test (suc n) i a b e = elim (Option-cases (scan_bits (test i) 32 0)) [
  | inl miss ↦
      let rest = scan_words-some test n (i + 1) a b (ground arith) in
      record {
        low = omega (arith, rest.low);
        high = omega (arith, rest.high);
        bit = rest.bit;
        passes = rest.passes;
        first = λ a' b' lo hb lt. elim (ℕ_discrete i a') [
          | yes p ↦ rw (← p) (scan_bits-none (test i) 32 0 b' miss (omega arith) (omega arith))
          | no p ↦ rest.first a' b' (omega arith) hb lt
        ];
      }
  | inr (k, hit) ↦
      let found = scan_bits-some (test i) 32 0 k hit in
      let same_word : i ≡ a = ground arith in
      let same_bit : k ≡ b = ground arith in
      record {
        low = omega arith;
        high = omega arith;
        bit = omega (arith, found.high);
        passes = rw (← same_word, ← same_bit) found.passes;
        first = λ a' b' lo hb lt.
            let p : i ≡ a' = omega (arith, found.high) in
            rw (← p) (found.first b' (omega arith) (omega arith));
      }
]

pub scan_words-none :
    (test : ℕ → ℕ → Bool) (n i a b : ℕ)
    → scan_words test n i ≡ none
    → i ≤ a
    → a < i + n
    → b < 32
    → test a b ≡ false
unfolding scan_words
scan_words-none test zero i a b e lo hi hb = absurd (omega arith)
scan_words-none test (suc n) i a b e lo hi hb = elim (Option-cases (scan_bits (test i) 32 0)) [
  | inl miss ↦ elim (ℕ_discrete i a) [
    | yes p ↦ rw (← p) (scan_bits-none (test i) 32 0 b miss (omega arith) (omega arith))
    | no p ↦ ground (arith, scan_words-none test n (i + 1) a b)
  ]
  | inr (k, hit) ↦ absurd (ground arith)
]
