-- ===== src/Stdlib/Sort/Places.antt =====
-- How a step of `qsort` of kernel/libc/stdlib.c moves the elements of a range.
use dos.Prelude.{
  List, ap, arith, dec_lt, get_or, get_or-set_ne, get_or-set_self, inl, inr, length, length-set,
  refl, set, sym, ℕ, ℕ_discrete, ◌<◌, ◌∙◌, ◌≡◌, ◌≢◌, ◌≤◌, ◌⊎◌,
}
use dos.Stdlib.Sort.{swap}

module _ {ℓ} {A : Type ℓ} (outside : A) where
  -- The element at an index.
  abbrev pub at : List A → ℕ → A
  at base k = get_or base k outside

  -- An array is like another, but for a range in which it has only elements of that range.
  pub record IsMoved (start end : ℕ) (base result : List A) : Type ℓ where
    pub size : length result ≡ length base
    pub outer : (k : ℕ) → (k < start) ⊎ (end ≤ k) → at result k ≡ at base k
    pub inner :
        (k : ℕ)
        → start ≤ k
        → k < end
        → (m : ℕ) × (start ≤ m) × (m < end) × (at result k ≡ at base m)

  pub IsMoved-refl : (start end : ℕ) (base : List A) → IsMoved start end base base
  IsMoved-refl start end base = record {
    size = refl;
    outer = λ k h. refl;
    inner = λ k low high. (k, low, high, refl);
  }

  pub IsMoved-trans :
      {start end : ℕ} {base mid result : List A}
      → IsMoved start end base mid
      → IsMoved start end mid result
      → IsMoved start end base result
  IsMoved-trans {base} {mid} {result} f g = record {
    size = g.size ∙ f.size;
    outer = λ k h. g.outer k h ∙ f.outer k h;
    inner = λ k low high.
        let (m, low1, high1, e) = g.inner k low high in
        let (n, low2, high2, d) = f.inner m low1 high1 in (n, low2, high2, e ∙ d);
  }

  pub IsMoved-widen :
      {start end lower upper : ℕ} {base result : List A}
      → lower ≤ start
      → end ≤ upper
      → IsMoved start end base result
      → IsMoved lower upper base result
  IsMoved-widen {start} {end} {lower} {upper} {base} {result} low high f = record {
    size = f.size;
    outer = λ k h. f.outer k (ground (arith, h));
    inner = λ k l u. elim (dec_lt k start) [
      | yes before ↦ (k, l, u, f.outer k (inl before))
      | no after ↦ elim (dec_lt k end) [
        | no behind ↦ (k, l, u, f.outer k (inr (omega arith)))
        | yes inside ↦
            let (m, l2, u2, e) = f.inner k (omega arith) inside in (m, omega arith, omega arith, e)
      ]
    ];
  }

  pub swap-left :
      (base : List A) (a b : ℕ) → a < length base → at (swap outside base a b) a ≡ at base b
  unfolding swap
  swap-left base a b h = elim (ℕ_discrete a b) [
    | yes e ↦ rw (sym e) (
        get_or-set_self (set base a (at base a)) a (at base a) outside
          (rw (length-set base a (at base a)) h))
    | no ne ↦
        get_or-set_ne (set base a (at base b)) b a (at base a) outside (λ e. ne (sym e))
        ∙ get_or-set_self base a (at base b) outside h
  ]

  pub swap-right :
      (base : List A) (a b : ℕ) → b < length base → at (swap outside base a b) b ≡ at base a
  unfolding swap
  swap-right base a b h =
      get_or-set_self (set base a (at base b)) b (at base a) outside
        (rw (length-set base a (at base b)) h)

  pub swap-other :
      (base : List A) (a b k : ℕ) → a ≢ k → b ≢ k → at (swap outside base a b) k ≡ at base k
  unfolding swap
  swap-other base a b k na nb =
      get_or-set_ne (set base a (at base b)) b k (at base a) outside nb
      ∙ get_or-set_ne base a k (at base b) outside na

  pub length-swap : (base : List A) (a b : ℕ) → length (swap outside base a b) ≡ length base
  unfolding swap
  length-swap base a b =
      length-set (set base a (at base b)) b (at base a) ∙ length-set base a (at base b)

  pub swap-IsMoved :
      {start end : ℕ} (base : List A) (a b : ℕ)
      → start ≤ a
      → a < end
      → start ≤ b
      → b < end
      → end ≤ length base
      → IsMoved start end base (swap outside base a b)
  swap-IsMoved {start} {end} base a b la ha lb hb room = record {
    size = length-swap base a b;
    outer = λ k h. swap-other base a b k (λ e. ground (arith, h, e)) (λ e. ground (arith, h, e));
    inner = λ k low high. elim (ℕ_discrete a k) [
      | yes e ↦
          (b, lb, hb, ap (at (swap outside base a b)) (sym e) ∙ swap-left base a b (omega arith))
      | no na ↦ elim (ℕ_discrete b k) [
        | yes e ↦
            (a, la, ha, ap (at (swap outside base a b)) (sym e) ∙ swap-right base a b (omega arith))
        | no nb ↦ (k, low, high, swap-other base a b k na nb)
      ]
    ];
  }
