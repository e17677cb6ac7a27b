-- ===== src/Stdlib/Sort/Count.antt =====
-- `swap` of kernel/libc/stdlib.c keeps how often an element stands in the array.
use dos.Prelude.{
  Bool, Bool-cases, List, [], ap, arith, get_or, get_or-set_ne, get_or-set_self, if◌then◌else◌, inl,
  inr, length, length-set, set, suc, sym, zero, ℕ, ℕ_discrete, ◌+◌, ◌<◌, ◌∙◌, ◌∷◌, ◌≡◌,
}
use dos.Stdlib.Sort.{swap}

one : Bool → ℕ
one b = if b then 1 else 0

module _ {ℓ} {A : Type ℓ} where
  -- How many elements pass a test.
  abbrev pub count : (A → Bool) → List A → ℕ
  count test [] = 0
  count test (x ∷ xs) = if test x then suc (count test xs) else count test xs

  count-set :
      (test : A → Bool) (outside : A) (xs : List A) (i : ℕ) (v : A)
      → i < length xs
      → count test (set xs i v) + one (test (get_or xs i outside)) ≡ count test xs + one (test v)
  unfolding one
  count-set test outside [] i v h = absurd (omega arith)
  count-set test outside (x ∷ xs) zero v h = elim (Bool-cases (test x)) [
    | inl e ↦ elim (Bool-cases (test v)) [
      | inl d ↦ rw (e, d) (omega arith)
      | inr d ↦ rw (e, d) (omega arith)
    ]
    | inr e ↦ elim (Bool-cases (test v)) [
      | inl d ↦ rw (e, d) (omega arith)
      | inr d ↦ rw (e, d) (omega arith)
    ]
  ]
  count-set test outside (x ∷ xs) (suc i) v h =
      let rest = count-set test outside xs i v (omega arith) in
      elim (Bool-cases (test x)) [ inl e ↦ rw e (omega (arith, rest)) | inr e ↦ rw e rest ]

  pub count-swap :
      (test : A → Bool) (outside : A) (base : List A) (a b : ℕ)
      → a < length base
      → b < length base
      → count test (swap outside base a b) ≡ count test base
  unfolding swap one
  count-swap test outside base a b ha hb =
      let first = count-set test outside base a (get_or base b outside) ha in
      let longer : b < length (set base a (get_or base b outside)) =
        rw (length-set base a (get_or base b outside)) hb in
      let second =
        count-set test outside (set base a (get_or base b outside)) b (get_or base a outside)
          longer in
      elim (ℕ_discrete a b) [
        | yes e ↦
            let same : get_or (set base a (get_or base b outside)) b outside
                ≡ get_or base b outside =
              ap (λ t. get_or (set base a (get_or base b outside)) t outside) (sym e)
              ∙ get_or-set_self base a (get_or base b outside) outside ha in
            omega (arith, first, second, ap (λ t. one (test t)) same)
        | no ne ↦
            let same : get_or (set base a (get_or base b outside)) b outside
                ≡ get_or base b outside =
              get_or-set_ne base a b (get_or base b outside) outside ne in
            omega (arith, first, second, ap (λ t. one (test t)) same)
      ]
