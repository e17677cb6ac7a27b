-- ===== src/Prelude/Lists.antt =====
-- C arrays as lists, measured and indexed by native numbers.
use Prim.Native.Nat.{ℕ, zero, suc, ◌+◌, ◌≤◌, ◌<◌}
use mathlib.Core.Path.{◌≡◌, refl, ap, ap₂, ◌∙◌}
use mathlib.Core.Logic.{◌≢◌, ◌⊎◌, inl, inr}
use mathlib.Core.List.{List, [], ◌∷◌, ◌++◌}
use native.Mathlib.Omega.{arith}

module _ {ℓ} {A : Type ℓ} where
  abbrev pub length : List A → ℕ
  length [] = 0
  length (x ∷ xs) = suc (length xs)

  abbrev pub get_or : List A → ℕ → A → A
  get_or [] i d = d
  get_or (x ∷ xs) zero d = x
  get_or (x ∷ xs) (suc i) d = get_or xs i d

  -- A write out of bounds changes nothing.
  abbrev pub set : List A → ℕ → A → List A
  set [] i v = []
  set (x ∷ xs) zero v = v ∷ xs
  set (x ∷ xs) (suc i) v = x ∷ set xs i v

  abbrev pub take : ℕ → List A → List A
  take zero xs = []
  take (suc n) [] = []
  take (suc n) (x ∷ xs) = x ∷ take n xs

  abbrev pub drop : ℕ → List A → List A
  drop zero xs = xs
  drop (suc n) [] = []
  drop (suc n) (x ∷ xs) = drop n xs

  abbrev pub replicate : ℕ → A → List A
  replicate zero a = []
  replicate (suc n) a = a ∷ replicate n a

module _ {ℓ} {A : Type ℓ} where
  pub length-append : (xs ys : List A) → length (xs ++ ys) ≡ length xs + length ys
  length-append [] ys = omega arith
  length-append (x ∷ xs) ys = omega (arith, length-append xs ys)

  pub length-set : (xs : List A) (i : ℕ) (v : A) → length (set xs i v) ≡ length xs
  length-set [] i v = refl
  length-set (x ∷ xs) zero v = refl
  length-set (x ∷ xs) (suc i) v = ap suc (length-set xs i v)

  pub get_or-set_self :
      (xs : List A) (i : ℕ) (v d : A) → i < length xs → get_or (set xs i v) i d ≡ v
  get_or-set_self [] i v d h = absurd (omega arith)
  get_or-set_self (x ∷ xs) zero v d h = refl
  get_or-set_self (x ∷ xs) (suc i) v d h = get_or-set_self xs i v d (omega arith)

  pub get_or-set_ne :
      (xs : List A) (i j : ℕ) (v d : A) → i ≢ j → get_or (set xs i v) j d ≡ get_or xs j d
  get_or-set_ne [] i j v d h = refl
  get_or-set_ne (x ∷ xs) zero zero v d h = absurd (h refl)
  get_or-set_ne (x ∷ xs) zero (suc j) v d h = refl
  get_or-set_ne (x ∷ xs) (suc i) zero v d h = refl
  get_or-set_ne (x ∷ xs) (suc i) (suc j) v d h = get_or-set_ne xs i j v d (λ e. h (ap suc e))

  pub set-set : (xs : List A) (i : ℕ) (v w : A) → set (set xs i v) i w ≡ set xs i w
  set-set [] i v w = refl
  set-set (x ∷ xs) zero v w = refl
  set-set (x ∷ xs) (suc i) v w = ap (λ t. x ∷ t) (set-set xs i v w)

  pub set-get_or : (xs : List A) (i : ℕ) (d : A) → i < length xs → set xs i (get_or xs i d) ≡ xs
  set-get_or [] i d h = refl
  set-get_or (x ∷ xs) zero d h = refl
  set-get_or (x ∷ xs) (suc i) d h = ap (λ t. x ∷ t) (set-get_or xs i d (omega arith))

  pub get_or-set_either :
      (xs : List A) (i j : ℕ) (v d : A)
      → (get_or (set xs i v) j d ≡ v) ⊎ (get_or (set xs i v) j d ≡ get_or xs j d)
  get_or-set_either [] i j v d = inr refl
  get_or-set_either (x ∷ xs) zero zero v d = inl refl
  get_or-set_either (x ∷ xs) zero (suc j) v d = inr refl
  get_or-set_either (x ∷ xs) (suc i) zero v d = inr refl
  get_or-set_either (x ∷ xs) (suc i) (suc j) v d = get_or-set_either xs i j v d

  pub list_ext :
      (d : A) (xs ys : List A)
      → length xs ≡ length ys
      → ((i : ℕ) → get_or xs i d ≡ get_or ys i d)
      → xs ≡ ys
  list_ext d [] [] e h = refl
  list_ext d [] (y ∷ ys) e h = absurd (omega arith)
  list_ext d (x ∷ xs) [] e h = absurd (omega arith)
  list_ext d (x ∷ xs) (y ∷ ys) e h = ap₂ ◌∷◌ (h 0) (list_ext d xs ys (omega arith) (λ i. h (suc i)))

  pub set_out_of_range : (xs : List A) (i : ℕ) (v : A) → length xs ≤ i → set xs i v ≡ xs
  set_out_of_range [] i v h = refl
  set_out_of_range (x ∷ xs) zero v h = absurd (omega arith)
  set_out_of_range (x ∷ xs) (suc i) v h = ap (λ t. x ∷ t) (set_out_of_range xs i v (omega arith))

  pub length-replicate : (n : ℕ) (a : A) → length (replicate n a) ≡ n
  length-replicate zero a = refl
  length-replicate (suc n) a = ap suc (length-replicate n a)

  pub get_or-replicate : (n i : ℕ) (a : A) → get_or (replicate n a) i a ≡ a
  get_or-replicate zero i a = refl
  get_or-replicate (suc n) zero a = refl
  get_or-replicate (suc n) (suc i) a = get_or-replicate n i a

-- The list of the values of a function at so many numbers from one on.
abbrev pub tabulate {ℓ} : {A : Type ℓ} → ℕ → ℕ → (ℕ → A) → List A
tabulate zero from f = []
tabulate (suc n) from f = f from ∷ tabulate n (from + 1) f

module _ {ℓ} {A : Type ℓ} where
  pub length-tabulate : (n from : ℕ) (f : ℕ → A) → length (tabulate n from f) ≡ n
  length-tabulate zero from f = refl
  length-tabulate (suc n) from f = ap suc (length-tabulate n (from + 1) f)

  pub tabulate_append :
      (n m from : ℕ) (f : ℕ → A)
      → tabulate n from f ++ tabulate m (from + n) f ≡ tabulate (n + m) from f
  tabulate_append zero m from f =
      ap₂ (λ (n from : ℕ). tabulate n from f) (omega arith) (omega arith)
  tabulate_append (suc n) m from f =
      let shift : from + suc n ≡ from + 1 + n = omega arith in
      let sum : suc (n + m) ≡ suc n + m = omega arith in
      let rest : tabulate n (from + 1) f ++ tabulate m (from + suc n) f
          ≡ tabulate (n + m) (from + 1) f =
        ap (λ t. tabulate n (from + 1) f ++ tabulate m t f) shift
        ∙ tabulate_append n m (from + 1) f in
      ap (λ t. f from ∷ t) rest ∙ ap (λ t. tabulate t from f) sum

  pub tabulate_ext :
      (n from to : ℕ) (f g : ℕ → A)
      → ((k : ℕ) → k < n → f (from + k) ≡ g (to + k))
      → tabulate n from f ≡ tabulate n to g
  tabulate_ext zero from to f g h = refl
  tabulate_ext (suc n) from to f g h =
      let head : f from ≡ g to = ap f (omega arith) ∙ h 0 (omega arith) ∙ ap g (omega arith) in
      let step : (k : ℕ) → k < n → f (from + 1 + k) ≡ g (to + 1 + k) =
        λ k lt. ap f (omega arith) ∙ h (suc k) (omega arith) ∙ ap g (omega arith) in
      ap₂ ◌∷◌ head (tabulate_ext n (from + 1) (to + 1) f g step)

  pub get_or-tabulate :
      (n from i : ℕ) (f : ℕ → A) (d : A) → i < n → get_or (tabulate n from f) i d ≡ f (from + i)
  get_or-tabulate zero from i f d h = absurd (omega arith)
  get_or-tabulate (suc n) from zero f d h = ap f (omega arith)
  get_or-tabulate (suc n) from (suc i) f d h =
      get_or-tabulate n (from + 1) i f d (omega arith) ∙ ap f (omega arith)
