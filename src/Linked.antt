-- ===== src/Linked.antt =====
-- Lists linked through a `next` pointer, as process_t, task_t and the queues of kernel/modules keep
-- them. A pointer is an address, 0 is NULL, and the loops have fuel for the nodes they visit.
use dos.Prelude.{
  Bool, Bool-cases, List, Option, [], arith, false, if◌then◌else◌, inl, inr, length, none, refl,
  some, suc, sym, true, zero, ℕ, ◌++◌, ◌<◌, ◌==◌, ◌∷◌, ◌≡◌, ◌≢◌, ◌≤◌,
}

-- `while (last->next) last = last->next`. None is a list longer than the fuel.
unfoldable pub last_node : ℕ → (ℕ → ℕ) → ℕ → Option ℕ
last_node zero next node = none
last_node (suc fuel) next node =
    let rest = last_node fuel next (next node) in if next node == 0 then some node else rest

-- The first node from `node` on that passes the test, or NULL.
unfoldable pub find_node : ℕ → (ℕ → ℕ) → (ℕ → Bool) → ℕ → Option ℕ
find_node zero next test node = none
find_node (suc fuel) next test node =
    let rest = find_node fuel next test (next node) in
    if node == 0 then some 0 else if test node then some node else rest

-- `next` with the pointer of one node changed.
abbrev pub link : (ℕ → ℕ) → ℕ → ℕ → ℕ → ℕ
link next a q x = if x == a then q else next x

-- The nodes that follow from one pointer to NULL.
abbrev pub Chain : (ℕ → ℕ) → ℕ → List ℕ → Type 0
Chain next node [] = node ≡ 0
Chain next node (x ∷ xs) = (x ≡ node) × (x ≢ 0) × Chain next (next x) xs

-- A node that is none of a list.
abbrev pub Fresh : ℕ → List ℕ → Type 0
Fresh p [] = Unit {0}
Fresh p (x ∷ xs) = (p ≢ x) × Fresh p xs

abbrev pub Distinct : List ℕ → Type 0
Distinct [] = Unit {0}
Distinct (x ∷ xs) = Fresh x xs × Distinct xs

abbrev pub last_of : ℕ → List ℕ → ℕ
last_of x [] = x
last_of x (y ∷ ys) = last_of y ys

-- The list without the first entry that is `p`.
abbrev pub without : ℕ → List ℕ → List ℕ
without p [] = []
without p (x ∷ xs) = if x == p then xs else x ∷ without p xs

-- The first entry that passes the test, or NULL.
abbrev pub first_of : (ℕ → Bool) → List ℕ → ℕ
first_of test [] = 0
first_of test (x ∷ xs) = if test x then x else first_of test xs

pub Chain-ext :
    (f g : ℕ → ℕ) (node : ℕ) (xs : List ℕ)
    → ((x : ℕ) → g x ≡ f x)
    → Chain f node xs
    → Chain g node xs
Chain-ext f g node [] same chain = chain
Chain-ext f g node (x ∷ xs) same (here, some_node, rest) =
    (here, some_node, rw (same x) (Chain-ext f g (f x) xs same rest))

pub Chain-link :
    (next : ℕ → ℕ) (a q node : ℕ) (xs : List ℕ)
    → Fresh a xs
    → Chain next node xs
    → Chain (link next a q) node xs
Chain-link next a q node [] fresh chain = chain
Chain-link next a q node (x ∷ xs) (apart, fresh) (here, some_node, rest) =
    let other : (x == a) ≡ false = ground (arith, apart) in
    (here, some_node, rw other (Chain-link next a q (next x) xs fresh rest))

pub Fresh-last_of : (p x : ℕ) (xs : List ℕ) → Fresh p (x ∷ xs) → p ≢ last_of x xs
Fresh-last_of p x [] (apart, fresh) = apart
Fresh-last_of p x (y ∷ ys) (apart, fresh) = Fresh-last_of p y ys fresh

-- Linking the last node of a list to another list appends that list.
pub Chain-append :
    (next : ℕ → ℕ) (node x q : ℕ) (xs ys : List ℕ)
    → Chain next node (x ∷ xs)
    → Distinct (x ∷ xs)
    → Fresh (last_of x xs) ys
    → Chain next q ys
    → Chain (link next (last_of x xs) q) node ((x ∷ xs) ++ ys)
Chain-append next node x q [] ys (here, some_node, rest) distinct fresh chain =
    let self : (x == x) ≡ true = ground arith in
    (here, some_node, rw self (Chain-link next x q q ys fresh chain))
Chain-append next node x q (z ∷ zs) ys (here, some_node, rest) (apart, distinct) fresh chain =
    let differs = Fresh-last_of x z zs apart in
    let other : (x == last_of z zs) ≡ false = ground (arith, differs) in
    (here, some_node, rw other (Chain-append next (next x) z q zs ys rest distinct fresh chain))

pub last_node-Chain :
    (fuel : ℕ) (next : ℕ → ℕ) (node x : ℕ) (xs : List ℕ)
    → Chain next node (x ∷ xs)
    → length (x ∷ xs) ≤ fuel
    → last_node fuel next node ≡ some (last_of x xs)
unfolding last_node
last_node-Chain zero next node x xs chain enough = absurd (omega arith)
last_node-Chain (suc fuel) next node x [] (here, some_node, rest) enough =
    let at_end : (next node == 0) ≡ true = rw (sym here) (ground (arith, rest)) in
    rw (at_end, here) refl
last_node-Chain (suc fuel) next node x (y ∷ ys) (here, some_node, rest) enough =
    let (there, more, _) = rest in
    let inner : (next node == 0) ≡ false = rw (sym here) (ground (arith, there, more)) in
    rw (inner, sym here) (last_node-Chain fuel next (next x) y ys rest (omega arith))

pub find_node-Chain :
    (fuel : ℕ) (next : ℕ → ℕ) (test : ℕ → Bool) (node : ℕ) (xs : List ℕ)
    → Chain next node xs
    → length xs < fuel
    → find_node fuel next test node ≡ some (first_of test xs)
unfolding find_node
find_node-Chain zero next test node xs chain enough = absurd (omega arith)
find_node-Chain (suc fuel) next test node [] chain enough = ground (arith, chain)
find_node-Chain (suc fuel) next test node (x ∷ xs) (here, some_node, rest) enough =
    let ih = find_node-Chain fuel next test (next x) xs rest (omega arith) in
    let inner : (x == 0) ≡ false = ground (arith, some_node) in
    rw (sym here, inner, ih) (elim (Bool-cases (test x)) [ inl e ↦ rw e refl | inr e ↦ rw e refl ])
