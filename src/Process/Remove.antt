-- ===== src/Process/Remove.antt =====
-- `process_remove_ready_queue` of kernel/modules/process.c on the ready queue as a list.
use dos.Prelude.{
  Bool-cases, List, [], ap, arith, false, inl, inr, length, refl, some, suc, sym, true, zero, ℕ,
  ℕ_discrete, ◌<◌, ◌==◌, ◌∙◌, ◌∷◌, ◌≡◌, ◌≢◌,
}
use dos.Linked.{Chain, Chain-ext, Chain-link, Fresh, Distinct, without, link}
use dos.Process.{Scheduler, next_of, set_next, process_remove_ready_queue, remove_loop}
use dos.Process.Queue.{IsQueue, unlinked, if_next, if_unlinked}

-- The state after the loop has gone from the node `x`, which is not `p`, over the nodes `rest`.
record IsRemoved (p x : ℕ) (rest : List ℕ) (s s' : Scheduler) : Type 0 where
  chain : Chain (next_of s') x (x ∷ without p rest)
  front : s'.ready_queue ≡ s.ready_queue
  frame : (y : ℕ) → Fresh y (x ∷ rest) → next_of s' y ≡ next_of s y
  kept : (y : ℕ) → unlinked (s'.process y) ≡ unlinked (s.process y)

unlink-IsRemoved :
    (p x z : ℕ) (zs : List ℕ) (s : Scheduler)
    → x ≢ 0
    → (z == p) ≡ true
    → Fresh x zs
    → Chain (next_of s) (next_of s z) zs
    → IsRemoved p x (z ∷ zs) s (set_next x (next_of s z) s)
unlink-IsRemoved p x z zs s some_node found fresh chain =
    let self : (x == x) ≡ true = ground arith in
    let s' = set_next x (next_of s z) s in
    let moved : (y : ℕ) → next_of s' y ≡ link (next_of s) x (next_of s z) y =
      λ y. if_next (y == x) (next_of s z) (s.process y) in
    let there : next_of s' x ≡ next_of s z = moved x ∙ rw self refl in
    let rest : Chain (next_of s') (next_of s z) zs =
      Chain-ext (link (next_of s) x (next_of s z)) (next_of s') (next_of s z) zs moved
        (Chain-link (next_of s) x (next_of s z) (next_of s z) zs fresh chain) in
    record {
      chain = rw found (refl, some_node, rw there rest);
      front = refl;
      frame = λ y (apart, _).
          let other : (y == x) ≡ false = ground (arith, apart) in moved y ∙ rw other refl;
      kept = λ y. if_unlinked (y == x) (next_of s z) (s.process y);
    }

pass-IsRemoved :
    (p x z : ℕ) (zs : List ℕ) (s s' : Scheduler)
    → x ≢ 0
    → z ≢ p
    → next_of s x ≡ z
    → Fresh x (z ∷ zs)
    → IsRemoved p z zs s s'
    → IsRemoved p x (z ∷ zs) s s'
pass-IsRemoved p x z zs s s' some_node differs here fresh removed =
    let other : (z == p) ≡ false = ground (arith, differs) in
    let there : next_of s' x ≡ z = removed.frame x fresh ∙ here in
    record {
      chain = rw other (refl, some_node, rw there removed.chain);
      front = removed.front;
      frame = λ y (_, apart). removed.frame y apart;
      kept = removed.kept;
    }

remove_loop-IsRemoved :
    (fuel p x : ℕ) (rest : List ℕ) (s : Scheduler)
    → x ≢ 0
    → Distinct (x ∷ rest)
    → Chain (next_of s) (next_of s x) rest
    → length rest < fuel
    → (s' : Scheduler) × (remove_loop fuel p x (next_of s x) s ≡ some s') × IsRemoved p x rest s s'
unfolding remove_loop
remove_loop-IsRemoved zero p x rest s above distinct chain enough = absurd (omega arith)
remove_loop-IsRemoved (suc fuel) p x [] s above distinct chain enough =
    let at_end : (next_of s x == 0) ≡ true = ground (arith, chain) in
    (
      s,
      rw at_end refl,
      record { chain = (refl, above, chain); front = refl; frame = λ y _. refl; kept = λ y. refl },
    )
remove_loop-IsRemoved (suc fuel) p x (z ∷ zs) s above distinct chain enough =
    let (here, some_node, rest) = chain in
    let (fresh, later) = distinct in
    let inner : (z == 0) ≡ false = ground (arith, some_node) in
    let linked : (x == 0) ≡ false = ground (arith, above) in
    elim (ℕ_discrete z p) [
      | yes same ↦
          let found : (z == p) ≡ true = ground (arith, same) in
          let (_, fresh_rest) = fresh in
          (
            set_next x (next_of s z) s,
            rw (sym here, inner, found, linked) refl,
            unlink-IsRemoved p x z zs s above found fresh_rest rest,
          )
      | no differs ↦
          let (s', e, removed) =
            remove_loop-IsRemoved fuel p z zs s some_node later rest (omega arith) in
          let other : (z == p) ≡ false = ground (arith, differs) in
          (
            s',
            rw (sym here, inner, other) e,
            pass-IsRemoved p x z zs s s' above differs (sym here) fresh removed,
          )
    ]

-- `process_remove_ready_queue` ends, and takes the process out of the queue, if it is there: the
-- others stay in their order, and no field of any process changes but `next`.
pub process_remove_ready_queue_lem :
    (fuel p : ℕ) (xs : List ℕ) (s : Scheduler)
    → IsQueue s xs
    → length xs < fuel
    → (s' : Scheduler) × (process_remove_ready_queue fuel p s ≡ some s')
      × Chain (next_of s') s'.ready_queue (without p xs)
      × ((y : ℕ) → unlinked (s'.process y) ≡ unlinked (s.process y))
unfolding process_remove_ready_queue remove_loop
process_remove_ready_queue_lem zero p xs s queue enough = absurd (omega arith)
process_remove_ready_queue_lem (suc fuel) p [] s (chain, _) enough =
    let empty : (s.ready_queue == 0) ≡ true = ground (arith, chain) in
    (s, rw empty refl, chain, λ y. refl)
process_remove_ready_queue_lem (suc fuel) p (x ∷ xs) s (chain, distinct) enough =
    let (here, above, rest) = chain in
    let inner : (x == 0) ≡ false = ground (arith, above) in
    elim (Bool-cases (x == p)) [
      | inl found ↦ (
        record s { ready_queue = next_of s x },
        rw (sym here, inner, found) refl,
        rw found rest,
        λ y. refl,
      )
      | inr other ↦
          let (s', e, removed) =
            remove_loop-IsRemoved fuel p x xs s above distinct rest (omega arith) in
          let front : x ≡ s'.ready_queue = here ∙ sym removed.front in
          let step : remove_loop (suc fuel) p 0 x s ≡ remove_loop fuel p x (next_of s x) s =
            rw (inner, other) refl in
          let from_x : remove_loop (suc fuel) p 0 s.ready_queue s ≡ remove_loop (suc fuel) p 0 x s =
            ap (λ n. remove_loop (suc fuel) p 0 n s) (sym here) in
          let (_, some_node, linked) = removed.chain in
          (s', from_x ∙ step ∙ e, rw other (front, some_node, linked), removed.kept)
    ]
