-- ===== src/Process/Queue.antt =====
-- The ready queue of kernel/modules/process.c as a list.
use dos.Prelude.{
  Bool, List, [], arith, false, if◌then◌else◌, length, refl, some, true, ℕ, ◌++◌, ◌==◌, ◌∷◌, ◌≡◌,
  ◌≤◌,
}
use dos.Linked.{Chain, Chain-ext, Chain-append, Fresh, Distinct, last_of, link, last_node-Chain}
use dos.Process.{Scheduler, Process, next_of, set_next, process_add_ready_queue}

-- The ready queue is this list of processes, none of them twice.
abbrev pub IsQueue : Scheduler → List ℕ → Type 0
IsQueue s xs = Chain (next_of s) s.ready_queue xs × Distinct xs

-- No node of the one list is in the other.
abbrev pub Apart : List ℕ → List ℕ → Type 0
Apart [] ys = Unit {0}
Apart (x ∷ xs) ys = Fresh x ys × Apart xs ys

pub if_next :
    (c : Bool) (q : ℕ) (p : Process)
    → (if c then record p { next = q } else p).next ≡ (if c then q else p.next)
if_next true q p = refl
if_next false q p = refl

-- A process without its place in a queue.
abbrev pub unlinked : Process → Process
unlinked p = record p { next = 0 }

pub if_unlinked :
    (c : Bool) (q : ℕ) (p : Process)
    → unlinked (if c then record p { next = q } else p) ≡ unlinked p
if_unlinked true q p = refl
if_unlinked false q p = refl

Apart-last_of : (x : ℕ) (xs ys : List ℕ) → Apart (x ∷ xs) ys → Fresh (last_of x xs) ys
Apart-last_of x [] ys (fresh, _) = fresh
Apart-last_of x (y ∷ xs) ys (_, apart) = Apart-last_of y xs ys apart

-- `process_add_ready_queue` of a process ends, and appends to the queue not only the process but all
-- that its `next` pointer leads to; it changes nothing else of any process.
pub process_add_ready_queue_lem :
    (fuel : ℕ) (p : ℕ) (xs ps : List ℕ) (s : Scheduler)
    → IsQueue s xs
    → Chain (next_of s) p ps
    → Apart xs ps
    → length xs ≤ fuel
    → (s' : Scheduler) × (process_add_ready_queue fuel p s ≡ some s')
      × Chain (next_of s') s'.ready_queue (xs ++ ps)
      × ((x : ℕ) → unlinked (s'.process x) ≡ unlinked (s.process x))
unfolding process_add_ready_queue
process_add_ready_queue_lem fuel p [] ps s (chain, distinct) added apart enough =
    let empty : (s.ready_queue == 0) ≡ true = ground (arith, chain) in
    rw empty (record s { ready_queue = p }, refl, added, λ x. refl)
process_add_ready_queue_lem fuel p (x ∷ xs) ps s (chain, distinct) added apart enough =
    let (here, above, _) = chain in
    let some_node : (s.ready_queue == 0) ≡ false = ground (arith, here, above) in
    let last = last_of x xs in
    let found = last_node-Chain fuel (next_of s) s.ready_queue x xs chain enough in
    let fresh = Apart-last_of x xs ps apart in
    let linked = Chain-append (next_of s) s.ready_queue x p xs ps chain distinct fresh added in
    let s' = set_next last p s in
    (
      s',
      rw (some_node, found) refl,
      Chain-ext (link (next_of s) last p) (next_of s') s.ready_queue ((x ∷ xs) ++ ps)
          (λ y. if_next (y == last) p (s.process y)) linked,
      λ y. if_unlinked (y == last) p (s.process y),
    )
