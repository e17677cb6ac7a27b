-- ===== src/Task/Queue.antt =====
-- The queue of kernel/modules/task.c as a list.
use dos.Prelude.{
  Bool, List, [], append_assoc, arith, false, if◌then◌else◌, length, refl, some, suc, sym, true, ℕ,
  ◌++◌, ◌==◌, ◌∙◌, ◌∷◌, ◌≡◌, ◌≢◌, ◌≤◌,
}
use dos.Linked.{
  Fresh-last_of, Chain, Chain-ext, Chain-append, Distinct, Fresh, last_of, link, last_node-Chain,
}
use dos.Task.{
  Task, Tasks, next_of, set_next, task_push, task_pop, remove_loop, task_remove_all_from,
}

if_next :
    (c : Bool) (q : ℕ) (t : Task)
    → (if c then record t { next = q } else t).next ≡ (if c then q else t.next)
if_next true q t = refl
if_next false q t = refl

-- `task_push` of a task whose `next` is NULL ends, and the task is then the last of the queue.
pub task_push_lem :
    (fuel t : ℕ) (xs : List ℕ) (s : Tasks)
    → Chain (next_of s) s.queue xs
    → Distinct xs
    → Chain (next_of s) t (t ∷ [])
    → Fresh t xs
    → length xs ≤ fuel
    → (s' : Tasks) × (task_push fuel t s ≡ some s') × Chain (next_of s') s'.queue (xs ++ t ∷ [])
unfolding task_push
task_push_lem fuel t [] s chain distinct added fresh enough =
    let empty : (s.queue == 0) ≡ true = ground (arith, chain) in
    (record s { queue = t }, rw empty refl, added)
task_push_lem fuel t (x ∷ xs) s chain distinct added fresh enough =
    let (here, above, _) = chain in
    let some_node : (s.queue == 0) ≡ false = ground (arith, here, above) in
    let last = last_of x xs in
    let found = last_node-Chain fuel (next_of s) s.queue x xs chain enough in
    let apart = Fresh-last_of t x xs fresh in
    let differs : last ≢ t = λ e. apart (sym e) in
    let s' = set_next last t s in
    (
      s',
      rw (some_node, found) refl,
      Chain-ext (link (next_of s) last t) (next_of s') s.queue ((x ∷ xs) ++ t ∷ [])
          (λ y. if_next (y == last) t (s.task y))
          (Chain-append (next_of s) s.queue x t xs (t ∷ []) chain distinct (differs, tt) added),
    )

-- `task_pop` gives the first task and leaves the others, and NULL for the empty queue.
pub task_pop_lem :
    (t : ℕ) (xs : List ℕ) (s : Tasks)
    → Chain (next_of s) s.queue (t ∷ xs)
    → ((task_pop s).0 ≡ t) × Chain (next_of (task_pop s).1) ((task_pop s).1.queue) xs
unfolding task_pop
task_pop_lem t xs s (here, above, rest) =
    let some_node : (s.queue == 0) ≡ false = ground (arith, here, above) in
    rw (some_node) (sym here, rw (sym here) rest)

remove_loop-front :
    (fuel p node : ℕ) (s : Tasks)
    → (node == 0) ≡ false
    → ((s.task node).process == p) ≡ true
    → remove_loop (suc fuel) p 0 node s
      ≡ remove_loop fuel p node
          (next_of s node)
          (record s { queue = next_of s node; freed = s.freed ++ node ∷ [] })
unfolding remove_loop
remove_loop-front fuel p node s some_node hit = rw (some_node, hit) refl

remove_loop-later :
    (fuel p prev node : ℕ) (s : Tasks)
    → (node == 0) ≡ false
    → (prev == 0) ≡ false
    → ((s.task node).process == p) ≡ true
    → remove_loop (suc fuel) p prev node s
      ≡ remove_loop fuel p node
          (next_of (set_next prev (next_of s node) s) node)
          (record (set_next prev (next_of s node) s) { freed = s.freed ++ node ∷ [] })
unfolding remove_loop
remove_loop-later fuel p prev node s some_node linked hit = rw (some_node, linked, hit) refl

remove_loop-end :
    (fuel p prev node : ℕ) (s : Tasks) → node ≡ 0 → remove_loop (suc fuel) p prev node s ≡ some s
unfolding remove_loop
remove_loop-end fuel p prev node s at_end =
    let done : (node == 0) ≡ true = ground (arith, at_end) in rw done refl

-- Of two tasks of one process that are all of the queue, `task_remove_all_from` frees both and no
-- other, but the second, which it unlinks from the first only, is the head of the queue afterwards.
pub task_remove_all_from_next :
    (fuel p : ℕ) (s : Tasks)
    → s.queue ≢ 0
    → next_of s s.queue ≢ 0
    → next_of s s.queue ≢ s.queue
    → next_of s (next_of s s.queue) ≡ 0
    → (s.task s.queue).process ≡ p
    → (s.task (next_of s s.queue)).process ≡ p
    → (s' : Tasks) × (task_remove_all_from (suc (suc (suc fuel))) p s ≡ some s')
      × (s'.freed ≡ s.freed ++ s.queue ∷ next_of s s.queue ∷ [])
      × (s'.queue ≡ next_of s s.queue)
unfolding task_remove_all_from
task_remove_all_from_next fuel p s above more differs at_end of_t of_u =
    let t = s.queue in
    let u = next_of s t in
    let t_node : (t == 0) ≡ false = ground (arith, above) in
    let u_node : (u == 0) ≡ false = ground (arith, more) in
    let apart : (u == t) ≡ false = ground (arith, differs) in
    let hit : ((s.task t).process == p) ≡ true = ground (arith, of_t) in
    let hit_u : ((s.task u).process == p) ≡ true = ground (arith, of_u) in
    let s_1 = record s { queue = u; freed = s.freed ++ t ∷ [] } in
    let s_2 : Tasks = record (set_next t (next_of s u) s_1) { freed = s_1.freed ++ u ∷ [] } in
    let unmoved : next_of s_2 u ≡ 0 = if_next (u == t) (next_of s u) (s.task u) ∙ rw apart at_end in
    (
      s_2,
      remove_loop-front (suc (suc fuel)) p t s t_node hit
          ∙ remove_loop-later (suc fuel) p t u s_1 u_node t_node hit_u
          ∙ remove_loop-end fuel p u (next_of s_2 u) s_2 unmoved,
      append_assoc s.freed (t ∷ []) (u ∷ []),
      refl,
    )
