-- ===== src/Task.antt =====
-- kernel/modules/task.c: the queue of the tasks that processes wait for. Addresses are numbers, and
-- 0 is NULL. `free` leaves what the node holds, so a later read of the node still sees it; the nodes that
-- `free` was called with are kept in a list.
pub mod Queue
pub mod Execute
mod Tests
use dos.Prelude.{List, Option, [], if◌then◌else◌, none, some, suc, zero, ℕ, ◌++◌, ◌==◌, ◌>>=◌, ◌∷◌}
use dos.Linked.{last_node}

-- The process and the callback are addresses.
pub record Task : Type 0 where
  pub process : ℕ
  pub callback : ℕ
  pub next : ℕ

pub record Tasks : Type 0 where
  pub queue : ℕ
  pub task : ℕ → Task
  pub freed : List ℕ

abbrev pub next_of : Tasks → ℕ → ℕ
next_of s x = (s.task x).next

-- `a->next = q`.
abbrev pub set_next : ℕ → ℕ → Tasks → Tasks
set_next a q s = record s {
  task = λ x. if x == a then record (s.task x) { next = q } else s.task x;
}

-- None is a queue longer than the fuel.
pub task_push : ℕ → ℕ → Tasks → Option Tasks
unfolding last_node
task_push fuel task s =
    if s.queue == 0
    then some (record s { queue = task })
    else do last ← last_node fuel (next_of s) s.queue; some (set_next last task s)

pub task_pop : Tasks → ℕ × Tasks
task_pop s = (s.queue, if s.queue == 0 then s else record s { queue = next_of s s.queue })

-- The loop of `task_remove_all_from`; `prev` is the node that was visited last, removed or not.
pub remove_loop : ℕ → ℕ → ℕ → ℕ → Tasks → Option Tasks
remove_loop zero p prev node s = none
remove_loop (suc fuel) p prev node s =
    let unlinked =
      if prev == 0 then record s { queue = next_of s node } else set_next prev (next_of s node) s in
    let removed = record unlinked { freed = unlinked.freed ++ node ∷ [] } in
    let s' = if (s.task node).process == p then removed else s in
    let rest = remove_loop fuel p node (next_of s' node) s' in if node == 0 then some s else rest

pub task_remove_all_from : ℕ → ℕ → Tasks → Option Tasks
unfolding remove_loop
task_remove_all_from fuel p s = remove_loop fuel p 0 s.queue s
