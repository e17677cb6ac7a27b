-- ===== src/Task/Tests.antt =====
-- Concrete queues for kernel/modules/task.c.
use dos.Prelude.{[], arith, if◌then◌else◌, refl, some, ◌==◌, ◌∷◌, ◌≡◌}
use dos.Linked.{Chain}
use dos.Task.{Tasks, next_of, task_pop, task_remove_all_from}
use dos.Task.Queue.{task_pop_lem, task_remove_all_from_next}

-- Task 10 and then task 20, both of process 7; task 30 is in no queue.
abbrev two_tasks : Tasks
two_tasks = record {
  queue = 10;
  task = λ t. record { process = 7; callback = 1; next = if t == 10 then 20 else 0 };
  freed = [];
}

task_pop_example :
    ((task_pop two_tasks).0 ≡ 10)
    × Chain (next_of (task_pop two_tasks).1) ((task_pop two_tasks).1.queue) (20 ∷ [])
task_pop_example =
    task_pop_lem 10 (20 ∷ []) two_tasks
      (refl, λ e. absurd (omega arith), (refl, λ e. absurd (omega arith), refl))

remove_all_from_example :
    (s' : Tasks) × (task_remove_all_from 3 7 two_tasks ≡ some s')
    × (s'.freed ≡ 10 ∷ 20 ∷ [])
    × (s'.queue ≡ 20)
remove_all_from_example =
    task_remove_all_from_next 0 7 two_tasks (λ e. absurd (omega arith)) (λ e. absurd (omega arith))
      (λ e. absurd (omega arith)) refl refl refl
