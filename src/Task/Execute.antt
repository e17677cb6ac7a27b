-- ===== src/Task/Execute.antt =====
-- `task_execute` of kernel/modules/task.c. What a callback does, by its address, is an argument: it
-- takes the process and its registers, and gives a value and what becomes of the state.
use dos.Prelude.{List, [], false, if◌then◌else◌, ℕ, ◌==◌, ◌||◌, ◌∷◌}
use dos.Process.{Scheduler, Process, process_ready, on}

-- The fields that are written behind the call.
pub finish : ℕ → Process → Process
finish value process = record process {
  r = record (process.r) { eax = value };
  state = process_ready;
  suspended = false;
}

-- The process of the task is read again behind the call.
pub call_back : (ℕ → ℕ → List ℕ → Scheduler → ℕ × Scheduler) → ℕ → Scheduler → Scheduler
unfolding finish
call_back run task s =
    let t = s.tasks.task task in
    let r = (s.process t.process).r in
    let (value, s') =
      run t.callback t.process (r.ebx ∷ r.ecx ∷ r.edx ∷ r.esi ∷ r.edi ∷ r.ebp ∷ []) s in
    on (s'.tasks.task task).process (finish value) s'

pub task_execute : (ℕ → ℕ → List ℕ → Scheduler → ℕ × Scheduler) → ℕ → Scheduler → Scheduler
unfolding call_back
task_execute run task s =
    let t = s.tasks.task task in
    if task == 0 || t.callback == 0 || t.process == 0 then s else call_back run task s
