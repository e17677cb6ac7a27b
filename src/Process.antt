-- ===== src/Process.antt =====
-- kernel/modules/process.c: the processes, linked into the ready queue by their `next` pointers, and
-- the scheduler. Addresses are numbers, and 0 is NULL.
pub mod Switch
pub mod Life
pub mod Queue
pub mod Remove
pub mod Tests
use dos.Prelude.{
  Bool, List, Option, false, if◌then◌else◌, none, some, suc, true, zero, ℕ, ◌==◌, ◌>>=◌,
}
use dos.Prelude.Int.{ℤ}
use dos.Mmu.{Mmu, mmu_free_pages}
use dos.Mmu.Access.{mmu_writel}
use dos.Mmu.Switch.{mmu_load_pdt, mmu_load_kernel_pdt}
use dos.Bitmap.{bitmap_free_pages}
use dos.Linked.{last_node, find_node}
use dos.Task.{Tasks, task_remove_all_from}

pub record Registers : Type 0 where
  pub cr4 : ℕ
  pub cr3 : ℕ
  pub cr2 : ℕ
  pub cr0 : ℕ
  pub gs : ℕ
  pub fs : ℕ
  pub es : ℕ
  pub ds : ℕ
  pub edi : ℕ
  pub esi : ℕ
  pub ebp : ℕ
  pub esp : ℕ
  pub ebx : ℕ
  pub edx : ℕ
  pub ecx : ℕ
  pub eax : ℕ
  pub int_no : ℕ
  pub err_code : ℕ
  pub eip : ℕ
  pub cs : ℕ
  pub eflags : ℕ
  pub useresp : ℕ
  pub ss : ℕ

pub data ProcessState : Type 0 where
  process_new : ProcessState
  process_ready : ProcessState
  process_running : ProcessState
  process_waiting : ProcessState
  process_stopped : ProcessState
  process_zombie : ProcessState

abbrev pub is_ready : ProcessState → Bool
is_ready process_ready = true
is_ready _ = false

abbrev pub is_running : ProcessState → Bool
is_running process_running = true
is_running _ = false

pub record FileDescriptor : Type 0 where
  pub used : Bool
  pub offset : ℕ
  pub flags : ℕ

pub record Process : Type 0 where
  pub pid : ℕ
  pub uid : ℕ
  pub gid : ℕ
  pub euid : ℕ
  pub egid : ℕ
  pub state : ProcessState
  pub suspended : Bool
  pub preemptions : ℕ
  pub exit_code : ℤ
  pub signal : ℕ
  pub waitpid : ℕ
  pub waitpid_status : ℕ
  pub pdt : ℕ
  pub r : Registers
  pub fd : List FileDescriptor
  pub sig_handles : List ℕ
  pub parent : ℕ
  pub next : ℕ

-- The variables of process.c, the processes by their addresses, and what they stand on.
pub record Scheduler : Type 0 where
  pub process_next_pid : ℕ
  pub ready_queue : ℕ
  pub current_process : ℕ
  pub kernel_idle_process : ℕ
  pub round_robin : Bool
  pub process : ℕ → Process
  pub tasks : Tasks
  pub mmu : Mmu

abbrev pub next_of : Scheduler → ℕ → ℕ
next_of s x = (s.process x).next

-- A write to the fields of one process.
abbrev pub on : ℕ → (Process → Process) → Scheduler → Scheduler
on p f s = record s { process = λ x. if x == p then f (s.process x) else s.process x }

abbrev pub set_next : ℕ → ℕ → Scheduler → Scheduler
set_next a q s = on a (λ p. record p { next = q }) s

-- None is a queue longer than the fuel, here and below.
pub process_add_ready_queue : ℕ → ℕ → Scheduler → Option Scheduler
unfolding last_node
process_add_ready_queue fuel p s =
    if s.ready_queue == 0
    then some (record s { ready_queue = p })
    else do last ← last_node fuel (next_of s) s.ready_queue; some (set_next last p s)

pub remove_loop : ℕ → ℕ → ℕ → ℕ → Scheduler → Option Scheduler
remove_loop zero p prev node s = none
remove_loop (suc fuel) p prev node s =
    let rest = remove_loop fuel p node (next_of s node) s in
    if node == 0
    then some s
    else if node == p
    then some (
        if prev == 0
        then record s { ready_queue = next_of s node }
        else set_next prev (next_of s node) s)
    else rest

pub process_remove_ready_queue : ℕ → ℕ → Scheduler → Option Scheduler
unfolding remove_loop
process_remove_ready_queue fuel p s = remove_loop fuel p 0 s.ready_queue s

-- A loop over the ready queue that changes each process.
pub each : ℕ → (ℕ → Scheduler → Scheduler) → ℕ → Scheduler → Option Scheduler
each zero change node s = none
each (suc fuel) change node s =
    let s' = change node s in
    let rest = each fuel change (next_of s' node) s' in if node == 0 then some s else rest

pub process_by_pid : ℕ → ℕ → Scheduler → Option ℕ
unfolding find_node
process_by_pid fuel pid s =
    find_node fuel (next_of s) (λ node. (s.process node).pid == pid) s.ready_queue
