-- ===== src/Process/Tests.antt =====
-- A small process table for kernel/modules/process.c.
use dos.Prelude.{[], arith, false, if◌then◌else◌, refl, some, true, ℕ, ◌++◌, ◌+◌, ◌==◌, ◌∷◌, ◌≡◌}
use dos.Prelude.Int.{pos}
use dos.Mmu.{empty}
use dos.Linked.{Chain, without}
use dos.Process.{
  Registers, Process, Scheduler, process_ready, process_running, next_of,
  process_remove_ready_queue,
}
use dos.Process.Queue.{IsQueue, unlinked}
use dos.Process.Remove.{process_remove_ready_queue_lem}
use dos.Process.Switch.{process_round_robin, process_do_round_robin}
use dos.Process.Switch.Round.{FirstToRun, process_round_robin_lem}
use dos.Process.Switch.Preempt.{IsPreempted, process_do_round_robin_lem}

-- Registers that all hold one number.
abbrev all_registers : ℕ → Registers
all_registers n = record {
  cr4 = n;
  cr3 = n;
  cr2 = n;
  cr0 = n;
  gs = n;
  fs = n;
  es = n;
  ds = n;
  edi = n;
  esi = n;
  ebp = n;
  esp = n;
  ebx = n;
  edx = n;
  ecx = n;
  eax = n;
  int_no = n;
  err_code = n;
  eip = n;
  cs = n;
  eflags = n;
  useresp = n;
  ss = n;
}

abbrev a_process : ℕ → Process
a_process p = record {
  pid = p;
  uid = 0;
  gid = 0;
  euid = 0;
  egid = 0;
  state = if p == 2 then process_running else process_ready;
  suspended = false;
  preemptions = 0;
  exit_code = pos 0;
  signal = 0;
  waitpid = 0;
  waitpid_status = 0;
  pdt = 100 + p;
  r = all_registers p;
  fd = [];
  sig_handles = [];
  parent = 0;
  next = if p == 1 then 2 else if p == 2 then 3 else if p == 20 then 21 else 0;
}

-- The processes 1, 2 and 3 are in the ready queue, and 2 runs; process 9 is in no queue, and
-- 20 leads to 21.
abbrev pub three : Scheduler
three = record {
  process_next_pid = 10;
  ready_queue = 1;
  current_process = 2;
  kernel_idle_process = 50;
  round_robin = true;
  process = a_process;
  tasks = record {
    queue = 0;
    task = λ t. record { process = 0; callback = 0; next = 0 };
    freed = [];
  };
  mmu = record {
    bitmap = record { words = []; frames = 0; start_addr = 4096; locked = 0 };
    tables = λ f i. empty;
    ram = λ a. 0;
    current_pdt = 102;
    kernel_pdt = 99;
    old_pdt = 0;
    cr3 = 102;
    kernel_end = 0xc0200000;
    flushed = [];
    mmu_lock = 0;
  };
}

pub three-IsQueue : IsQueue three (1 ∷ 2 ∷ 3 ∷ [])
three-IsQueue = (
  (
    refl,
    λ e. absurd (omega arith),
    (refl, λ e. absurd (omega arith), (refl, λ e. absurd (omega arith), refl)),
  ),
  (
    (λ e. absurd (omega arith), (λ e. absurd (omega arith), tt)),
    ((λ e. absurd (omega arith), tt), (tt, tt)),
  ),
)

remove_example :
    (s' : Scheduler) × (process_remove_ready_queue 4 2 three ≡ some s')
    × Chain (next_of s') s'.ready_queue (without 2 (1 ∷ 2 ∷ 3 ∷ []))
    × ((x : ℕ) → unlinked (s'.process x) ≡ unlinked (three.process x))
remove_example =
    process_remove_ready_queue_lem 4 2 (1 ∷ 2 ∷ 3 ∷ []) three three-IsQueue (omega arith)

next_example :
    (node : ℕ) × FirstToRun three ((3 ∷ []) ++ 1 ∷ []) node
    × (process_round_robin 4 (all_registers 77) three
        ≡ some (
            if node == 0
            then (all_registers 77, three)
            else process_do_round_robin node (all_registers 77) three))
next_example =
    process_round_robin_lem 4 (all_registers 77) (1 ∷ []) (3 ∷ []) three three-IsQueue
      (λ e. absurd (omega arith)) (omega arith) refl

round_robin_example :
    (r' : Registers) × (s' : Scheduler) × (process_do_round_robin 3 (all_registers 77) three
      ≡ (r', s'))
    × IsPreempted 3 (all_registers 77) three r' s'
round_robin_example =
    process_do_round_robin_lem 3 (all_registers 77) three (λ e. absurd (omega arith))
      (λ e. absurd (omega arith)) (λ e. absurd (omega arith)) refl refl
