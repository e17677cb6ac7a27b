-- ===== src/Process/Life.antt =====
-- Creation, destruction and waiting in kernel/modules/process.c.
use dos.Prelude.{
  Bool, Option, false, get_or, if◌then◌else◌, length, ltb, map, replicate, set, some, true, ℕ, ◌&&◌,
  ◌+◌, ◌==◌, ◌>>=◌,
}
use dos.Prelude.Int.{ℤ}
use dos.Mmu.{mmu_free_pages}
use dos.Mmu.Access.{mmu_writel}
use dos.Bitmap.{bitmap_free_pages}
use dos.Task.{task_remove_all_from}
use dos.Process.{
  Registers, Process, Scheduler, process_ready, process_zombie, FileDescriptor, on, each,
  process_add_ready_queue, process_remove_ready_queue, process_by_pid,
}
use dos.Process.Switch.{process_idle}

-- Registers that `calloc` has cleared.
abbrev no_registers : Registers
no_registers = record {
  cr4 = 0;
  cr3 = 0;
  cr2 = 0;
  cr0 = 0;
  gs = 0;
  fs = 0;
  es = 0;
  ds = 0;
  edi = 0;
  esi = 0;
  ebp = 0;
  esp = 0;
  ebx = 0;
  edx = 0;
  ecx = 0;
  eax = 0;
  int_no = 0;
  err_code = 0;
  eip = 0;
  cs = 0;
  eflags = 0;
  useresp = 0;
  ss = 0;
}

abbrev closed : FileDescriptor
closed = record { used = false; offset = 0; flags = 0 }

-- `node` is the address that `calloc` gives, 27 and 35 are the segments of ring 3, and 2 is SIG_DFL.
pub process_create : ℕ → ℕ → ℕ → ℕ → ℕ → Bool → Scheduler → Option (ℕ × Scheduler)
process_create fuel node entry stack_base pdt switch_to s = do
  let process : Process = record {
    pid = s.process_next_pid;
    uid = 0;
    gid = 0;
    euid = 0;
    egid = 0;
    state = process_ready;
    suspended = false;
    preemptions = 0;
    exit_code = ℤ.pos 0;
    signal = 0;
    waitpid = 0;
    waitpid_status = 0;
    pdt = pdt;
    r = record no_registers {
      cs = 27;
      ds = 35;
      es = 35;
      fs = 35;
      gs = 35;
      eip = entry;
      useresp = stack_base;
      ebp = stack_base;
    };
    fd = replicate 256 closed;
    sig_handles = replicate 32 2;
    parent = 0;
    next = 0;
  }
  let counted = record s { process_next_pid = s.process_next_pid + 1 }
  let created = on node (λ _. process) counted
  let current = if switch_to then node else s.current_process
  s' ← process_add_ready_queue fuel node (record created { current_process = current })
  some (node, s')

-- The loop that gives the children of `p` to its parent.
pub adopt : ℕ → ℕ → Scheduler → Scheduler
adopt p node s =
    if (s.process node).parent == p
    then on node (λ child. record child { parent = (s.process p).parent }) s
    else s

-- 786432 is (0xc0000000 >> 22) * 1024.
pub process_destroy : ℕ → ℕ → ℤ → Scheduler → Option Scheduler
unfolding adopt
process_destroy fuel p exit_code s =
    let pdt = (s.process p).pdt in
    let mmu = mmu_free_pages pdt 0 786432 s.mmu in
    let ended : Process → Process = λ node. record node {
      state = process_zombie;
      exit_code = exit_code;
      fd = map {A = FileDescriptor} (λ fd. record fd { used = false }) node.fd;
    } in
    let freed = record (on p ended s) {
      mmu = record mmu { bitmap = bitmap_free_pages mmu.bitmap pdt 1 };
    } in
    if p == s.kernel_idle_process then some s else do
      adopted ← each fuel (adopt p) freed.ready_queue freed
      removed ← process_remove_ready_queue fuel p adopted
      tasks ← task_remove_all_from fuel p removed.tasks
      some (record removed { tasks = tasks })

-- The body of the loop of `process_notify_waitpid`.
pub notify : ℕ → ℕ → ℕ → Scheduler → Scheduler
notify pid status node s =
    let waiting = s.process node in
    let woken =
      on node (λ p. record p { waitpid = 0; suspended = false; r = record p.r { eax = pid } }) s in
    let told = record woken { mmu = mmu_writel waiting.pdt waiting.waitpid_status status s.mmu } in
    if waiting.waitpid == pid then (if waiting.waitpid_status == 0 then woken else told) else s

pub process_notify_waitpid : ℕ → ℕ → ℕ → Scheduler → Option Scheduler
unfolding notify
process_notify_waitpid fuel pid status s = each fuel (notify pid status) s.ready_queue s

pub process_handle_int : ℕ → ℕ → Registers → Scheduler → Option (Registers × Scheduler)
unfolding process_destroy
process_handle_int fuel p r s = do s' ← process_destroy fuel p (ℤ.pos 1) s; some (process_idle r s')

-- The result is 0, or -EBADFD, which is none; `fd` is taken as unsigned by the comparison.
pub process_close_file : ℕ → ℕ → Scheduler → Bool × Scheduler
process_close_file p fd s =
    let files = (s.process p).fd in
    let file = get_or files fd closed in
    let s' =
      on p (λ process. record process { fd = set files fd (record file { used = false }) }) s in
    if ltb fd (length files) && file.used then (true, s') else (false, s)

pub process_set_by_pid : ℕ → ℕ → Scheduler → Option Scheduler
process_set_by_pid fuel pid s = do
  p ← process_by_pid fuel pid s
  some (if p == 0 then s else record s { current_process = p })
