-- ===== src/Process/Switch.antt =====
-- The switches between processes of kernel/modules/process.c, from an interrupt whose saved
-- registers the functions read and write.
pub mod Round
pub mod Preempt
use dos.Prelude.{
  Bool, Option, get_or, if◌then◌else◌, not, some, ℕ, ◌%◌, ◌&&◌, ◌+◌, ◌-◌, ◌==◌, ◌>>=◌, ◌^◌, ◌||◌,
}
use dos.Mmu.Access.{mmu_writel}
use dos.Mmu.Switch.{mmu_load_pdt, mmu_load_kernel_pdt}
use dos.Linked.{find_node}
use dos.Process.{
  Registers, Process, Scheduler, ProcessState, process_ready, process_running, is_ready, is_running,
  on, next_of,
}

pub process_unload : Registers → Scheduler → Scheduler
process_unload r s =
    let s' = record s { mmu = mmu_load_kernel_pdt s.mmu } in
    if not s.round_robin
    then s
    else on s.current_process
        (λ p. record p { r = r; state = process_ready; preemptions = (p.preemptions + 1) % 2 ^ 32 })
        s'

pub process_reload : Registers → Scheduler → Registers × Scheduler
process_reload r s =
    let p = s.current_process in
    let s' = on p (λ p. record p { state = process_running }) s in
    if not s.round_robin
    then (r, s)
    else if is_running (s.process p).state
    then (r, s)
    else ((s.process p).r, record s' { mmu = mmu_load_pdt (s.process p).pdt s'.mmu })

-- Whether a handler is a function of the process, and not SIG_IGN, SIG_DFL or SIG_HOLD.
abbrev is_handler : ℕ → Bool
is_handler h = not (h == 0) && not (h == 1) && not (h == 2) && not (h == 3)

-- What `process_switch` does for a pending signal.
pub enter_handler : ℕ → Scheduler → Scheduler
enter_handler p s =
    let node = s.process p in
    let handler = get_or node.sig_handles node.signal 0 in
    let esp = node.r.useresp in
    let r' = record node.r { eip = handler; useresp = sub32 esp 8 } in
    let pushed =
      mmu_writel node.pdt (sub32 esp 8) node.r.eip
        (mmu_writel node.pdt (sub32 esp 4) node.signal s.mmu) in
    let s' = record (on p (λ node. record node { r = r' }) s) { mmu = pushed } in
    if node.signal == 0 then s else if is_handler handler then s' else s
  where
    sub32 : ℕ → ℕ → ℕ
    sub32 a b = (a + 2 ^ 32 - b) % 2 ^ 32

pub process_switch : ℕ → Registers → Scheduler → Registers × Scheduler
unfolding enter_handler
process_switch p r s =
    let left = on s.current_process (λ node. record node { state = process_ready }) s in
    let entered = enter_handler p (record left { current_process = p }) in
    let running = on p (λ node. record node { state = process_running }) entered in
    if s.current_process == p then (r, s) else (
      (entered.process p).r,
      record running { mmu = mmu_load_pdt (running.process p).pdt running.mmu },
    )

pub process_do_round_robin : ℕ → Registers → Scheduler → Registers × Scheduler
unfolding process_switch process_unload
process_do_round_robin p r s =
    let s' = if s.current_process == s.kernel_idle_process then s else process_unload r s in
    if p == 0 then (r, s) else process_switch p r s'

-- Whether a process may be switched to.
abbrev pub runnable : Scheduler → ℕ → Bool
runnable s node = not (s.process node).suspended && is_ready (s.process node).state

-- The second search of `process_round_robin`, from the front of the ready queue up to the current
-- process, and both, the first of which starts behind it. 0 says that no process is found.
pub from_front : ℕ → Scheduler → Option ℕ
unfolding find_node
from_front fuel s = do
  node ← find_node fuel (next_of s) (λ x. x == s.current_process || runnable s x) s.ready_queue
  some (if node == s.current_process then 0 else node)

pub next_process : ℕ → Scheduler → Option ℕ
unfolding find_node from_front
next_process fuel s =
    let current = s.current_process in
    let behind = find_node fuel (next_of s) (runnable s) (next_of s current) in
    if not (current == 0) && not (current == s.kernel_idle_process)
    then behind >>= (λ node. if node == 0 then from_front fuel s else some node)
    else from_front fuel s

pub process_round_robin : ℕ → Registers → Scheduler → Option (Registers × Scheduler)
unfolding next_process process_do_round_robin
process_round_robin fuel r s = if not s.round_robin then some (r, s) else do
  node ← next_process fuel s
  some (if node == 0 then (r, s) else process_do_round_robin node r s)

pub process_idle : Registers → Scheduler → Registers × Scheduler
unfolding process_switch
process_idle r s = process_switch s.kernel_idle_process r s
