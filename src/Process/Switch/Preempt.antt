-- ===== src/Process/Switch/Preempt.antt =====
-- What a preemption by `process_round_robin` keeps of the process that it takes off the processor.
use dos.Prelude.{arith, false, if◌then◌else◌, refl, true, ℕ, ◌%◌, ◌+◌, ◌==◌, ◌^◌, ◌∙◌, ◌≡◌, ◌≢◌}
use dos.Mmu.Switch.{mmu_load_pdt, mmu_load_kernel_pdt, cr3-load_pdt}
use dos.Process.{Scheduler, Registers, process_ready, process_running, on}
use dos.Process.Switch.{process_do_round_robin, process_switch, process_unload, enter_handler}

enter_handler_none : (p : ℕ) (s : Scheduler) → (s.process p).signal ≡ 0 → enter_handler p s ≡ s
unfolding enter_handler
enter_handler_none p s none_pending =
    let no_signal : ((s.process p).signal == 0) ≡ true = ground (arith, none_pending) in
    rw no_signal refl

-- The process after `process_unload`.
unloaded : Registers → Scheduler → Scheduler
unloaded r s = record s {
  mmu = mmu_load_kernel_pdt s.mmu;
  process = λ x.
      if x == s.current_process
      then record (s.process x) {
        r = r;
        state = process_ready;
        preemptions = ((s.process x).preemptions + 1) % 2 ^ 32;
      }
      else s.process x;
}

process_unload-unloaded :
    (r : Registers) (s : Scheduler) → s.round_robin ≡ true → process_unload r s ≡ unloaded r s
unfolding process_unload unloaded
process_unload-unloaded r s on_too = rw on_too refl

-- The state after a switch to a process without a pending signal.
abbrev switched : ℕ → Scheduler → Scheduler
switched p s = record s {
  current_process = p;
  process =
      (on p (λ node. record node { state = process_running })
        (on s.current_process (λ node. record node { state = process_ready }) s)).process;
  mmu = mmu_load_pdt (s.process p).pdt s.mmu;
}

process_switch-quiet :
    (p : ℕ) (r : Registers) (s : Scheduler)
    → p ≢ s.current_process
    → (s.process p).signal ≡ 0
    → process_switch p r s ≡ ((s.process p).r, switched p s)
unfolding process_switch
process_switch-quiet p r s differs quiet =
    let there : (s.current_process == p) ≡ false = ground (arith, differs) in
    let back : (p == s.current_process) ≡ false = ground (arith, differs) in
    let self : (p == p) ≡ true = ground arith in
    let left = record (on s.current_process (λ node. record node { state = process_ready }) s) {
      current_process = p;
    } in
    let still_quiet : (left.process p).signal ≡ 0 = rw back quiet in
    rw (there, enter_handler_none p left still_quiet, back) (rw self refl)

-- What is left of a preemption of the current process, which may run again, for the process `n`.
pub record IsPreempted (n : ℕ) (r : Registers) (s : Scheduler) (r' : Registers) (s' : Scheduler)
    : Type 0 where
  current : s'.current_process ≡ n
  loaded : r' ≡ (s.process n).r
  running : (s'.process n).state ≡ process_running
  saved : (s'.process s.current_process).r ≡ r
  ready : (s'.process s.current_process).state ≡ process_ready
  counted :
      (s'.process s.current_process).preemptions
      ≡ ((s.process s.current_process).preemptions + 1) % 2 ^ 32
  directory : s'.mmu.cr3 ≡ (s.process n).pdt
  others : (x : ℕ) → x ≢ n → x ≢ s.current_process → s'.process x ≡ s.process x

-- The round robin from a process other than the idle one to another that has no signal pending: the
-- registers of the one are saved in it and those of the other loaded with its page directory, the
-- one is ready again, counts a preemption, and the other runs; no third process changes.
pub process_do_round_robin_lem :
    (n : ℕ) (r : Registers) (s : Scheduler)
    → n ≢ 0
    → n ≢ s.current_process
    → s.current_process ≢ s.kernel_idle_process
    → s.round_robin ≡ true
    → (s.process n).signal ≡ 0
    → (r' : Registers) × (s' : Scheduler) × (process_do_round_robin n r s ≡ (r', s'))
      × IsPreempted n r s r' s'
unfolding process_do_round_robin unloaded
process_do_round_robin_lem n r s above differs busy on_too quiet =
    let some_node : (n == 0) ≡ false = ground (arith, above) in
    let not_idle : (s.current_process == s.kernel_idle_process) ≡ false = ground (arith, busy) in
    let other : (n == s.current_process) ≡ false = ground (arith, differs) in
    let back : (s.current_process == n) ≡ false = ground (arith, differs) in
    let self : (n == n) ≡ true = ground arith in
    let same : (s.current_process == s.current_process) ≡ true = ground arith in
    let still_quiet : ((unloaded r s).process n).signal ≡ 0 = rw other quiet in
    let quietly = process_switch-quiet n r (unloaded r s) differs still_quiet in
    (
      ((unloaded r s).process n).r,
      switched n (unloaded r s),
      rw (some_node, not_idle, process_unload-unloaded r s on_too) quietly,
      record {
        current = refl;
        loaded = rw other refl;
        running = rw self refl;
        saved = rw (back, same) refl;
        ready = rw (back, same) refl;
        counted = rw (back, same) refl;
        directory = cr3-load_pdt ((unloaded r s).process n).pdt (unloaded r s).mmu ∙ rw other refl;
        others = λ x apart distinct.
            let apart_n : (x == n) ≡ false = ground (arith, apart) in
            let apart_c : (x == s.current_process) ≡ false = ground (arith, distinct) in
            rw (apart_n, apart_c) refl;
      },
    )
