-- ===== src/Semaphore/Waiters.antt =====
-- What `semaphore_up` of kernel/modules/semaphore.c does with the processes that wait.
use dos.Prelude.{
  Bool, List, ap, arith, false, if◌then◌else◌, length, refl, some, sym, true, ℕ, ◌++◌, ◌+◌, ◌<◌,
  ◌==◌, ◌^◌, ◌∷◌, ◌≡◌, ◌≤◌,
}
use dos.Linked.{Chain, Chain-ext}
use dos.Process.{Scheduler, Process, process_ready, on, next_of}
use dos.Process.Queue.{IsQueue, Apart, process_add_ready_queue_lem}
use dos.Semaphore.{Semaphore, semaphore_up}

if_ready_next :
    (c : Bool) (p : Process) → (if c then record p { state = process_ready } else p).next ≡ p.next
if_ready_next true p = refl
if_ready_next false p = refl

-- `semaphore_up`, while the count stays an `int` and processes wait that are not in the ready
-- queue, ends with fuel for that queue. It takes the first waiting process off the semaphore, but
-- puts all that wait into the ready queue, since the `next` pointer of the first still leads to the
-- others; and it counts up, although a process was woken.
pub semaphore_up_lem :
    (fuel : ℕ) (xs : List ℕ) (w : ℕ) (ws : List ℕ) (sem : Semaphore) (s : Scheduler)
    → IsQueue s xs
    → Chain (next_of s) sem.queue (w ∷ ws)
    → Apart xs (w ∷ ws)
    → length xs ≤ fuel
    → sem.count + 1 < 2 ^ 31
    → (sem' : Semaphore) × (s' : Scheduler) × (semaphore_up fuel sem s ≡ some (sem', s'))
      × Chain (next_of s') s'.ready_queue (xs ++ w ∷ ws)
      × (sem'.queue ≡ next_of s w)
      × (sem'.count ≡ sem.count + 1)
unfolding semaphore_up
semaphore_up_lem fuel xs w ws sem s (chain, distinct) waiting apart enough small =
    let (here, above, rest) = waiting in
    let p = sem.queue in
    let some_node : (sem.queue == 0) ≡ false = ground (arith, here, above) in
    let ready = on p (λ process. record process { state = process_ready }) s in
    let same : (x : ℕ) → next_of ready x ≡ next_of s x =
      λ x. if_ready_next (x == p) (s.process x) in
    let (s', e, queue, _) =
      process_add_ready_queue_lem fuel p xs (w ∷ ws) ready
        (Chain-ext (next_of s) (next_of ready) s.ready_queue xs same chain, distinct)
        (Chain-ext (next_of s) (next_of ready) p (w ∷ ws) same waiting) apart enough in
    (
      record { count = sem.count + 1; queue = next_of s p },
      s',
      rw (some_node, e) refl,
      queue,
      ap (next_of s) (sym here),
      refl,
    )
