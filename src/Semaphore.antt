-- ===== src/Semaphore.antt =====
-- kernel/modules/semaphore.c. A semaphore is passed by value; its waiting processes are linked by
-- the `next` pointers that the ready queue uses too.
pub mod Waiters
mod Tests
use dos.Prelude.{Option, if◌then◌else◌, ltb, some, ℕ, ◌+◌, ◌-◌, ◌==◌, ◌>>=◌}
use dos.Linked.{last_node}
use dos.Process.{
  Scheduler, Process, ProcessState, process_waiting, process_ready, on, next_of, set_next,
  process_remove_ready_queue, process_add_ready_queue,
}

-- The count is an `int`; the calls below do not make it negative. The model holds for counts below
-- `2 ^ 31`: what `count++` gives at `2 ^ 31 - 1` is undefined in C.
pub record Semaphore : Type 0 where
  pub count : ℕ
  pub queue : ℕ

pub semaphore_init : Semaphore
semaphore_init = record { count = 0; queue = 0 }

-- None is a queue longer than the fuel.
pub semaphore_queue_push : ℕ → ℕ → Semaphore → Scheduler → Option (Semaphore × Scheduler)
unfolding last_node
semaphore_queue_push fuel p sem s =
    if sem.queue == 0
    then some (record sem { queue = p }, set_next p 0 s)
    else (last_node fuel (next_of s) sem.queue >>= (λ q. some (sem, set_next p 0 (set_next q p s))))

pub semaphore_queue_pop : Semaphore → Scheduler → ℕ × Semaphore
semaphore_queue_pop sem s =
    (sem.queue, if sem.queue == 0 then sem else record sem { queue = next_of s sem.queue })

pub semaphore_down : ℕ → ℕ → Semaphore → Scheduler → Option (Semaphore × Scheduler)
unfolding semaphore_queue_push
semaphore_down fuel p sem s =
    let waiting = on p (λ process. record process { state = process_waiting }) s in
    if ltb 0 sem.count
    then some (record sem { count = sem.count - 1 }, s)
    else (process_remove_ready_queue fuel p waiting >>= semaphore_queue_push fuel p sem)

pub semaphore_up : ℕ → Semaphore → Scheduler → Option (Semaphore × Scheduler)
unfolding semaphore_queue_pop
semaphore_up fuel sem s =
    let (p, rest) = semaphore_queue_pop (record sem { count = sem.count + 1 }) s in
    let ready = on p (λ process. record process { state = process_ready }) s in
    if p == 0
    then some (rest, s)
    else (process_add_ready_queue fuel p ready >>= (λ s'. some (rest, s')))
