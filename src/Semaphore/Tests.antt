-- ===== src/Semaphore/Tests.antt =====
-- A semaphore of kernel/modules/semaphore.c that two processes wait for.
use dos.Prelude.{[], arith, refl, some, ◌++◌, ◌+◌, ◌∷◌, ◌≡◌}
use dos.Linked.{Chain}
use dos.Process.{Scheduler, next_of}
use dos.Process.Tests.{three, three-IsQueue}
use dos.Semaphore.{Semaphore, semaphore_up, semaphore_down, semaphore_init}
use dos.Semaphore.Waiters.{semaphore_up_lem}

-- The processes 20 and 21 wait.
abbrev waited_for : Semaphore
waited_for = record { count = 0; queue = 20 }

semaphore_up_example :
    (sem' : Semaphore) × (s' : Scheduler) × (semaphore_up 3 waited_for three ≡ some (sem', s'))
    × Chain (next_of s') s'.ready_queue ((1 ∷ 2 ∷ 3 ∷ []) ++ 20 ∷ 21 ∷ [])
    × (sem'.queue ≡ next_of three 20)
    × (sem'.count ≡ waited_for.count + 1)
semaphore_up_example =
    semaphore_up_lem 3 (1 ∷ 2 ∷ 3 ∷ []) 20 (21 ∷ []) waited_for three three-IsQueue
      (refl, λ e. absurd (omega arith), (refl, λ e. absurd (omega arith), refl))
      (
        (λ e. absurd (omega arith), (λ e. absurd (omega arith), tt)),
        (
          (λ e. absurd (omega arith), (λ e. absurd (omega arith), tt)),
          ((λ e. absurd (omega arith), (λ e. absurd (omega arith), tt)), tt),
        ),
      )
      (omega arith) (omega arith)

-- A semaphore that is up lets one process pass.
one_passes :
    semaphore_down 3 2 (record { count = 1; queue = 0 }) three ≡ some (semaphore_init, three)
unfolding semaphore_down semaphore_init
one_passes = refl
