-- ===== src/Process/Switch/Round.antt =====
-- `process_round_robin` of kernel/modules/process.c: which process it switches to, and how.
use dos.Prelude.{
  Bool, Bool-cases, List, Option, [], ap, ap₂, arith, false, if◌then◌else◌, inl, inr, length, not,
  refl, some, sym, true, ℕ, ◌&&◌, ◌++◌, ◌<◌, ◌==◌, ◌>>=◌, ◌||◌, ◌∙◌, ◌∷◌, ◌≡◌, ◌≢◌,
}
use dos.Linked.{Chain, Fresh, Distinct, first_of, find_node-Chain}
use mathlib.Core.Bool.{true≢false}
use dos.Process.{
  Registers, Process, ProcessState, process_new, process_ready, process_running, process_waiting,
  process_stopped, process_zombie, is_ready, Scheduler, next_of,
}
use dos.Process.Queue.{IsQueue}
use dos.Process.Switch.{
  runnable, from_front, next_process, process_round_robin, process_do_round_robin,
}

Chain-behind :
    (next : ℕ → ℕ) (node c : ℕ) (xs ys : List ℕ)
    → Chain next node (xs ++ c ∷ ys)
    → (c ≢ 0) × Chain next (next c) ys
Chain-behind next node c [] ys (here, above, rest) = (above, rest)
Chain-behind next node c (x ∷ xs) ys (here, above, rest) = Chain-behind next (next x) c xs ys rest

Fresh-middle : (p c : ℕ) (xs ys : List ℕ) → Fresh p (xs ++ c ∷ ys) → p ≢ c
Fresh-middle p c [] ys (apart, _) = apart
Fresh-middle p c (x ∷ xs) ys (_, fresh) = Fresh-middle p c xs ys fresh

-- The search that stops at `c`, from the front, finds what stands before `c`.
first_of-stop :
    (test : ℕ → Bool) (c : ℕ) (xs ys : List ℕ)
    → Distinct (xs ++ c ∷ ys)
    → c ≢ 0
    → (if first_of (λ x. x == c || test x) (xs ++ c ∷ ys) == c
        then 0
        else first_of (λ x. x == c || test x) (xs ++ c ∷ ys))
      ≡ first_of test xs
first_of-stop test c [] ys distinct above =
    let self : (c == c) ≡ true = ground arith in rw (self, self) refl
first_of-stop test c (x ∷ xs) ys (fresh, distinct) above =
    let differs = Fresh-middle x c xs ys fresh in
    let other : (x == c) ≡ false = ground (arith, differs) in
    elim (Bool-cases (test x)) [
      | inl hit ↦ rw (other, hit) (rw other refl)
      | inr miss ↦ rw (other, miss) (first_of-stop test c xs ys distinct above)
    ]

first_of-append :
    (next : ℕ → ℕ) (test : ℕ → Bool) (node : ℕ) (xs ys : List ℕ)
    → Chain next node xs
    → (if first_of test xs == 0 then first_of test ys else first_of test xs)
      ≡ first_of test (xs ++ ys)
first_of-append next test node [] ys chain = refl
first_of-append next test node (x ∷ xs) ys (_, above, rest) =
    let some_node : (x == 0) ≡ false = ground (arith, above) in
    elim (Bool-cases (test x)) [
      | inl hit ↦ rw hit (rw some_node refl)
      | inr miss ↦ rw miss (first_of-append next test (next x) xs ys rest)
    ]

length-behind : (c : ℕ) (xs ys : List ℕ) → length ys < length (xs ++ c ∷ ys)
length-behind c [] ys = omega arith
length-behind c (x ∷ xs) ys = let rest = length-behind c xs ys in omega (arith, rest)

from_front_lem :
    (fuel : ℕ) (before after : List ℕ) (s : Scheduler)
    → IsQueue s (before ++ s.current_process ∷ after)
    → length (before ++ s.current_process ∷ after) < fuel
    → from_front fuel s ≡ some (first_of (runnable s) before)
unfolding from_front
from_front_lem fuel before after s (chain, distinct) enough =
    let c = s.current_process in
    let (above, _) = Chain-behind (next_of s) s.ready_queue c before after chain in
    rw
      (find_node-Chain fuel (next_of s) (λ x. x == c || runnable s x) s.ready_queue
        (before ++ c ∷ after) chain enough)
      (ap some (first_of-stop (runnable s) c before after distinct above))

some-if : (c : Bool) (a b : ℕ) → (if c then some a else some b) ≡ some (if c then a else b)
some-if true a b = refl
some-if false a b = refl

next_process_lem :
    (fuel : ℕ) (before after : List ℕ) (s : Scheduler)
    → IsQueue s (before ++ s.current_process ∷ after)
    → s.current_process ≢ s.kernel_idle_process
    → length (before ++ s.current_process ∷ after) < fuel
    → next_process fuel s ≡ some (first_of (runnable s) (after ++ before))
unfolding next_process
next_process_lem fuel before after s (chain, distinct) busy enough =
    let c = s.current_process in
    let (above, behind) = Chain-behind (next_of s) s.ready_queue c before after chain in
    let some_node : (c == 0) ≡ false = ground (arith, above) in
    let not_idle : (c == s.kernel_idle_process) ≡ false = ground (arith, busy) in
    let shorter = length-behind c before after in
    let joined = first_of-append (next_of s) (runnable s) (next_of s c) after before behind in
    let found =
      find_node-Chain fuel (next_of s) (runnable s) (next_of s c) after behind
        (omega (arith, shorter, enough)) in
    let wrapped = from_front_lem fuel before after s (chain, distinct) enough in
    rw (some_node, not_idle, found, wrapped)
      (some-if (first_of (runnable s) after == 0) (first_of (runnable s) before)
          (first_of (runnable s) after)
        ∙ ap some joined)

-- A process may run when it is ready and not suspended.
abbrev pub MayRun : Process → Type 0
MayRun node = (node.suspended ≡ false) × (node.state ≡ process_ready)

-- The first process of a list that may run, or 0 when none may.
pub data FirstToRun (s : Scheduler) : List ℕ → ℕ → Type 0 where
  nobody : FirstToRun s [] 0
  here : {node : ℕ} {nodes : List ℕ} → MayRun (s.process node) → FirstToRun s (node ∷ nodes) node
  later :
      {node first : ℕ} {nodes : List ℕ}
      → ¬ MayRun (s.process node)
      → FirstToRun s nodes first
      → FirstToRun s (node ∷ nodes) first

is_ready_sound : (state : ProcessState) → is_ready state ≡ true → state ≡ process_ready
is_ready_sound process_ready e = refl
is_ready_sound process_new e = absurd (true≢false (sym e))
is_ready_sound process_running e = absurd (true≢false (sym e))
is_ready_sound process_waiting e = absurd (true≢false (sym e))
is_ready_sound process_stopped e = absurd (true≢false (sym e))
is_ready_sound process_zombie e = absurd (true≢false (sym e))

may_run :
    (suspended : Bool) (state : ProcessState)
    → (not suspended && is_ready state) ≡ true
    → (suspended ≡ false) × (state ≡ process_ready)
may_run true state e = absurd (true≢false (sym e))
may_run false state e = (refl, is_ready_sound state e)

first_of-FirstToRun :
    (s : Scheduler) (nodes : List ℕ) → FirstToRun s nodes (first_of (runnable s) nodes)
first_of-FirstToRun s [] = nobody
first_of-FirstToRun s (node ∷ nodes) = elim (Bool-cases (runnable s node)) [
  | inl hit ↦ rw hit (here (may_run (s.process node).suspended (s.process node).state hit))
  | inr miss ↦ rw miss (
      later
        (λ (awake, ready).
          true≢false (sym (ap₂ (λ b state. not b && is_ready state) awake ready) ∙ miss))
        (first_of-FirstToRun s nodes))
]

-- While round robin is on and a process of the ready queue runs that is not the idle one,
-- `process_round_robin`, with fuel for the queue, ends and switches to the first process that is
-- ready and not suspended in the round that starts behind the current one, that is of those that
-- stand behind it and then those before it; if there is none it changes nothing.
pub process_round_robin_lem :
    (fuel : ℕ) (r : Registers) (before after : List ℕ) (s : Scheduler)
    → IsQueue s (before ++ s.current_process ∷ after)
    → s.current_process ≢ s.kernel_idle_process
    → length (before ++ s.current_process ∷ after) < fuel
    → s.round_robin ≡ true
    → (node : ℕ) × FirstToRun s (after ++ before) node
      × (process_round_robin fuel r s
          ≡ some (if node == 0 then (r, s) else process_do_round_robin node r s))
unfolding process_round_robin
process_round_robin_lem fuel r before after s queue busy enough on_too =
    let go_on : ℕ → Option (Registers × Scheduler) =
      λ node. some (if node == 0 then (r, s) else process_do_round_robin node r s) in
    (
      first_of (runnable s) (after ++ before),
      first_of-FirstToRun s (after ++ before),
      ap (λ b. if not b then some (r, s) else (next_process fuel s >>= go_on)) on_too
          ∙ ap (λ o. o >>= go_on) (next_process_lem fuel before after s queue busy enough),
    )
