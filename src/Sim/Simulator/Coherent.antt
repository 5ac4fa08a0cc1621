-- ===== src/Sim/Simulator/Coherent.antt =====
-- The simulator's invariant: the queues and the CPUs agree with the states of the processes.
use g20_os_lab_project.Common.{
  ℕ, ◌+◌, ◌≤◌, ◌<◌, ◌≡◌, ◌∙◌, Bool, true, false, ltb, ◌==◌, ◌&&◌, bit, count, length, sum_below,
  sum_below-le, sum_below-eq, sum_below-add, sum_below-bit, sum_below-one, length-eq-sum_count, All,
  List, [], ◌∷◌, arith, Option, none, some, ge→ltb,
}
use native.Mathlib.Decide.{dec_lt}
use g20_os_lab_project.Sim.Types.{Procs, CpuState}
use g20_os_lab_project.Sim.Scheduler.Laws.{HasLevels}
use g20_os_lab_project.Sim.Simulator.{Machine, is_ready, is_running}

-- Whether a process of the workload is ready, or running, as a number.
abbrev pub ready_at : ℕ → Procs → ℕ → ℕ
ready_at n procs a = bit (ltb a n && is_ready (procs a).state)

abbrev pub running_at : ℕ → Procs → ℕ → ℕ
running_at n procs a = bit (ltb a n && is_running (procs a).state)

-- Whether a CPU runs process `a`, as a number, and on how many CPUs it runs.
abbrev pub runs : Option ℕ → ℕ → ℕ
runs none a = 0
runs (some pid) a = bit (pid == a)

abbrev pub cpus_running : ℕ → (ℕ → CpuState) → ℕ → ℕ
cpus_running cpu_count cpus a = sum_below cpu_count (λ c. runs (cpus c).running_pid a)

-- The invariant of a scheduler state, the processes and the number of CPUs that run each process:
-- every ready process waits in the queues exactly once and no other process does, every running
-- process runs on exactly one CPU and no other on any.
pub record Agrees {S : Type 0} (queued : S → List ℕ) (IsValid : S → Type 0) (n : ℕ)
    (on_cpus : ℕ → ℕ) (s : S) (procs : Procs) : Type 0 where
  pub valid : IsValid s
  pub levels : HasLevels procs
  pub queues : (a : ℕ) → count a (queued s) ≡ ready_at n procs a
  pub runs_once : (a : ℕ) → on_cpus a ≡ running_at n procs a

abbrev pub Coherent :
    {S : Type 0} (queued : S → List ℕ) (IsValid : S → Type 0) (n cpu_count : ℕ) → Machine S → Type 0
Coherent queued IsValid n cpu_count m =
    Agrees queued IsValid n (cpus_running cpu_count m.cpus) m.scheduler m.procs

-- A list in which only numbers below `n` occur.
All-below : (n : ℕ) (xs : List ℕ) → ((a : ℕ) → n ≤ a → count a xs ≡ 0) → All (λ x. x < n) xs
All-below n [] h = tt
All-below n (x ∷ xs) h = (
  elim (dec_lt x n) [ yes p ↦ p | no p ↦ absurd (ground (arith, h x (omega arith))) ],
  All-below n xs (λ a p. omega (arith, h a p)),
)

-- Fewer than `n` entries are queued while one process is not ready.
pub length-queued :
    {S : Type 0} (queued : S → List ℕ) {IsValid : S → Type 0} {n : ℕ} {R : ℕ → ℕ} {s : S}
    {procs : Procs}
    → Agrees queued IsValid n R s procs
    → length (queued s) ≡ sum_below n (ready_at n procs)
length-queued queued {n = n} {s = s} {procs = procs} w =
    length-eq-sum_count n (queued s) (All-below n (queued s) (λ a p. w.queues a ∙ outside a p))
    ∙ sum_below-eq n (λ a. count a (queued s)) (ready_at n procs) (λ a p. w.queues a)
  where
    outside : (a : ℕ) → n ≤ a → ready_at n procs a ≡ 0
    outside a p = rw (ge→ltb a n p)

pub queued-le :
    {S : Type 0} (queued : S → List ℕ) {IsValid : S → Type 0} {n : ℕ} {R : ℕ → ℕ} {s : S}
    {procs : Procs}
    → Agrees queued IsValid n R s procs
    → length (queued s) ≤ n
queued-le queued {n = n} {procs = procs} w = omega (
  arith,
  length-queued queued w,
  sum_below-le n (ready_at n procs) (λ a. 1) (λ a p. bit-le _),
  sum_below-one n,
)
  where
    bit-le : (b : Bool) → bit b ≤ 1
    bit-le true = omega arith
    bit-le false = omega arith

pub queued-lt :
    {S : Type 0} (queued : S → List ℕ) {IsValid : S → Type 0} {n : ℕ} {R : ℕ → ℕ} {s : S}
    {procs : Procs} (i : ℕ)
    → Agrees queued IsValid n R s procs
    → i < n
    → is_ready (procs i).state ≡ false
    → length (queued s) < n
queued-lt queued {n = n} {procs = procs} i w h idle = omega (
  arith,
  length-queued queued w,
  sum_below-le n (λ a. ready_at n procs a + bit (i == a)) (λ a. 1) one_each,
  sum_below-add n (ready_at n procs) (λ a. bit (i == a)),
  sum_below-bit n i h,
  sum_below-one n,
)
  where
    one_each : (a : ℕ) → a < n → ready_at n procs a + bit (i == a) ≤ 1
    one_each a p = ground (arith, idle)
