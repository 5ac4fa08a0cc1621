-- ===== src/Sim/Scheduler/Laws.antt =====
-- What the simulator relies on in a scheduler: the functions of scheduler.h neither lose nor
-- make up waiting processes, and change nothing of a process but what they are meant to.
use g20_os_lab_project.Common.{
  ℕ, ℤ, ◌+◌, ◌≤◌, ◌<◌, ◌≡◌, ◌≢◌, bit, ◌==◌, count, length, List, Option,
}
use g20_os_lab_project.Sim.Types.{EnqueueReason, ProcState, ProcessRuntime, Procs, core}
use g20_os_lab_project.Sim.ReadyQueue.{max_processes}
use g20_os_lab_project.Sim.ReadyQueue.Contents.{taken}
use g20_os_lab_project.Sim.Scheduler.{SchedulerApi}

-- Queue levels are 0, 1 or 2.
abbrev pub HasLevels : Procs → Type 0
HasLevels procs = (a : ℕ) → (procs a).queue_level ≤ 2

-- A process that is ready from `now` on.
abbrev pub make_ready : ℕ → ProcessRuntime → ProcessRuntime
make_ready now p = record p { state = ProcState.ready; ready_since = now }

-- `enqueue` adds the pid once, marks the process ready from `now` on, and leaves the others.
pub record Enqueued {S : Type 0} (queued : S → List ℕ) (IsValid : S → Type 0) (s : S)
    (procs : Procs) (pid now : ℕ) (r : S × Procs) : Type 0 where
  pub valid : IsValid r.0
  pub added : (a : ℕ) → count a (queued r.0) ≡ count a (queued s) + bit (pid == a)
  pub ready : core (r.1 pid) ≡ core (make_ready now (procs pid))
  pub others : (a : ℕ) → a ≢ pid → r.1 a ≡ procs a
  pub levels : HasLevels r.1

-- `pick_next` takes out the pid that it returns, and nothing else.
pub record Picked {S : Type 0} (queued : S → List ℕ) (IsValid : S → Type 0) (s : S)
    (r : Option ℕ × S) : Type 0 where
  pub valid : IsValid r.1
  pub removed : (a : ℕ) → count a (queued s) ≡ count a (queued r.1) + taken a r.0

-- `tick` moves waiting processes between queues only.
pub record Ticked {S : Type 0} (queued : S → List ℕ) (IsValid : S → Type 0) (s : S) (procs : Procs)
    (r : S × Procs) : Type 0 where
  pub valid : IsValid r.0
  pub same : (a : ℕ) → count a (queued r.0) ≡ count a (queued s)
  pub cores : (a : ℕ) → core (r.1 a) ≡ core (procs a)
  pub levels : HasLevels r.1

pub record IsScheduler {S : Type 0} (api : SchedulerApi S) (cpu_count : ℕ) : Type 1 where
  pub queued : S → List ℕ
  pub IsValid : S → Type 0
  pub enqueue_law :
      (s : S) (procs : Procs) (pid : ℕ) (cpu_hint : ℤ) (now : ℕ) (reason : EnqueueReason)
      → IsValid s
      → HasLevels procs
      → length (queued s) < max_processes
      → Enqueued queued IsValid s procs pid now (api.enqueue s procs pid cpu_hint now reason)
  pub pick_law :
      (s : S) (procs : Procs) (cpu_id now : ℕ)
      → IsValid s
      → cpu_id < cpu_count
      → Picked queued IsValid s (api.pick_next s procs cpu_id now)
  pub tick_law :
      (s : S) (procs : Procs) (now : ℕ)
      → IsValid s
      → HasLevels procs
      → length (queued s) ≤ max_processes
      → Ticked queued IsValid s procs (api.tick s procs now)
