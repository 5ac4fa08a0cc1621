-- ===== src/Sim/Simulator/Work.antt =====
-- How many ticks processes have run, and that most steps of a tick do not change it. (simulator.c,
-- run_simulation)
use g20_os_lab_project.Common.{
  ℕ, ◌+◌, ◌≤◌, ◌<◌, ◌≡◌, inl, inr, refl, ap, ◌∙◌, true, false, leb, ◌&&◌, update, update_self,
  update_ne, sum_below, sum_below-eq, arith, Option, none, some, Bool-cases, Option-cases, ℤ,
}
use native.Mathlib.Decide.{ℕ_discrete}
use g20_os_lab_project.Sim.Types.{ProcState, EnqueueReason, io_complete, ProcessRuntime, Procs}
use g20_os_lab_project.Sim.ReadyQueue.{max_processes}
use g20_os_lab_project.Sim.Scheduler.{SchedulerApi}
use g20_os_lab_project.Sim.Scheduler.Laws.{IsScheduler}
use g20_os_lab_project.Sim.Simulator.{
  Machine, is_new, is_ready, is_blocked, next_burst, arrive, complete_io, wait_io, count_waiting,
  start_on, assign_cpu, fill_cpu,
}
use g20_os_lab_project.Sim.Simulator.Coherent.{Agrees, queued-lt}
use g20_os_lab_project.Sim.Simulator.Steps.{change-Agrees}

-- The ticks that the processes of the workload have run.
abbrev pub work : ℕ → Procs → ℕ
work n procs = sum_below n (λ a. (procs a).runtime_ticks)

abbrev pub SameWork : Procs → Procs → Type 0
SameWork procs procs' = (a : ℕ) → (procs' a).runtime_ticks ≡ (procs a).runtime_ticks

pub same_work :
    (procs procs' : Procs) (n k : ℕ) → SameWork procs procs' → work n procs ≡ k → work n procs' ≡ k
same_work procs procs' n k same h =
    sum_below-eq n (λ a. (procs' a).runtime_ticks) (λ a. (procs a).runtime_ticks) (λ a p. same a)
    ∙ h

update-SameWork :
    (procs : Procs) (i : ℕ) (p : ProcessRuntime)
    → p.runtime_ticks ≡ (procs i).runtime_ticks
    → SameWork procs (update procs i p)
update-SameWork procs i p same a = elim (ℕ_discrete a i) [
  | yes e ↦ rw (e, update_self procs i p) same
  | no ne ↦ rw (update_ne procs i a p ne) refl
]

pub next_burst-runtime :
    (t : ProcState) (tick : ℕ) (p : ProcessRuntime)
    → (next_burst t tick p).runtime_ticks ≡ p.runtime_ticks
unfolding next_burst
next_burst-runtime t tick p = ground arith

module _ {S : Type 0} {api : SchedulerApi S} {cpu_count : ℕ} (law : IsScheduler api cpu_count)
    {n : ℕ} (small : n ≤ max_processes) where
  open law use {queued, IsValid}

  pub enqueue-SameWork :
      {R : ℕ → ℕ} {s : S} {procs : Procs} (i : ℕ) (hint : ℤ) (now : ℕ) (reason : EnqueueReason)
      → Agrees queued IsValid n R s procs
      → i < n
      → is_ready (procs i).state ≡ false
      → SameWork procs (api.enqueue s procs i hint now reason).1
  enqueue-SameWork {R} {s} {procs} i hint now reason g h idle a =
      let r =
        law.enqueue_law s procs i hint now reason g.valid g.levels
          (omega (arith, queued-lt queued i g h idle)) in
      elim (ℕ_discrete a i) [
        | yes e ↦ rw e (ap (λ (p : ProcessRuntime). p.runtime_ticks) r.ready)
        | no ne ↦ ap (λ (p : ProcessRuntime). p.runtime_ticks) (r.others a ne)
      ]

  pub arrive-SameWork :
      {R : ℕ → ℕ} (tick i : ℕ) (r : S × Procs)
      → i < n
      → Agrees queued IsValid n R r.0 r.1
      → SameWork r.1 (arrive api tick r i).1
  unfolding arrive
  arrive-SameWork tick i (s, procs) h g =
      elim (Bool-cases (is_new (procs i).state && leb (procs i).spec.arrival tick)) [
        | inl due ↦ rw due (
            enqueue-SameWork i (procs i).assigned_cpu tick EnqueueReason.new g h
              (ground (arith, due)))
        | inr idle ↦ rw idle (λ a. refl)
      ]

  complete_io-SameWork :
      {R : ℕ → ℕ} (tick i : ℕ) (s : S) (procs : Procs)
      → i < n
      → is_blocked (procs i).state ≡ true
      → Agrees queued IsValid n R s procs
      → SameWork procs (complete_io api tick (s, procs) i).1
  unfolding complete_io next_burst
  complete_io-SameWork {R} tick i s procs h waiting g =
      elim (Bool-cases (leb (procs i).spec.burst_count ((procs i).burst_index + 1))) [
        | inl last ↦ rw last (update-SameWork procs i _ refl)
        | inr more ↦ rw more (λ a.
            enqueue-SameWork i _ tick io_complete
              (change-Agrees law small R i _ g (ground (arith, waiting)) (g.levels i) (λ b ne. refl)
                (ground (arith, g.runs_once i, waiting)))
              h (ap (λ (p : ProcessRuntime). is_ready p.state) (update_self procs i _)) a
            ∙ update-SameWork procs i _ refl a)
      ]

  pub wait_io-SameWork :
      {R : ℕ → ℕ} (tick i : ℕ) (r : S × Procs)
      → i < n
      → Agrees queued IsValid n R r.0 r.1
      → SameWork r.1 (wait_io api tick r i).1
  unfolding wait_io
  wait_io-SameWork tick i (s, procs) h g = elim (Bool-cases (is_blocked (procs i).state)) [
    | inl waiting ↦ elim (Bool-cases (leb (procs i).remaining_in_burst 1)) [
      | inl over ↦ rw (waiting, over) (complete_io-SameWork tick i s procs h waiting g)
      | inr on ↦ rw (waiting, on) (update-SameWork procs i _ refl)
    ]
    | inr other ↦ rw other (λ a. refl)
  ]

  pub count_waiting-SameWork : (i : ℕ) (procs : Procs) → SameWork procs (count_waiting procs i)
  unfolding count_waiting
  count_waiting-SameWork i procs = elim (Bool-cases (is_ready (procs i).state)) [
    | inl waiting ↦ rw waiting (update-SameWork procs i _ refl)
    | inr other ↦ rw other (λ a. refl)
  ]

  pub fill_cpu-SameWork :
      (tick cpu : ℕ) (m : Machine S) → SameWork m.procs (fill_cpu api tick m cpu).procs
  unfolding fill_cpu
  fill_cpu-SameWork tick cpu m = elim (Option-cases (m.cpus cpu).running_pid) [
    | inr (pid, busy) ↦ rw (busy, fill_cpu) (λ a. refl)
    | inl free ↦ rw (free, fill_cpu) (assigned (api.pick_next m.scheduler m.procs cpu tick))
  ]
    where
      assigned : (r : Option ℕ × S) → SameWork m.procs (assign_cpu api tick m cpu r).procs
      assigned (none, s) = unfold assign_cpu in (λ a. refl)
      assigned (some pid, s) = unfold assign_cpu start_on in update-SameWork m.procs pid _ refl
