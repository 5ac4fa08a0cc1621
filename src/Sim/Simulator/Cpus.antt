-- ===== src/Sim/Simulator/Cpus.antt =====
-- The loops over the CPUs keep the simulator's invariant. (simulator.c, lines 285 to 342)
use g20_os_lab_project.Common.{
  ℕ, ◌+◌, ◌≤◌, ◌<◌, ◌≡◌, ◌≢◌, inl, inr, refl, ap, ◌∙◌, Bool, false, ltb, leb, ◌==◌, ◌&&◌, update,
  update_self, update_ne, bit, count, sum_below-change, term-le-sum_below, arith, Option, none,
  some, Bool-cases, Option-cases, pos,
}
use native.Mathlib.Decide.{ℕ_discrete}
use g20_os_lab_project.Sim.Types.{
  ProcState, ready, running, blocked, done, preempt, ProcessRuntime, Procs, CpuState,
}
use g20_os_lab_project.Sim.ReadyQueue.{max_processes}
use g20_os_lab_project.Sim.ReadyQueue.Contents.{taken}
use g20_os_lab_project.Sim.Scheduler.{SchedulerApi}
use g20_os_lab_project.Sim.Scheduler.Laws.{IsScheduler, Picked}
use g20_os_lab_project.Sim.Simulator.{
  Machine, is_ready, is_running, next_burst, start_on, assign_cpu, fill_cpu, work_one,
  keep_or_preempt, run_process, run_cpu, idle_cpu,
}
use g20_os_lab_project.Sim.Simulator.Coherent.{ready_at, runs, cpus_running, Agrees, Coherent}
use g20_os_lab_project.Sim.Simulator.Steps.{change-Agrees, enqueue-Agrees}

-- One CPU gets another process.
cpus_running-update :
    (cpu_count c : ℕ) (cpus : ℕ → CpuState) (v : CpuState) (a : ℕ)
    → c < cpu_count
    → cpus_running cpu_count (update cpus c v) a + runs (cpus c).running_pid a
      ≡ cpus_running cpu_count cpus a + runs v.running_pid a
cpus_running-update cpu_count c cpus v a h =
    sum_below-change cpu_count c (λ j. runs (update cpus c v j).running_pid a)
      (λ j. runs (cpus j).running_pid a) h
      (λ j ne. ap (λ (k : CpuState). runs k.running_pid a) (update_ne cpus c j v ne))
    ∙ ap (λ (k : CpuState). cpus_running cpu_count cpus a + runs k.running_pid a)
        (update_self cpus c v)

module _ {S : Type 0} {api : SchedulerApi S} {cpu_count : ℕ} (law : IsScheduler api cpu_count)
    {n : ℕ} (small : n ≤ max_processes) where
  open law use {queued, IsValid}

  -- A pid that the scheduler hands out is that of a ready process of the workload.
  picked_ready :
      {R : ℕ → ℕ} {s : S} {procs : Procs} (s' : S) (pid : ℕ)
      → Agrees queued IsValid n R s procs
      → ((a : ℕ) → count a (queued s) ≡ count a (queued s') + taken a (some pid))
      → (pid < n) × ((procs pid).state ≡ ready)
  picked_ready {procs = procs} s' pid g out =
      let waits : ready_at n procs pid ≢ 0 = ground (arith, out pid, g.queues pid) in
      split (ltb pid n) (procs pid).state refl waits
    where
      split :
          (b : Bool) (t : ProcState)
          → ltb pid n ≡ b
          → bit (b && is_ready t) ≢ 0
          → (pid < n) × (t ≡ ready)
      split b t e h = ground arith

  assign_cpu-Coherent :
      (tick cpu pid : ℕ) (s : S) (m : Machine S)
      → cpu < cpu_count
      → (m.cpus cpu).running_pid ≡ none
      → Coherent queued IsValid n cpu_count m
      → IsValid s
      → ((a : ℕ) → count a (queued m.scheduler) ≡ count a (queued s) + taken a (some pid))
      → Coherent queued IsValid n cpu_count (assign_cpu api tick m cpu (some pid, s))
  unfolding assign_cpu start_on
  assign_cpu-Coherent tick cpu pid s m h free g valid out =
      let (inside, was) = picked_ready s pid g out in
      record {
        valid = valid;
        levels = λ a. elim (ℕ_discrete a pid) [
          | yes e ↦ rw (e, update_self m.procs pid _) (g.levels pid)
          | no ne ↦ rw (update_ne m.procs pid a _ ne) (g.levels a)
        ];
        queues = λ a. elim (ℕ_discrete a pid) [
          | yes e ↦ rw (e, update_self m.procs pid _) (ground (arith, out pid, g.queues pid))
          | no ne ↦ rw (update_ne m.procs pid a _ ne) (ground (arith, out a, g.queues a))
        ];
        runs_once = λ a. elim (ℕ_discrete a pid) [
          | yes e ↦
              rw (e, update_self m.procs pid _)
                (ground (arith, moved pid, g.runs_once pid, was, inside))
          | no ne ↦ rw (update_ne m.procs pid a _ ne) (ground (arith, moved a, g.runs_once a))
        ];
      }
    where
      moved :
          (a : ℕ)
          → cpus_running cpu_count
              (update m.cpus cpu (record { running_pid = some pid; slice_used = 0 }))
              a
            ≡ cpus_running cpu_count m.cpus a + bit (pid == a)
      moved a = omega (
        arith,
        cpus_running-update cpu_count cpu m.cpus (record { running_pid = some pid; slice_used = 0 })
            a h,
        ap (λ o. runs o a) free,
      )

  pub fill_cpu-Coherent :
      (tick cpu : ℕ) (m : Machine S)
      → cpu < cpu_count
      → Coherent queued IsValid n cpu_count m
      → Coherent queued IsValid n cpu_count (fill_cpu api tick m cpu)
  unfolding fill_cpu
  fill_cpu-Coherent tick cpu m h g = elim (Option-cases (m.cpus cpu).running_pid) [
    | inr (pid, busy) ↦ rw (busy, fill_cpu) g
    | inl free ↦
        rw (free, fill_cpu)
          (assigned (api.pick_next m.scheduler m.procs cpu tick)
            (law.pick_law m.scheduler m.procs cpu tick g.valid h) free)
  ]
    where
      assigned :
          (r : Option ℕ × S)
          → Picked queued IsValid m.scheduler r
          → (m.cpus cpu).running_pid ≡ none
          → Coherent queued IsValid n cpu_count (assign_cpu api tick m cpu r)
      assigned (none, s) p free =
          unfold assign_cpu in
          record {
            valid = p.valid;
            levels = g.levels;
            queues = λ a. omega (arith, p.removed a, g.queues a);
            runs_once = g.runs_once;
          }
      assigned (some pid, s) p free =
          assign_cpu-Coherent tick cpu pid s m h free g p.valid p.removed

  -- A CPU only runs a running process of the workload.
  pub on_cpu_running :
      (cpu pid : ℕ) (m : Machine S)
      → cpu < cpu_count
      → (m.cpus cpu).running_pid ≡ some pid
      → Coherent queued IsValid n cpu_count m
      → (pid < n) × ((m.procs pid).state ≡ running) × (cpus_running cpu_count m.cpus pid ≡ 1)
  on_cpu_running cpu pid m h busy g = split (ltb pid n) (m.procs pid).state refl (g.runs_once pid) (
      omega (
        arith,
        term-le-sum_below cpu_count cpu (λ c. runs (m.cpus c).running_pid pid) h,
        ap (λ o. runs o pid) busy,
        self,
      ))
    where
      self : bit (pid == pid) ≡ 1
      self = ground arith

      split :
          (b : Bool) (t : ProcState) {k : ℕ}
          → ltb pid n ≡ b
          → k ≡ bit (b && is_running t)
          → 1 ≤ k
          → (pid < n) × (t ≡ running) × (k ≡ 1)
      split b t e h p = ground arith

  -- The CPUs once one of them has gone idle.
  freed_other :
      (cpu pid a : ℕ) (cpus : ℕ → CpuState)
      → cpu < cpu_count
      → (cpus cpu).running_pid ≡ some pid
      → a ≢ pid
      → cpus_running cpu_count (update cpus cpu idle_cpu) a ≡ cpus_running cpu_count cpus a
  freed_other cpu pid a cpus h busy ne =
      ground (arith, cpus_running-update cpu_count cpu cpus idle_cpu a h, ap (λ o. runs o a) busy)

  freed_self :
      (cpu pid : ℕ) (cpus : ℕ → CpuState)
      → cpu < cpu_count
      → (cpus cpu).running_pid ≡ some pid
      → cpus_running cpu_count cpus pid ≡ 1
      → cpus_running cpu_count (update cpus cpu idle_cpu) pid ≡ 0
  freed_self cpu pid cpus h busy one =
      ground
        (arith, cpus_running-update cpu_count cpu cpus idle_cpu pid h, ap (λ o. runs o pid) busy)

  kept :
      (cpu pid used a : ℕ) (cpus : ℕ → CpuState)
      → cpu < cpu_count
      → (cpus cpu).running_pid ≡ some pid
      → cpus_running cpu_count
          (update cpus cpu (record { running_pid = some pid; slice_used = used }))
          a
        ≡ cpus_running cpu_count cpus a
  kept cpu pid used a cpus h busy = omega (
    arith,
    cpus_running-update cpu_count cpu cpus (record { running_pid = some pid; slice_used = used }) a
        h,
    ap (λ o. runs o a) busy,
  )

  keep_or_preempt-Coherent :
      (tick cpu pid : ℕ) (m : Machine S)
      → cpu < cpu_count
      → (m.cpus cpu).running_pid ≡ some pid
      → Coherent queued IsValid n cpu_count m
      → Coherent queued IsValid n cpu_count (keep_or_preempt api tick m cpu pid)
  unfolding keep_or_preempt
  keep_or_preempt-Coherent tick cpu pid m h busy g =
      let (inside, was, one) = on_cpu_running cpu pid m h busy g in
      elim (Bool-cases
        (leb (api.time_slice m.scheduler (m.procs pid)) ((m.cpus cpu).slice_used + 1))) [
          | inl used ↦ rw used (
              enqueue-Agrees law small (cpus_running cpu_count (update m.cpus cpu idle_cpu)) pid
                (pos cpu) (tick + 1) preempt g inside (ap is_ready was)
                (λ a ne. freed_other cpu pid a m.cpus h busy ne)
                (freed_self cpu pid m.cpus h busy one))
          | inr on ↦ rw on (record {
            valid = g.valid;
            levels = g.levels;
            queues = g.queues;
            runs_once =
                λ a. kept cpu pid ((m.cpus cpu).slice_used + 1) a m.cpus h busy ∙ g.runs_once a;
          })
        ]

  -- The process whose burst is over: blocked or done, and off its CPU.
  burst_over-Coherent :
      (end_tick cpu pid : ℕ) (p : ProcessRuntime) (m : Machine S)
      → cpu < cpu_count
      → (m.cpus cpu).running_pid ≡ some pid
      → p.queue_level ≡ (m.procs pid).queue_level
      → Coherent queued IsValid n cpu_count m
      → Agrees queued IsValid n
          (cpus_running cpu_count (update m.cpus cpu idle_cpu))
          m.scheduler
          (update m.procs pid (next_burst blocked end_tick p))
  unfolding next_burst
  burst_over-Coherent end_tick cpu pid p m h busy level g =
      let (inside, was, one) = on_cpu_running cpu pid m h busy g in
      let R' = cpus_running cpu_count (update m.cpus cpu idle_cpu) in
      elim (Bool-cases (leb p.spec.burst_count (p.burst_index + 1))) [
        | inl last ↦ rw last (
            change-Agrees law small R' pid _ g (rw was) (rw level (g.levels pid))
              (λ a ne. freed_other cpu pid a m.cpus h busy ne)
              (freed_self cpu pid m.cpus h busy one ∙ off done (refl)))
        | inr more ↦ rw more (
            change-Agrees law small R' pid _ g (rw was) (rw level (g.levels pid))
              (λ a ne. freed_other cpu pid a m.cpus h busy ne)
              (freed_self cpu pid m.cpus h busy one ∙ off blocked (refl)))
      ]
    where
      off : (t : ProcState) → is_running t ≡ false → 0 ≡ bit (ltb pid n && is_running t)
      off t e = ground (arith, e)

  run_process-Coherent :
      (tick cpu pid : ℕ) (m : Machine S)
      → cpu < cpu_count
      → (m.cpus cpu).running_pid ≡ some pid
      → Coherent queued IsValid n cpu_count m
      → Coherent queued IsValid n cpu_count (run_process api tick m cpu pid)
  unfolding run_process work_one
  run_process-Coherent tick cpu pid m h busy g =
      elim (Bool-cases (leb (m.procs pid).remaining_in_burst 1)) [
        | inl over ↦
            rw over
              (burst_over-Coherent (tick + 1) cpu pid (work_one (m.procs pid)) m h busy refl g)
        | inr on ↦ rw on (
            keep_or_preempt-Coherent tick cpu pid worked h busy (
              change-Agrees law small (cpus_running cpu_count m.cpus) pid _ g refl (g.levels pid)
                (λ a ne. refl) (g.runs_once pid)))
      ]
    where
      worked : Machine S
      worked = record m {
        procs = update m.procs pid (work_one (m.procs pid));
        busy_ticks = m.busy_ticks + 1;
      }

  pub run_cpu-Coherent :
      (tick cpu : ℕ) (m : Machine S)
      → cpu < cpu_count
      → Coherent queued IsValid n cpu_count m
      → Coherent queued IsValid n cpu_count (run_cpu api tick m cpu)
  unfolding run_cpu
  run_cpu-Coherent tick cpu m h g = elim (Option-cases (m.cpus cpu).running_pid) [
    | inl free ↦ rw (free, run_cpu) g
    | inr (pid, busy) ↦ rw (busy, run_cpu) (run_process-Coherent tick cpu pid m h busy g)
  ]
