-- ===== src/Sim/Scheduler/Implements.antt =====
-- The four policies of G20_Project2_2 keep the laws that the simulator relies on.
use g20_os_lab_project.Common.{
  ℕ, zero, suc, join_below, ℤ, ◌≤◌, ◌<◌, ◌≡◌, refl, sym, subst, length, [], arith,
}
use g20_os_lab_project.Sim.Types.{
  AlgorithmKind, mlfq, lottery, edf, custom, all, EnqueueReason, Procs,
}
use g20_os_lab_project.Sim.ReadyQueue.{contents, empty_queue, max_processes}
use g20_os_lab_project.Sim.Mlfq.{mlfq_init}
use g20_os_lab_project.Sim.Lottery.{lottery_init}
use g20_os_lab_project.Sim.Edf.{edf_init}
use g20_os_lab_project.Sim.Custom.{custom_init}
use g20_os_lab_project.Sim.Scheduler.{
  SchedulerState, scheduler_api, scheduler_init, enqueue_by, enqueue_process, pick_by,
  pick_next_process, tick_by, scheduler_tick,
}
use g20_os_lab_project.Sim.Scheduler.Laws.{HasLevels, Enqueued, Picked, Ticked, IsScheduler}
use g20_os_lab_project.Sim.Scheduler.Policies.{
  queued_by, IsSetUp, readied, enqueue_by-Enqueued, pick_by-Picked, tick_by-Ticked,
}

module _ (cpu_count : ℕ) (some_cpu : 0 < cpu_count) where
  -- Under each algorithm, on a scheduler that is set up for at least one CPU, with fewer than 128
  -- waiting processes and queue levels of 0 to 2: enqueue_process adds the pid to the waiting
  -- ones exactly once, makes the process ready from `now` on, changes at most its level and its
  -- assigned CPU beside that, leaves the other processes alone, and keeps the scheduler set up
  -- and the levels within 0 to 2.
  pub enqueue_process-Enqueued :
      (algorithm : AlgorithmKind) (s : SchedulerState) (procs : Procs) (pid : ℕ) (hint : ℤ)
      (now : ℕ) (reason : EnqueueReason)
      → IsSetUp algorithm cpu_count s
      → HasLevels procs
      → length (queued_by algorithm s) < max_processes
      → Enqueued
          (queued_by algorithm)
          (IsSetUp algorithm cpu_count)
          s
          procs
          pid
          now
          (enqueue_process s procs pid hint now reason)
  unfolding enqueue_process
  enqueue_process-Enqueued algorithm s procs pid hint now reason v low room =
      subst
        (λ g.
          Enqueued (queued_by algorithm) (IsSetUp algorithm cpu_count) s procs pid now
            (enqueue_by g s (readied cpu_count some_cpu procs pid now) pid hint reason))
        (sym v.policy)
        (enqueue_by-Enqueued cpu_count some_cpu algorithm s procs pid hint now reason v low room)

  -- Under each algorithm, on a scheduler that is set up and for an existing CPU:
  -- pick_next_process takes the pid that it returns out of the waiting ones, exactly one entry,
  -- and nothing where it returns none, and keeps the scheduler set up.
  pub pick_next_process-Picked :
      (algorithm : AlgorithmKind) (s : SchedulerState) (procs : Procs) (cpu_id now : ℕ)
      → IsSetUp algorithm cpu_count s
      → cpu_id < cpu_count
      → Picked
          (queued_by algorithm)
          (IsSetUp algorithm cpu_count)
          s
          (pick_next_process s procs cpu_id now)
  unfolding pick_next_process
  pick_next_process-Picked algorithm s procs cpu_id now v h =
      subst
        (λ g.
          Picked (queued_by algorithm) (IsSetUp algorithm cpu_count) s
            (pick_by g s procs cpu_id now))
        (sym v.policy) (pick_by-Picked cpu_count some_cpu algorithm s procs cpu_id now v h)

  -- Under each algorithm, on a scheduler that is set up, with at most 128 waiting processes and
  -- queue levels of 0 to 2: scheduler_tick keeps how often each pid waits, changes nothing of any
  -- process but levels and assigned CPUs, and keeps the scheduler set up and the levels within 0
  -- to 2.
  pub scheduler_tick-Ticked :
      (algorithm : AlgorithmKind) (s : SchedulerState) (procs : Procs) (now : ℕ)
      → IsSetUp algorithm cpu_count s
      → HasLevels procs
      → length (queued_by algorithm s) ≤ max_processes
      → Ticked
          (queued_by algorithm)
          (IsSetUp algorithm cpu_count)
          s
          procs
          (scheduler_tick s procs now)
  unfolding scheduler_tick
  scheduler_tick-Ticked algorithm s procs now v low room =
      subst
        (λ g.
          Ticked (queued_by algorithm) (IsSetUp algorithm cpu_count) s procs
            (tick_by g s procs now))
        (sym v.policy) (tick_by-Ticked cpu_count some_cpu algorithm s procs now v low room)

  -- With at least one CPU, the dispatch of simulator.c keeps the laws under each algorithm.
  abbrev pub scheduler_api-IsScheduler : AlgorithmKind → IsScheduler scheduler_api cpu_count
  scheduler_api-IsScheduler algorithm = record {
    queued = queued_by algorithm;
    IsValid = IsSetUp algorithm cpu_count;
    enqueue_law = enqueue_process-Enqueued algorithm;
    pick_law = pick_next_process-Picked algorithm;
    tick_law = scheduler_tick-Ticked algorithm;
  }

-- A scheduler that was just set up is in order, and nobody waits in it.
pub scheduler_init-IsSetUp :
    (algorithm : AlgorithmKind) (cpu_count proc_count seed : ℕ)
    → IsSetUp algorithm cpu_count (scheduler_init algorithm cpu_count proc_count seed)
unfolding scheduler_init custom_init
scheduler_init-IsSetUp algorithm cpu_count proc_count seed = record {
  policy = refl;
  cpus = refl;
  threshold = omega arith;
}

nobody_waits : (n : ℕ) → join_below n (λ j. contents empty_queue) ≡ []
nobody_waits zero = refl
nobody_waits (suc n) = rw (nobody_waits n)

pub queued_by-init :
    (algorithm : AlgorithmKind) (cpu_count proc_count seed : ℕ)
    → queued_by algorithm (scheduler_init algorithm cpu_count proc_count seed) ≡ []
unfolding queued_by scheduler_init mlfq_init lottery_init edf_init custom_init
queued_by-init mlfq cpu_count proc_count seed = refl
queued_by-init lottery cpu_count proc_count seed = refl
queued_by-init edf cpu_count proc_count seed = refl
queued_by-init custom cpu_count proc_count seed = nobody_waits cpu_count
queued_by-init all cpu_count proc_count seed = nobody_waits cpu_count
