-- ===== src/Sim/Tests.antt =====
-- A small workload on which the theorems on the simulator of G20_Project2_2 are tried.
use g20_os_lab_project.Common.{
  sum_below, ℕ, zero, suc, ◌+◌, ◌≤◌, ◌≡◌, ◌≢◌, ◌⊎◌, pos, minus_one, true, ltb, ◌==◌, if◌then◌else◌,
  none, some, [], ◌∷◌, ◌++◌, All, arith, count, ◌*◌, ◌-◌, ◌<◌,
}
use g20_os_lab_project.Sim.Types.{
  mlfq, lottery, edf, custom, cpu, io, ready, EnqueueReason, Burst, ProcessSpec, Procs, Workload,
}
use g20_os_lab_project.Sim.ReadyQueue.{ReadyQueue, contents, empty_queue, max_processes}
use g20_os_lab_project.Sim.ReadyQueue.Contents.{Removed}
use g20_os_lab_project.Sim.Mlfq.{MlfqState, mlfq_pick_next, mlfq_boost}
use g20_os_lab_project.Sim.Mlfq.Levels.{mlfq_queued, mlfq_pick_next_lem}
use g20_os_lab_project.Sim.Mlfq.Boost.{at_top, mlfq_boost_lem}
use g20_os_lab_project.Sim.Lottery.{LotteryState, lottery_pick_next}
use g20_os_lab_project.Sim.Lottery.Draw.{Drawn, lottery_pick_next_lem}
use g20_os_lab_project.Sim.Edf.{EdfState, edf_init, edf_pick_next, effective_deadline}
use g20_os_lab_project.Sim.Edf.Choice.{edf_pick_next_lem}
use g20_os_lab_project.Sim.Scan.Best.{NotAfter}
use g20_os_lab_project.Sim.Custom.{CustomState, custom_init, custom_pick_next, custom_tick, score}
use g20_os_lab_project.Sim.Custom.Place.{Stolen, custom_pick_next_lem, custom_tick_steals}
use g20_os_lab_project.Sim.Scheduler.{
  SchedulerState, scheduler_init, enqueue_process, pick_next_process, scheduler_tick,
}
use g20_os_lab_project.Sim.Scheduler.Laws.{Enqueued, Picked, Ticked}
use g20_os_lab_project.Sim.Scheduler.Implements.{
  enqueue_process-Enqueued, pick_next_process-Picked, scheduler_tick-Ticked, scheduler_init-IsSetUp,
}
use g20_os_lab_project.Sim.Scheduler.Policies.{queued_by, IsSetUp}
use g20_os_lab_project.Sim.Simulator.{all_done}
use g20_os_lab_project.Sim.Simulator.Coherent.{Coherent}
use g20_os_lab_project.Sim.Simulation.{SimulationConfig, final_machine}
use g20_os_lab_project.Sim.Simulation.Results.{
  final_machine-work, final_machine-Coherent, final_machine_bounds,
}

abbrev bursts : ℕ → Burst
bursts zero = record { type = cpu; duration = 3 }
bursts (suc zero) = record { type = io; duration = 2 }
bursts (suc (suc n)) = record { type = cpu; duration = 1 }

-- Process `i` arrives at tick `i`, holds `10 + i` tickets and is due at tick `40 - i`.
abbrev spec : ℕ → ProcessSpec
spec i = record {
  pid = i + 1;
  arrival = i;
  base_priority = pos 1;
  tickets = 10 + i;
  deadline = pos (40 - i);
  affinity = pos 1;
  burst_count = 3;
  bursts = bursts;
}

abbrev workload : Workload
workload = record { processes = spec; process_count = 3 }

abbrev config : SimulationConfig
config = record { cpu_count = 2; seed = 7; max_ticks = 60 }

-- Ready processes of the workload on level 1.
abbrev procs : Procs
procs i = record {
  spec = spec i;
  state = ready;
  burst_index = 0;
  remaining_in_burst = 3;
  ready_since = i;
  first_run_tick = minus_one;
  completion_tick = minus_one;
  total_waiting = 0;
  runtime_ticks = 0;
  migrations = 0;
  last_cpu = minus_one;
  assigned_cpu = pos 1;
  queue_level = 1;
}

-- The processes 2, 0 and 1 wait, in this order.
abbrev three : ReadyQueue
three = record { items = order; size = 3 }
  where
    order : ℕ → ℕ
    order zero = 2
    order (suc zero) = 0
    order (suc (suc n)) = 1

abbrev levels : MlfqState
levels = record {
  queues = λ j. if j == 1 then three else empty_queue;
  boost_interval = 20;
  last_boost_tick = 0;
}

abbrev raffle : LotteryState
raffle = record { ready = three; rng_state = 7 }

abbrev nobody : LotteryState
nobody = record { ready = empty_queue; rng_state = 7 }

abbrev by_deadline : EdfState
by_deadline = record { ready = three }

-- All three wait on CPU 1.
abbrev unbalanced : CustomState
unbalanced = record {
  queues = λ j. if j == 1 then three else empty_queue;
  steal_interval = 5;
  last_steal_tick = 0;
  imbalance_threshold = 2;
}

mlfq_pick_next_example :
    ((mlfq_queued levels ≡ []) × (mlfq_pick_next levels ≡ (none, levels)))
    ⊎ ((pid : ℕ) × ((mlfq_pick_next levels).0 ≡ some pid)
        × (mlfq_queued levels ≡ pid ∷ mlfq_queued (mlfq_pick_next levels).1))
mlfq_pick_next_example = mlfq_pick_next_lem levels

mlfq_boost_example :
    let (m', procs') = mlfq_boost 20 levels procs in
    (contents (m'.queues 0) ≡ mlfq_queued levels)
    × (mlfq_queued m' ≡ mlfq_queued levels)
    × (m'.last_boost_tick ≡ 20)
    × ((a : ℕ)
        → procs' a ≡ (
            if ltb 0 (count a (contents (levels.queues 1) ++ contents (levels.queues 2)))
            then at_top (procs a)
            else procs a))
mlfq_boost_example = mlfq_boost_lem 20 levels procs (omega arith)

lottery_pick_next_example :
    (pid : ℕ) × ((lottery_pick_next raffle procs).0 ≡ some pid)
    × Drawn raffle (lottery_pick_next raffle procs).1 procs pid
lottery_pick_next_example = lottery_pick_next_lem raffle procs (omega arith) (omega arith)

edf_pick_next_example :
    (i pid : ℕ) × ((edf_pick_next by_deadline procs).0 ≡ some pid)
    × Removed three (edf_pick_next by_deadline procs).1.ready i pid
    × All (NotAfter (effective_deadline procs) (λ j. (procs j).spec.arrival) pid) (contents three)
edf_pick_next_example = edf_pick_next_lem by_deadline procs (omega arith)

custom_pick_next_example :
    let (r, c') = custom_pick_next unbalanced procs 1 9 in
    (i pid : ℕ) × (r ≡ some pid)
    × Removed three (c'.queues 1) i pid
    × All (NotAfter (score procs 1 9) (λ j. (procs j).spec.pid) pid) (contents three)
    × ((j : ℕ) → j ≢ 1 → c'.queues j ≡ unbalanced.queues j)
custom_pick_next_example = custom_pick_next_lem unbalanced procs 1 9 (omega arith)

unbalanced_room : (j : ℕ) → j < 2 → (unbalanced.queues j).size ≤ max_processes
unbalanced_room zero h = omega arith
unbalanced_room (suc zero) h = omega arith
unbalanced_room (suc (suc j)) h = absurd (omega (arith, h))

custom_tick_steals_example :
    let (c', procs') = custom_tick unbalanced 2 procs 9 in
    (heavy : ℕ) × (light : ℕ) × (heavy < 2)
    × (light < 2)
    × ((j : ℕ)
        → j < 2
        → ((unbalanced.queues light).size ≤ (unbalanced.queues j).size)
          × ((unbalanced.queues j).size ≤ (unbalanced.queues heavy).size))
    × Stolen unbalanced c' procs procs' heavy light 9
custom_tick_steals_example =
    custom_tick_steals unbalanced 2 procs 9 1 0 (omega arith) unbalanced_room (omega arith)
      (omega arith) (omega arith) (omega arith) (omega arith)

abbrev set_up : SchedulerState
set_up = scheduler_init edf 2 3 7

abbrev set_up_custom : SchedulerState
set_up_custom = scheduler_init custom 2 3 7

enqueue_process_example :
    Enqueued
      (queued_by edf)
      (IsSetUp edf 2)
      set_up
      procs
      1
      4
      (enqueue_process set_up procs 1 minus_one 4 EnqueueReason.new)
unfolding scheduler_init edf_init queued_by
enqueue_process_example =
    enqueue_process-Enqueued 2 (omega arith) edf set_up procs 1 minus_one 4 EnqueueReason.new
      (scheduler_init-IsSetUp edf 2 3 7) (λ a. omega arith) (omega arith)

pick_next_process_example :
    Picked (queued_by edf) (IsSetUp edf 2) set_up (pick_next_process set_up procs 1 4)
pick_next_process_example =
    pick_next_process-Picked 2 (omega arith) edf set_up procs 1 4 (scheduler_init-IsSetUp edf 2 3 7)
      (omega arith)

final_machine-Coherent_example :
    Coherent (queued_by mlfq) (IsSetUp mlfq 2) 3 2 (final_machine workload config mlfq).1
final_machine-Coherent_example =
    final_machine-Coherent workload config mlfq (omega arith) (omega arith)

final_machine_bounds_example :
    let (ticks, m) = final_machine workload config custom in
    (ticks ≤ 60) × ((ticks ≡ 60) ⊎ (all_done m.procs 3 ≡ true)) × (m.busy_ticks ≤ ticks * 2)
final_machine_bounds_example = final_machine_bounds workload config custom

scheduler_tick_example :
    Ticked
      (queued_by custom)
      (IsSetUp custom 2)
      set_up_custom
      procs
      (scheduler_tick set_up_custom procs 9)
unfolding scheduler_init custom_init queued_by
scheduler_tick_example =
    scheduler_tick-Ticked 2 (omega arith) custom set_up_custom procs 9
      (scheduler_init-IsSetUp custom 2 3 7) (λ a. omega arith) (omega arith)

final_machine-work_example :
    let (ticks, m) = final_machine workload config lottery in
    sum_below 3 (λ a. (m.procs a).runtime_ticks) ≡ m.busy_ticks
final_machine-work_example = final_machine-work workload config lottery (omega arith) (omega arith)
