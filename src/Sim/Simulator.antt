-- ===== src/Sim/Simulator.antt =====
-- The simulation loop: G20_Project2_2/src/core/simulator.c, over any scheduler of scheduler.h.
-- `tick` and the sizes are not negative, so they are ℕ; a counter that the source decrements and
-- then compares with 0 by `<=` is positive before, so `- 1` on ℕ is the same.
pub mod Coherent
pub mod Steps
pub mod Cpus
pub mod Run
pub mod Metrics
pub mod Work
pub mod Accounts
use g20_os_lab_project.Common.{
  ℕ, zero, suc, ◌+◌, ◌-◌, ◌*◌, Bool, true, false, ltb, leb, ◌==◌, ◌&&◌, if◌then◌else◌, update, ℤ,
  pos, negsuc, minus_one, ltb_ℤ, eqb_ℤ, not, Option, none, some, for_range,
}
use g20_os_lab_project.Sim.Types.{
  AlgorithmKind, ProcState, new, ready, running, blocked, done, EnqueueReason, io_complete, preempt,
  ProcessSpec, ProcessRuntime, Procs, CpuState, Workload,
}
use g20_os_lab_project.Sim.Scheduler.{SchedulerApi}

abbrev pub is_new : ProcState → Bool
is_new new = true
is_new _ = false

abbrev pub is_ready : ProcState → Bool
is_ready ready = true
is_ready _ = false

abbrev pub is_running : ProcState → Bool
is_running running = true
is_running _ = false

abbrev pub is_blocked : ProcState → Bool
is_blocked blocked = true
is_blocked _ = false

abbrev pub is_done : ProcState → Bool
is_done done = true
is_done _ = false

-- The variables of run_simulation that its loop changes.
pub record Machine (S : Type 0) : Type 0 where
  pub scheduler : S
  pub procs : Procs
  pub cpus : ℕ → CpuState
  pub busy_ticks : ℕ
  pub slots : ℕ → ℤ

unfoldable pub initialize_runtime : Workload → Procs
initialize_runtime w i = record {
  spec = w.processes i;
  state = new;
  burst_index = 0;
  remaining_in_burst = ((w.processes i).bursts 0).duration;
  ready_since = (w.processes i).arrival;
  first_run_tick = minus_one;
  completion_tick = minus_one;
  total_waiting = 0;
  runtime_ticks = 0;
  migrations = 0;
  last_cpu = minus_one;
  assigned_cpu = (w.processes i).affinity;
  queue_level = 0;
}

abbrev pub idle_cpu : CpuState
idle_cpu = record { running_pid = none; slice_used = 0 }

unfoldable pub initialize_cpus : ℕ → CpuState
initialize_cpus cpu = idle_cpu

pub all_done : Procs → ℕ → Bool
all_done procs zero = true
all_done procs (suc n) = all_done procs n && is_done (procs n).state

-- The change of a process whose burst is over: the next burst, or the end.
pub next_burst : ProcState → ℕ → ProcessRuntime → ProcessRuntime
next_burst following end_tick p =
    let index = p.burst_index + 1 in
    if leb p.spec.burst_count index
    then record p { state = done; burst_index = index; completion_tick = pos end_tick }
    else record p {
      state = following;
      burst_index = index;
      remaining_in_burst = (p.spec.bursts index).duration;
    }

-- The body of the third loop: waiting time.
pub count_waiting : Procs → ℕ → Procs
count_waiting procs i =
    if is_ready (procs i).state
    then update procs i (record (procs i) { total_waiting = (procs i).total_waiting + 1 })
    else procs

-- A process that a CPU starts to run.
pub start_on : ℕ → ℕ → ProcessRuntime → ProcessRuntime
start_on tick cpu p = record p {
  state = running;
  first_run_tick = if ltb_ℤ p.first_run_tick (pos 0) then pos tick else p.first_run_tick;
  migrations =
      if not (ltb_ℤ p.last_cpu (pos 0)) && not (eqb_ℤ p.last_cpu (pos cpu))
      then p.migrations + 1
      else p.migrations;
  last_cpu = pos cpu;
}

pub slot_of : Procs → Option ℕ → ℤ
slot_of procs none = minus_one
slot_of procs (some pid) = pos (procs pid).spec.pid

pub record_slot : ℕ → ℕ → Procs → (ℕ → CpuState) → (ℕ → ℤ) → ℕ → ℕ → ℤ
unfolding slot_of
record_slot tick cpu_count procs cpus slots cpu =
    update slots (tick * cpu_count + cpu) (slot_of procs (cpus cpu).running_pid)

-- A tick of the process `pid` on a CPU.
pub work_one : ProcessRuntime → ProcessRuntime
work_one p = record p {
  runtime_ticks = p.runtime_ticks + 1;
  remaining_in_burst = p.remaining_in_burst - 1;
}

module _ {S : Type 0} (api : SchedulerApi S) where
  -- The body of the first loop over the processes: arrivals.
  pub arrive : ℕ → S × Procs → ℕ → S × Procs
  arrive tick (s, procs) i =
      if is_new (procs i).state && leb (procs i).spec.arrival tick
      then api.enqueue s procs i (procs i).assigned_cpu tick EnqueueReason.new
      else (s, procs)

  -- The end of an I/O burst. A process that goes on is enqueued, which makes it ready.
  pub complete_io : ℕ → S × Procs → ℕ → S × Procs
  unfolding next_burst
  complete_io tick (s, procs) i =
      let waited = record (procs i) { remaining_in_burst = (procs i).remaining_in_burst - 1 } in
      let p = next_burst blocked tick waited in
      if is_done p.state
      then (s, update procs i p)
      else api.enqueue s (update procs i p) i (procs i).assigned_cpu tick io_complete

  -- The body of the second loop: blocked processes.
  pub wait_io : ℕ → S × Procs → ℕ → S × Procs
  unfolding complete_io
  wait_io tick (s, procs) i =
      if is_blocked (procs i).state
      then if leb (procs i).remaining_in_burst 1 then complete_io tick (s, procs) i else (
        s,
        update procs i (record (procs i) { remaining_in_burst = (procs i).remaining_in_burst - 1 }),
      )
      else (s, procs)

  -- What a CPU does with the pid that the scheduler gives it.
  pub assign_cpu : ℕ → Machine S → ℕ → Option ℕ × S → Machine S
  unfolding start_on
  assign_cpu tick m cpu (none, s) = record m { scheduler = s }
  assign_cpu tick m cpu (some pid, s) = record m {
    scheduler = s;
    procs = update m.procs pid (start_on tick cpu (m.procs pid));
    cpus = update m.cpus cpu (record { running_pid = some pid; slice_used = 0 });
  }

  -- The body of the fourth loop: a free CPU asks the scheduler for a process.
  pub fill_cpu : ℕ → Machine S → ℕ → Machine S
  unfolding assign_cpu
  fill_cpu tick m cpu = elim (m.cpus cpu).running_pid [
    | none ↦ assign_cpu tick m cpu (api.pick_next m.scheduler m.procs cpu tick)
    | some pid ↦ m
  ]

  pub record_timeline : ℕ → ℕ → Machine S → Machine S
  unfolding record_slot for_range
  record_timeline tick cpu_count m = record m {
    slots = for_range (record_slot tick cpu_count m.procs m.cpus) 0 cpu_count m.slots;
  }

  -- The process goes on: it keeps the CPU, or its slice is used up and it is enqueued again.
  pub keep_or_preempt : ℕ → Machine S → ℕ → ℕ → Machine S
  keep_or_preempt tick m cpu pid =
      let used = (m.cpus cpu).slice_used + 1 in
      let (s, procs) = api.enqueue m.scheduler m.procs pid (pos cpu) (tick + 1) preempt in
      if leb (api.time_slice m.scheduler (m.procs pid)) used
      then record m { scheduler = s; procs = procs; cpus = update m.cpus cpu idle_cpu }
      else record m {
        cpus = update m.cpus cpu (record { running_pid = some pid; slice_used = used });
      }

  pub run_process : ℕ → Machine S → ℕ → ℕ → Machine S
  unfolding work_one next_burst keep_or_preempt
  run_process tick m cpu pid =
      let p = work_one (m.procs pid) in
      let over = record m {
        procs = update m.procs pid (next_burst blocked (tick + 1) p);
        cpus = update m.cpus cpu idle_cpu;
        busy_ticks = m.busy_ticks + 1;
      } in
      let on = record m { procs = update m.procs pid p; busy_ticks = m.busy_ticks + 1 } in
      if leb (m.procs pid).remaining_in_burst 1 then over else keep_or_preempt tick on cpu pid

  -- The body of the last loop: each CPU runs its process for one tick.
  pub run_cpu : ℕ → Machine S → ℕ → Machine S
  unfolding run_process
  run_cpu tick m cpu = elim (m.cpus cpu).running_pid [
    | none ↦ m
    | some pid ↦ run_process tick m cpu pid
  ]

  -- One round of the loop over the ticks, in the order of the source.
  pub one_tick : ℕ → ℕ → ℕ → Machine S → Machine S
  unfolding arrive wait_io count_waiting fill_cpu record_timeline run_cpu for_range
  one_tick process_count cpu_count tick m =
      let arrived = for_range (arrive tick) 0 process_count (m.scheduler, m.procs) in
      let woken = for_range (wait_io tick) 0 process_count arrived in
      let (s, procs) = api.tick woken.0 woken.1 tick in
      let counted = for_range count_waiting 0 process_count procs in
      let filled =
        for_range (fill_cpu tick) 0 cpu_count (record m { scheduler = s; procs = counted }) in
      for_range (run_cpu tick) 0 cpu_count (record_timeline tick cpu_count filled)

  -- The loop over the ticks, with the number of ticks left: the number of ticks used, and the end.
  pub simulate : ℕ → ℕ → ℕ → ℕ → Machine S → ℕ × Machine S
  unfolding one_tick all_done
  simulate process_count cpu_count tick zero m = (tick, m)
  simulate process_count cpu_count tick (suc left) m =
      let m' = one_tick process_count cpu_count tick m in
      elim (all_done m'.procs process_count) [
        | true ↦ (tick + 1, m')
        | false ↦ simulate process_count cpu_count (tick + 1) left m'
      ]
