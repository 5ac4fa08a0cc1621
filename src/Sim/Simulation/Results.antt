-- ===== src/Sim/Simulation/Results.antt =====
-- What a whole run guarantees. (simulator.c, run_simulation)
use g20_os_lab_project.Common.{
  sum_below, ◌*◌, ◌≤◌, ◌<◌, ◌≡◌, ◌⊎◌, refl, ap, ◌∙◌, Bool, true, false, bit, ltb, ◌&&◌, count,
  sum_below-zero, arith, inl, inr,
}
use g20_os_lab_project.Sim.Types.{AlgorithmKind, Workload}
use g20_os_lab_project.Sim.ReadyQueue.{max_processes}
use g20_os_lab_project.Sim.Scheduler.{scheduler_api}
use g20_os_lab_project.Sim.Scheduler.Implements.{
  scheduler_api-IsScheduler, scheduler_init-IsSetUp, queued_by-init,
}
use g20_os_lab_project.Sim.Scheduler.Policies.{queued_by, IsSetUp}
use g20_os_lab_project.Sim.Simulator.{all_done}
use g20_os_lab_project.Sim.Simulator.Coherent.{Coherent}
use g20_os_lab_project.Sim.Simulator.{initialize_runtime}
use g20_os_lab_project.Sim.Simulator.Work.{work}
use g20_os_lab_project.Sim.Simulator.Accounts.{simulate-Accounted}
use g20_os_lab_project.Sim.Simulator.Run.{simulate-Coherent}
use g20_os_lab_project.Sim.Simulator.Metrics.{simulate_lem}
use g20_os_lab_project.Sim.Simulation.{SimulationConfig, initial_machine, final_machine}

initial-Coherent :
    (w : Workload) (config : SimulationConfig) (algorithm : AlgorithmKind)
    → Coherent
        (queued_by algorithm)
        (IsSetUp algorithm config.cpu_count)
        w.process_count
        config.cpu_count
        (initial_machine w config algorithm)
unfolding initial_machine
initial-Coherent w config algorithm = record {
  valid = scheduler_init-IsSetUp algorithm config.cpu_count w.process_count config.seed;
  levels = λ a. omega arith;
  queues = λ a.
      ap (count a) (queued_by-init algorithm config.cpu_count w.process_count config.seed)
      ∙ idle (ltb a w.process_count);
  runs_once = λ a. sum_below-zero config.cpu_count ∙ idle (ltb a w.process_count);
}
  where
    idle : (b : Bool) → 0 ≡ bit (b && false)
    idle true = refl
    idle false = refl

no_work :
    (w : Workload) (config : SimulationConfig) (algorithm : AlgorithmKind)
    → let m = initial_machine w config algorithm in work w.process_count m.procs ≡ m.busy_ticks
unfolding initial_machine initialize_runtime
no_work w config algorithm = sum_below-zero w.process_count

-- With at least one CPU and at most 128 processes, at the end of a run under any of the
-- algorithms: every ready process of the workload waits in the scheduler's queues exactly once
-- and nobody else does; every running process runs on exactly one CPU and nobody else on any; and
-- all queue levels are 0 to 2.
pub final_machine-Coherent :
    (w : Workload) (config : SimulationConfig) (algorithm : AlgorithmKind)
    → 0 < config.cpu_count
    → w.process_count ≤ max_processes
    → Coherent
        (queued_by algorithm)
        (IsSetUp algorithm config.cpu_count)
        w.process_count
        config.cpu_count
        (final_machine w config algorithm).1
unfolding final_machine
final_machine-Coherent w config algorithm h small =
    simulate-Coherent (scheduler_api-IsScheduler config.cpu_count h algorithm) small
      config.max_ticks 0 (initial_machine w config algorithm) (initial-Coherent w config algorithm)

-- With at least one CPU and at most 128 processes, at the end of a run under any of the
-- algorithms, the ticks that the processes of the workload have run add up to the busy ticks.
pub final_machine-work :
    (w : Workload) (config : SimulationConfig) (algorithm : AlgorithmKind)
    → 0 < config.cpu_count
    → w.process_count ≤ max_processes
    → let (ticks, m) = final_machine w config algorithm in
      sum_below w.process_count (λ a. (m.procs a).runtime_ticks) ≡ m.busy_ticks
unfolding final_machine
final_machine-work w config algorithm h small =
    (simulate-Accounted (scheduler_api-IsScheduler config.cpu_count h algorithm) small
      config.max_ticks 0 (initial_machine w config algorithm)
      (initial-Coherent w config algorithm, no_work w config algorithm)).1

-- A run uses at most `max_ticks` ticks; it uses all of them or every process of the workload is
-- done; and its busy ticks are at most the ticks times the CPUs.
pub final_machine_bounds :
    (w : Workload) (config : SimulationConfig) (algorithm : AlgorithmKind)
    → let (ticks, m) = final_machine w config algorithm in
      (ticks ≤ config.max_ticks)
      × ((ticks ≡ config.max_ticks) ⊎ (all_done m.procs w.process_count ≡ true))
      × (m.busy_ticks ≤ ticks * config.cpu_count)
unfolding final_machine initial_machine
final_machine_bounds w config algorithm =
    let (a, b, c, d) =
      simulate_lem scheduler_api w.process_count config.cpu_count config.max_ticks 0
        (initial_machine w config algorithm) (omega arith) in
    (omega arith, elim c [ inl e ↦ inl (omega (arith, e)) | inr e ↦ inr e ], d)
