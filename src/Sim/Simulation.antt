-- ===== src/Sim/Simulation.antt =====
-- run_simulation and its metrics: G20_Project2_2/src/core/simulator.c (lines 186 to 356).
-- The C `double` quotients are kept as exact numerator and denominator. `malloc` is a parameter:
-- whether it returns memory.
pub mod Results
use g20_os_lab_project.Common.{
  ℕ, zero, suc, ◌+◌, ◌*◌, ◌≤◌, Bool, true, false, ltb, ◌==◌, ◌&&◌, if◌then◌else◌, bit, sum_below, ℤ,
  pos, ◌+ℤ◌, ◌-ℤ◌, ltb_ℤ, not, Option, none, some, minus_one,
}
use g20_os_lab_project.Sim.Types.{AlgorithmKind, ProcessRuntime, Procs, Workload}
use g20_os_lab_project.Sim.Scheduler.{SchedulerState, scheduler_init, scheduler_api}
use g20_os_lab_project.Sim.Simulator.{Machine, initialize_runtime, initialize_cpus, simulate}

-- A quotient of numbers, as the program computes it in `double`.
pub record Ratio : Type 0 where
  pub num : ℤ
  pub den : ℕ

pub record SimulationConfig : Type 0 where
  pub cpu_count : ℕ
  pub seed : ℕ
  pub max_ticks : ℕ

pub record Timeline : Type 0 where
  pub tick_count : ℕ
  pub cpu_count : ℕ
  pub slots : ℕ → ℤ

pub record SimulationMetrics : Type 0 where
  pub algorithm : AlgorithmKind
  pub cpu_count : ℕ
  pub seed : ℕ
  pub total_ticks : ℕ
  pub completed : ℕ
  pub deadline_misses : ℕ
  pub busy_ticks : ℕ
  pub migrations : ℕ
  pub throughput : Ratio
  pub cpu_utilization : Ratio
  pub avg_waiting : Ratio
  pub avg_turnaround : Ratio
  pub avg_response : Ratio

pub record SimulationResult : Type 0 where
  pub metrics : SimulationMetrics
  pub timeline : Timeline

-- `for (i = 0; i < count; i++) total += f(i);` on signed numbers.
pub sum_ℤ : ℕ → (ℕ → ℤ) → ℤ
sum_ℤ zero f = pos 0
sum_ℤ (suc n) f = sum_ℤ n f +ℤ f n

pub misses_deadline : ProcessRuntime → Bool
misses_deadline p = not (ltb_ℤ p.spec.deadline (pos 0)) && ltb_ℤ p.spec.deadline p.completion_tick

pub collect_metrics :
    AlgorithmKind → ℕ → Procs → (count total_ticks cpu_count busy_ticks : ℕ) → SimulationMetrics
unfolding sum_ℤ misses_deadline
collect_metrics algorithm seed procs count total_ticks cpu_count busy_ticks =
    let ticks = if ltb 0 total_ticks then total_ticks else 1 in
    record {
      algorithm = algorithm;
      cpu_count = cpu_count;
      seed = seed;
      total_ticks = total_ticks;
      completed = count;
      deadline_misses = sum_below count (λ i. bit (misses_deadline (procs i)));
      busy_ticks = busy_ticks;
      migrations = sum_below count (λ i. (procs i).migrations);
      throughput = record { num = pos count; den = ticks };
      cpu_utilization = record { num = pos busy_ticks; den = ticks * cpu_count };
      avg_waiting = record {
        num = pos (sum_below count (λ i. (procs i).total_waiting));
        den = count;
      };
      avg_turnaround = record {
        num = sum_ℤ count (λ i. (procs i).completion_tick -ℤ pos (procs i).spec.arrival);
        den = count;
      };
      avg_response = record {
        num = sum_ℤ count (λ i. (procs i).first_run_tick -ℤ pos (procs i).spec.arrival);
        den = count;
      };
    }

-- The variables of run_simulation before the loop over the ticks.
pub initial_machine : Workload → SimulationConfig → AlgorithmKind → Machine SchedulerState
unfolding initialize_runtime initialize_cpus scheduler_init
initial_machine w config algorithm = record {
  scheduler = scheduler_init algorithm config.cpu_count w.process_count config.seed;
  procs = initialize_runtime w;
  cpus = initialize_cpus;
  busy_ticks = 0;
  slots = λ i. minus_one;
}

-- The number of ticks used and the final machine.
pub final_machine : Workload → SimulationConfig → AlgorithmKind → ℕ × Machine SchedulerState
final_machine w config algorithm =
    simulate scheduler_api w.process_count config.cpu_count 0 config.max_ticks
      (initial_machine w config algorithm)

-- -1 is `none`.
unfoldable pub run_simulation :
    (malloc_ok : Bool) → Workload → SimulationConfig → AlgorithmKind → Option SimulationResult
unfolding collect_metrics
run_simulation false w config algorithm = none
run_simulation true w config algorithm =
    let (ticks, m) = final_machine w config algorithm in
    some (record {
      metrics =
          collect_metrics algorithm config.seed m.procs w.process_count ticks config.cpu_count
            m.busy_ticks;
      timeline = record { tick_count = ticks; cpu_count = config.cpu_count; slots = m.slots };
    })
