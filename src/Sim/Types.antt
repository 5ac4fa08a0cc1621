-- ===== src/Sim/Types.antt =====
-- The data of the simulator: G20_Project2_2/include/sim.h. Numbers that parse_workload keeps at 0
-- or more are ℕ, and so are durations, which it checks to be positive before it narrows them to `int`;
-- the others are ℤ. A C array is a function of its index.
use g20_os_lab_project.Common.{ℕ, ℤ, Option, pos}

abbrev pub max_bursts : ℕ
max_bursts = 32

abbrev pub max_cpus : ℕ
max_cpus = 8

pub data AlgorithmKind : Type 0 where
  mlfq lottery edf custom all : AlgorithmKind

pub data BurstType : Type 0 where
  cpu io : BurstType

pub data ProcState : Type 0 where
  new ready running blocked done : ProcState

pub data EnqueueReason : Type 0 where
  new io_complete preempt : EnqueueReason

pub record Burst : Type 0 where
  pub type : BurstType
  pub duration : ℕ

pub record ProcessSpec : Type 0 where
  pub pid : ℕ
  pub arrival : ℕ
  pub base_priority : ℤ
  pub tickets : ℕ
  pub deadline : ℤ
  pub affinity : ℤ
  pub burst_count : ℕ
  pub bursts : ℕ → Burst

pub record ProcessRuntime : Type 0 where
  pub spec : ProcessSpec
  pub state : ProcState
  pub burst_index : ℕ
  pub remaining_in_burst : ℕ
  pub ready_since : ℕ
  pub first_run_tick : ℤ
  pub completion_tick : ℤ
  pub total_waiting : ℕ
  pub runtime_ticks : ℕ
  pub migrations : ℕ
  pub last_cpu : ℤ
  pub assigned_cpu : ℤ
  pub queue_level : ℕ

-- `ProcessRuntime procs[]`.
abbrev pub Procs : Type 0
Procs = ℕ → ProcessRuntime

-- `running_pid`, an index into the process table, is `none` for -1.
pub record CpuState : Type 0 where
  pub running_pid : Option ℕ
  pub slice_used : ℕ

pub record Workload : Type 0 where
  pub processes : ℕ → ProcessSpec
  pub process_count : ℕ

-- A process without its queue level and its assigned CPU, which the schedulers may change.
abbrev pub core : ProcessRuntime → ProcessRuntime
core p = record p { assigned_cpu = pos 0; queue_level = 0 }
