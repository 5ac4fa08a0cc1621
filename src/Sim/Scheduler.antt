-- ===== src/Sim/Scheduler.antt =====
-- The scheduler interface of G20_Project2_2/include/scheduler.h, and its implementation, the
-- dispatch on the algorithm in G20_Project2_2/src/core/simulator.c (lines 54 to 154).
pub mod Laws
pub mod Policies
pub mod Implements
use g20_os_lab_project.Common.{ℕ, zero, suc, ℤ, Option, update}
use g20_os_lab_project.Sim.Types.{
  AlgorithmKind, mlfq, lottery, edf, custom, all, EnqueueReason, ProcState, ProcessRuntime, Procs,
}
use g20_os_lab_project.Sim.Mlfq.{MlfqState, mlfq_init, mlfq_enqueue, mlfq_pick_next, mlfq_tick}
use g20_os_lab_project.Sim.Lottery.{LotteryState, lottery_init, lottery_enqueue, lottery_pick_next}
use g20_os_lab_project.Sim.Edf.{EdfState, edf_init, edf_enqueue, edf_pick_next}
use g20_os_lab_project.Sim.Custom.{
  CustomState, custom_init, custom_enqueue, custom_pick_next, custom_tick,
}

-- The functions that scheduler.h offers to the simulator, over some scheduler state.
pub record SchedulerApi (S : Type 0) : Type 0 where
  pub enqueue : S → Procs → ℕ → ℤ → ℕ → EnqueueReason → S × Procs
  pub pick_next : S → Procs → ℕ → ℕ → Option ℕ × S
  pub tick : S → Procs → ℕ → S × Procs
  pub time_slice : S → ProcessRuntime → ℕ

-- The members of the union stand side by side; only that of the algorithm is used.
pub record SchedulerState : Type 0 where
  pub algorithm : AlgorithmKind
  pub cpu_count : ℕ
  pub proc_count : ℕ
  pub seed : ℕ
  pub mlfq_state : MlfqState
  pub lottery_state : LotteryState
  pub edf_state : EdfState
  pub custom_state : CustomState

unfoldable pub scheduler_init : AlgorithmKind → ℕ → ℕ → ℕ → SchedulerState
scheduler_init algorithm cpu_count proc_count seed = record {
  algorithm = algorithm;
  cpu_count = cpu_count;
  proc_count = proc_count;
  seed = seed;
  mlfq_state = mlfq_init;
  lottery_state = lottery_init seed;
  edf_state = edf_init;
  custom_state = custom_init;
}

-- The branch of `enqueue_process` for each algorithm.
pub enqueue_by :
    AlgorithmKind → SchedulerState → Procs → ℕ → ℤ → EnqueueReason → SchedulerState × Procs
enqueue_by mlfq s procs pid cpu_hint reason =
    let (m, procs') = mlfq_enqueue s.mlfq_state procs pid reason in
    (record s { mlfq_state = m }, procs')
enqueue_by lottery s procs pid cpu_hint reason =
    (record s { lottery_state = lottery_enqueue s.lottery_state pid }, procs)
enqueue_by edf s procs pid cpu_hint reason =
    (record s { edf_state = edf_enqueue s.edf_state pid }, procs)
enqueue_by _ s procs pid cpu_hint reason =
    let (c, procs') = custom_enqueue s.custom_state s.cpu_count procs pid cpu_hint in
    (record s { custom_state = c }, procs')

pub enqueue_process : SchedulerState → Procs → ℕ → ℤ → ℕ → EnqueueReason → SchedulerState × Procs
unfolding enqueue_by
enqueue_process s procs pid cpu_hint now reason =
    let ready = record (procs pid) { state = ProcState.ready; ready_since = now } in
    enqueue_by s.algorithm s (update procs pid ready) pid cpu_hint reason

pub pick_by : AlgorithmKind → SchedulerState → Procs → ℕ → ℕ → Option ℕ × SchedulerState
pick_by mlfq s procs cpu_id now =
    let (r, m) = mlfq_pick_next s.mlfq_state in (r, record s { mlfq_state = m })
pick_by lottery s procs cpu_id now =
    let (r, l) = lottery_pick_next s.lottery_state procs in (r, record s { lottery_state = l })
pick_by edf s procs cpu_id now =
    let (r, e) = edf_pick_next s.edf_state procs in (r, record s { edf_state = e })
pick_by _ s procs cpu_id now =
    let (r, c) = custom_pick_next s.custom_state procs cpu_id now in
    (r, record s { custom_state = c })

pub pick_next_process : SchedulerState → Procs → ℕ → ℕ → Option ℕ × SchedulerState
unfolding pick_by
pick_next_process s procs cpu_id now = pick_by s.algorithm s procs cpu_id now

pub mlfq_slice : ℕ → ℕ
mlfq_slice zero = 2
mlfq_slice (suc zero) = 4
mlfq_slice (suc (suc n)) = 8

pub time_slice_by : AlgorithmKind → ProcessRuntime → ℕ
unfolding mlfq_slice
time_slice_by mlfq proc = mlfq_slice proc.queue_level
time_slice_by lottery proc = 2
time_slice_by edf proc = 1
time_slice_by custom proc = 4
time_slice_by all proc = 1

pub time_slice_for : SchedulerState → ProcessRuntime → ℕ
unfolding time_slice_by
time_slice_for s proc = time_slice_by s.algorithm proc

pub tick_by : AlgorithmKind → SchedulerState → Procs → ℕ → SchedulerState × Procs
tick_by mlfq s procs now =
    let (m, procs') = mlfq_tick s.mlfq_state procs now in (record s { mlfq_state = m }, procs')
tick_by custom s procs now =
    let (c, procs') = custom_tick s.custom_state s.cpu_count procs now in
    (record s { custom_state = c }, procs')
tick_by _ s procs now = (s, procs)

pub scheduler_tick : SchedulerState → Procs → ℕ → SchedulerState × Procs
unfolding tick_by
scheduler_tick s procs now = tick_by s.algorithm s procs now

-- scheduler_enqueue, scheduler_pick_next, scheduler_tick and scheduler_time_slice.
abbrev pub scheduler_api : SchedulerApi SchedulerState
scheduler_api = record {
  enqueue = enqueue_process;
  pick_next = pick_next_process;
  tick = scheduler_tick;
  time_slice = time_slice_for;
}
