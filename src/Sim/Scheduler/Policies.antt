-- ===== src/Sim/Scheduler/Policies.antt =====
-- Each of the four policies of G20_Project2_2 keeps the laws of a scheduler.
use g20_os_lab_project.Common.{
  ℕ, ℤ, ◌+◌, ◌≤◌, ◌<◌, ◌≡◌, refl, ap, ◌∙◌, update, update_self, update_ne, bit, ◌==◌, count, length,
  List, arith,
}
use native.Mathlib.Decide.{ℕ_discrete}
use g20_os_lab_project.Sim.Types.{
  AlgorithmKind, mlfq, lottery, edf, custom, all, EnqueueReason, Procs, core,
}
use g20_os_lab_project.Sim.ReadyQueue.{contents, max_processes}
use g20_os_lab_project.Sim.Mlfq.Levels.{mlfq_queued, mlfq_enqueue_lem, next_level-le}
use g20_os_lab_project.Sim.Mlfq.Counts.{
  mlfq_enqueue-count, mlfq_pick_next-count, mlfq_tick-queued, mlfq_tick-procs,
}
use g20_os_lab_project.Sim.Lottery.Draw.{lottery_enqueue-count, lottery_pick_next-count}
use g20_os_lab_project.Sim.Edf.Choice.{edf_enqueue-count, edf_pick_next-count}
use g20_os_lab_project.Sim.Custom.Counts.{
  custom_queued, custom_enqueue-threshold, custom_pick_next-threshold, custom_enqueue-count,
  custom_enqueue-core, custom_enqueue_other, custom_pick_next-count, custom_tick-Balanced,
}
use g20_os_lab_project.Sim.Scheduler.{SchedulerState, enqueue_by, pick_by, tick_by}
use g20_os_lab_project.Sim.Scheduler.Laws.{HasLevels, make_ready, Enqueued, Picked, Ticked}

-- The waiting pids of each policy; the CPUs' queues one after the other for the custom one.
unfoldable pub queued_by : AlgorithmKind → SchedulerState → List ℕ
queued_by mlfq s = mlfq_queued s.mlfq_state
queued_by lottery s = contents s.lottery_state.ready
queued_by edf s = contents s.edf_state.ready
queued_by _ s = custom_queued s.cpu_count s.custom_state

-- The policy and the sizes do not change, and a steal needs some imbalance.
pub record IsSetUp (algorithm : AlgorithmKind) (cpu_count : ℕ) (s : SchedulerState) : Type 0 where
  pub policy : s.algorithm ≡ algorithm
  pub cpus : s.cpu_count ≡ cpu_count
  pub threshold : 0 < s.custom_state.imbalance_threshold

module _ (cpu_count : ℕ) (some_cpu : 0 < cpu_count) where
  -- The process `pid` of `procs`, made ready.
  abbrev pub readied : Procs → ℕ → ℕ → Procs
  readied procs pid now = update procs pid (make_ready now (procs pid))

  readied-levels :
      (procs : Procs) (pid now : ℕ) → HasLevels procs → HasLevels (readied procs pid now)
  readied-levels procs pid now h a = elim (ℕ_discrete a pid) [
    | yes e ↦ rw (e, update_self procs pid (make_ready now (procs pid))) (h pid)
    | no ne ↦ rw (update_ne procs pid a (make_ready now (procs pid)) ne) (h a)
  ]

  -- A policy that leaves the processes as they were made ready.
  plain-Enqueued :
      (algorithm : AlgorithmKind) (s s' : SchedulerState) (procs : Procs) (pid now : ℕ)
      → IsSetUp algorithm cpu_count s'
      → HasLevels procs
      → ((a : ℕ)
          → count a (queued_by algorithm s') ≡ count a (queued_by algorithm s) + bit (pid == a))
      → Enqueued
          (queued_by algorithm)
          (IsSetUp algorithm cpu_count)
          s
          procs
          pid
          now
          (s', readied procs pid now)
  plain-Enqueued algorithm s s' procs pid now valid low added = record {
    valid = valid;
    added = added;
    ready = ap core (update_self procs pid (make_ready now (procs pid)));
    others = λ a ne. update_ne procs pid a _ ne;
    levels = readied-levels procs pid now low;
  }

  abbrev on_all_cpus : SchedulerState → List ℕ
  on_all_cpus s = custom_queued s.cpu_count s.custom_state

  custom-Enqueued :
      (algorithm : AlgorithmKind) (s : SchedulerState) (procs : Procs) (pid : ℕ) (hint : ℤ)
      (now : ℕ) (reason : EnqueueReason)
      → IsSetUp algorithm cpu_count s
      → HasLevels procs
      → length (on_all_cpus s) < max_processes
      → Enqueued on_all_cpus
          (IsSetUp algorithm cpu_count)
          s
          procs
          pid
          now
          (enqueue_by custom s (readied procs pid now) pid hint reason)
  unfolding enqueue_by
  custom-Enqueued algorithm s procs pid hint now reason v low room =
      let procs1 = readied procs pid now in
      let cores = λ (a : ℕ). custom_enqueue-core s.custom_state s.cpu_count procs1 pid hint a in
      record {
        valid = record {
          policy = v.policy;
          cpus = v.cpus;
          threshold =
              custom_enqueue-threshold s.custom_state s.cpu_count procs1 pid hint v.threshold;
        };
        added = λ a.
            custom_enqueue-count s.custom_state s.cpu_count procs1 pid hint a
              (omega (arith, v.cpus)) room;
        ready = (cores pid).0 ∙ ap core (update_self procs pid (make_ready now (procs pid)));
        others = λ a ne.
            custom_enqueue_other s.custom_state s.cpu_count procs1 pid hint a ne
            ∙ update_ne procs pid a _ ne;
        levels = λ a. omega (arith, (cores a).1, readied-levels procs pid now low a);
      }

  pub enqueue_by-Enqueued :
      (algorithm : AlgorithmKind) (s : SchedulerState) (procs : Procs) (pid : ℕ) (hint : ℤ)
      (now : ℕ) (reason : EnqueueReason)
      → IsSetUp algorithm cpu_count s
      → HasLevels procs
      → length (queued_by algorithm s) < max_processes
      → Enqueued
          (queued_by algorithm)
          (IsSetUp algorithm cpu_count)
          s
          procs
          pid
          now
          (enqueue_by algorithm s (readied procs pid now) pid hint reason)
  unfolding enqueue_by queued_by
  enqueue_by-Enqueued mlfq s procs pid hint now reason v low room =
      let procs1 = readied procs pid now in
      let low1 = readied-levels procs pid now low pid in
      let (here, others, own, alone) = mlfq_enqueue_lem s.mlfq_state procs1 pid reason room low1 in
      record {
        valid = record { policy = v.policy; cpus = v.cpus; threshold = v.threshold };
        added = λ a. mlfq_enqueue-count s.mlfq_state procs1 pid reason a room low1;
        ready = ap core own ∙ ap core (update_self procs pid (make_ready now (procs pid)));
        others = λ a ne. alone a ne ∙ update_ne procs pid a _ ne;
        levels = λ a. elim (ℕ_discrete a pid) [
          | yes e ↦ rw (e, own) (next_level-le reason (procs1 pid).queue_level low1)
          | no ne ↦ rw (alone a ne, update_ne procs pid a (make_ready now (procs pid)) ne) (low a)
        ];
      }
  enqueue_by-Enqueued lottery s procs pid hint now reason v low room =
      plain-Enqueued lottery s (enqueue_by lottery s procs pid hint reason).0 procs pid now
        (record { policy = v.policy; cpus = v.cpus; threshold = v.threshold }) low
        (λ a. lottery_enqueue-count s.lottery_state pid a room)
  enqueue_by-Enqueued edf s procs pid hint now reason v low room =
      plain-Enqueued edf s (enqueue_by edf s procs pid hint reason).0 procs pid now
        (record { policy = v.policy; cpus = v.cpus; threshold = v.threshold }) low
        (λ a. edf_enqueue-count s.edf_state pid a room)
  enqueue_by-Enqueued custom s procs pid hint now reason v low room =
      custom-Enqueued custom s procs pid hint now reason v low room
  enqueue_by-Enqueued all s procs pid hint now reason v low room =
      custom-Enqueued all s procs pid hint now reason v low room

  pub pick_by-Picked :
      (algorithm : AlgorithmKind) (s : SchedulerState) (procs : Procs) (cpu_id now : ℕ)
      → IsSetUp algorithm cpu_count s
      → cpu_id < cpu_count
      → Picked
          (queued_by algorithm)
          (IsSetUp algorithm cpu_count)
          s
          (pick_by algorithm s procs cpu_id now)
  unfolding pick_by queued_by
  pick_by-Picked mlfq s procs cpu_id now v h = record {
    valid = record { policy = v.policy; cpus = v.cpus; threshold = v.threshold };
    removed = λ a. mlfq_pick_next-count s.mlfq_state a;
  }
  pick_by-Picked lottery s procs cpu_id now v h = record {
    valid = record { policy = v.policy; cpus = v.cpus; threshold = v.threshold };
    removed = λ a. lottery_pick_next-count s.lottery_state procs a;
  }
  pick_by-Picked edf s procs cpu_id now v h = record {
    valid = record { policy = v.policy; cpus = v.cpus; threshold = v.threshold };
    removed = λ a. edf_pick_next-count s.edf_state procs a;
  }
  pick_by-Picked custom s procs cpu_id now v h = record {
    valid = record {
      policy = v.policy;
      cpus = v.cpus;
      threshold = custom_pick_next-threshold s.custom_state procs cpu_id now v.threshold;
    };
    removed = λ a.
        custom_pick_next-count s.custom_state s.cpu_count procs cpu_id now a
          (omega (arith, v.cpus));
  }
  pick_by-Picked all s procs cpu_id now v h = record {
    valid = record {
      policy = v.policy;
      cpus = v.cpus;
      threshold = custom_pick_next-threshold s.custom_state procs cpu_id now v.threshold;
    };
    removed = λ a.
        custom_pick_next-count s.custom_state s.cpu_count procs cpu_id now a
          (omega (arith, v.cpus));
  }

  still-Ticked :
      (algorithm : AlgorithmKind) (s : SchedulerState) (procs : Procs)
      → IsSetUp algorithm cpu_count s
      → HasLevels procs
      → Ticked (queued_by algorithm) (IsSetUp algorithm cpu_count) s procs (s, procs)
  still-Ticked algorithm s procs v low = record {
    valid = v;
    same = λ a. refl;
    cores = λ a. refl;
    levels = low;
  }

  pub tick_by-Ticked :
      (algorithm : AlgorithmKind) (s : SchedulerState) (procs : Procs) (now : ℕ)
      → IsSetUp algorithm cpu_count s
      → HasLevels procs
      → length (queued_by algorithm s) ≤ max_processes
      → Ticked
          (queued_by algorithm)
          (IsSetUp algorithm cpu_count)
          s
          procs
          (tick_by algorithm s procs now)
  unfolding tick_by queued_by
  tick_by-Ticked mlfq s procs now v low room = record {
    valid = record { policy = v.policy; cpus = v.cpus; threshold = v.threshold };
    same = λ a. ap (count a) (mlfq_tick-queued s.mlfq_state procs now room);
    cores = λ a. (mlfq_tick-procs s.mlfq_state procs now a room).0;
    levels = λ a. omega (arith, (mlfq_tick-procs s.mlfq_state procs now a room).1, low a);
  }
  tick_by-Ticked lottery s procs now v low room = still-Ticked lottery s procs v low
  tick_by-Ticked edf s procs now v low room = still-Ticked edf s procs v low
  tick_by-Ticked custom s procs now v low room =
      let r =
        custom_tick-Balanced s.custom_state s.cpu_count procs now (omega (arith, v.cpus))
          v.threshold room in
      record {
        valid = record {
          policy = v.policy;
          cpus = v.cpus;
          threshold = omega (arith, r.threshold, v.threshold);
        };
        same = r.counts;
        cores = r.cores;
        levels = λ a. omega (arith, r.levels a, low a);
      }
  tick_by-Ticked all s procs now v low room = still-Ticked all s procs v low
