-- ===== src/Sim/Simulator/Accounts.antt =====
-- The invariant of a run with its work: processes run as many ticks as the CPUs are busy.
-- (simulator.c, run_simulation)
use g20_os_lab_project.Common.{
  ℕ, zero, suc, ◌+◌, ◌≤◌, ◌<◌, ◌≡◌, inl, inr, refl, sym, ap, ◌∙◌, leb, update, update_self,
  update_ne, sum_below-change, arith, some, Bool-cases, Option-cases, pos, for_range, for_range-inv,
}
use g20_os_lab_project.Sim.Types.{blocked, preempt, ProcessRuntime, Procs}
use g20_os_lab_project.Sim.ReadyQueue.{max_processes}
use g20_os_lab_project.Sim.Scheduler.{SchedulerApi}
use g20_os_lab_project.Sim.Scheduler.Laws.{IsScheduler}
use g20_os_lab_project.Sim.Simulator.{
  Machine, is_ready, next_burst, arrive, wait_io, count_waiting, fill_cpu, record_timeline,
  work_one, keep_or_preempt, run_process, run_cpu, one_tick, simulate, all_done,
}
use g20_os_lab_project.Sim.Simulator.Coherent.{cpus_running, Agrees, Coherent, queued-le}
use g20_os_lab_project.Sim.Simulator.Steps.{
  change-Agrees, arrive-Agrees, wait_io-Agrees, count_waiting-Agrees, tick-Agrees,
}
use g20_os_lab_project.Sim.Simulator.Metrics.{fill_cpu-busy}
use g20_os_lab_project.Sim.Simulator.Cpus.{fill_cpu-Coherent, run_cpu-Coherent, on_cpu_running}
use g20_os_lab_project.Sim.Simulator.Work.{
  work, SameWork, same_work, next_burst-runtime, enqueue-SameWork, arrive-SameWork,
  wait_io-SameWork, count_waiting-SameWork, fill_cpu-SameWork,
}

module _ {S : Type 0} {api : SchedulerApi S} {cpu_count : ℕ} (law : IsScheduler api cpu_count)
    {n : ℕ} (small : n ≤ max_processes) where
  open law use {queued, IsValid}

  -- A tick of the process `pid` adds one to the work.
  more_work :
      (procs : Procs) (pid : ℕ) (p : ProcessRuntime)
      → pid < n
      → p.runtime_ticks ≡ (procs pid).runtime_ticks + 1
      → work n (update procs pid p) ≡ work n procs + 1
  more_work procs pid p h one = omega (
    arith,
    sum_below-change n pid (λ a. (update procs pid p a).runtime_ticks)
        (λ a. (procs a).runtime_ticks) h
        (λ j ne. ap (λ (q : ProcessRuntime). q.runtime_ticks) (update_ne procs pid j p ne)),
    ap (λ (q : ProcessRuntime). q.runtime_ticks) (update_self procs pid p),
    one,
  )

  keep_or_preempt-SameWork :
      (tick cpu pid : ℕ) (m : Machine S)
      → cpu < cpu_count
      → (m.cpus cpu).running_pid ≡ some pid
      → Coherent queued IsValid n cpu_count m
      → SameWork m.procs (keep_or_preempt api tick m cpu pid).procs
        × ((keep_or_preempt api tick m cpu pid).busy_ticks ≡ m.busy_ticks)
  unfolding keep_or_preempt
  keep_or_preempt-SameWork tick cpu pid m h busy g =
      let (inside, was, one) = on_cpu_running law small cpu pid m h busy g in
      elim (Bool-cases
        (leb (api.time_slice m.scheduler (m.procs pid)) ((m.cpus cpu).slice_used + 1))) [
          | inl used ↦ rw used (
            enqueue-SameWork law small pid (pos cpu) (tick + 1) preempt g inside (ap is_ready was),
            refl,
          )
          | inr on ↦ rw on (λ a. refl, refl)
        ]

  run_process-work :
      (tick cpu pid : ℕ) (m : Machine S)
      → cpu < cpu_count
      → (m.cpus cpu).running_pid ≡ some pid
      → Coherent queued IsValid n cpu_count m
      → work n m.procs ≡ m.busy_ticks
      → work n (run_process api tick m cpu pid).procs ≡ (run_process api tick m cpu pid).busy_ticks
  unfolding run_process work_one
  run_process-work tick cpu pid m h busy g sum =
      let (inside, was, one) = on_cpu_running law small cpu pid m h busy g in
      let p = work_one (m.procs pid) in
      let total = more_work m.procs pid p inside refl in
      elim (Bool-cases (leb (m.procs pid).remaining_in_burst 1)) [
        | inl over ↦ rw over (
            more_work m.procs pid (next_burst blocked (tick + 1) p) inside
              (next_burst-runtime blocked (tick + 1) p)
            ∙ ap (λ k. k + 1) sum)
        | inr on ↦ rw on (
            let (same, ticks) = keep_or_preempt-SameWork tick cpu pid worked h busy (
              change-Agrees law small (cpus_running cpu_count m.cpus) pid _ g refl (g.levels pid)
                (λ a ne. refl) (g.runs_once pid)) in
            same_work worked.procs (keep_or_preempt api tick worked cpu pid).procs n
              (m.busy_ticks + 1) same (total ∙ ap (λ k. k + 1) sum)
            ∙ sym ticks)
      ]
    where
      worked : Machine S
      worked = record m {
        procs = update m.procs pid (work_one (m.procs pid));
        busy_ticks = m.busy_ticks + 1;
      }

  -- The invariant with the work.
  abbrev pub Accounted : Machine S → Type 0
  Accounted m = Coherent queued IsValid n cpu_count m × (work n m.procs ≡ m.busy_ticks)

  run_cpu-Accounted :
      (tick cpu : ℕ) (m : Machine S)
      → cpu < cpu_count
      → Accounted m
      → Accounted (run_cpu api tick m cpu)
  unfolding run_cpu
  run_cpu-Accounted tick cpu m h (g, sum) = (
    run_cpu-Coherent law small tick cpu m h g,
    elim (Option-cases (m.cpus cpu).running_pid) [
      | inl free ↦ rw (free, run_cpu) sum
      | inr (pid, busy) ↦ rw (busy, run_cpu) (run_process-work tick cpu pid m h busy g sum)
    ],
  )

  fill_cpu-Accounted :
      (tick cpu : ℕ) (m : Machine S)
      → cpu < cpu_count
      → Accounted m
      → Accounted (fill_cpu api tick m cpu)
  fill_cpu-Accounted tick cpu m h (g, sum) = (
    fill_cpu-Coherent law small tick cpu m h g,
    same_work m.procs (fill_cpu api tick m cpu).procs n m.busy_ticks
          (fill_cpu-SameWork law small tick cpu m) sum
        ∙ sym (fill_cpu-busy api tick cpu m),
  )

  -- The loops over the processes, with `k` ticks of work.
  abbrev Steady : (ℕ → ℕ) → ℕ → S × Procs → Type 0
  Steady R k r = Agrees queued IsValid n R r.0 r.1 × (work n r.1 ≡ k)

  one_tick-Accounted :
      (tick : ℕ) (m : Machine S) → Accounted m → Accounted (one_tick api n cpu_count tick m)
  unfolding one_tick record_timeline
  one_tick-Accounted tick m (g, sum) =
      let R = cpus_running cpu_count m.cpus in
      let k = m.busy_ticks in
      let start : S × Procs = (m.scheduler, m.procs) in
      let arrived = for_range (arrive api tick) 0 n start in
      let woken = for_range (wait_io api tick) 0 n arrived in
      let ticked = api.tick woken.0 woken.1 tick in
      let counted = for_range count_waiting 0 n ticked.1 in
      let ready : Machine S = record m { scheduler = ticked.0; procs = counted } in
      let filled = for_range (fill_cpu api tick) 0 cpu_count ready in
      let recorded = record_timeline api tick cpu_count filled in
      let s1 =
        for_range-inv (Steady R k) (arrive api tick) 0 n start
          (λ r i p (q, w). (
            arrive-Agrees law small tick i r (omega arith) q,
            same_work r.1 (arrive api tick r i).1 n k
                (arrive-SameWork law small tick i r (omega arith) q) w,
          ))
          (g, sum) in
      let s2 =
        for_range-inv (Steady R k) (wait_io api tick) 0 n arrived
          (λ r i p (q, w). (
            wait_io-Agrees law small tick i r (omega arith) q,
            same_work r.1 (wait_io api tick r i).1 n k
                (wait_io-SameWork law small tick i r (omega arith) q) w,
          ))
          s1 in
      let s3 = ticked_work tick R k woken s2 in
      let s4 =
        for_range-inv (λ procs. Steady R k (ticked.0, procs)) count_waiting 0 n ticked.1
          (λ procs i p (q, w). (
            count_waiting-Agrees law small i procs q,
            same_work procs (count_waiting procs i) n k (count_waiting-SameWork law small i procs)
                w,
          ))
          s3 in
      for_range-inv Accounted (run_cpu api tick) 0 cpu_count recorded
        (λ b i p q. run_cpu-Accounted tick i b (omega arith) q)
        (for_range-inv Accounted (fill_cpu api tick) 0 cpu_count ready
          (λ b i p q. fill_cpu-Accounted tick i b (omega arith) q) s4)
    where
      ticked_work :
          (now : ℕ) (R : ℕ → ℕ) (k : ℕ) (r : S × Procs)
          → Steady R k r
          → Steady R k (api.tick r.0 r.1 now)
      ticked_work now R k (s, procs) (q, w) =
          let t = law.tick_law s procs now q.valid q.levels (omega (arith, queued-le queued q)) in
          (
            tick-Agrees law small now s procs q,
            same_work procs (api.tick s procs now).1 n k
                (λ a. ap (λ (p : ProcessRuntime). p.runtime_ticks) (t.cores a)) w,
          )

  pub simulate-Accounted :
      (left tick : ℕ) (m : Machine S)
      → Accounted m
      → Accounted (simulate api n cpu_count tick left m).1
  unfolding simulate
  simulate-Accounted zero tick m g = g
  simulate-Accounted (suc left) tick m g =
      let m' = one_tick api n cpu_count tick m in
      let g' = one_tick-Accounted tick m g in
      elim (Bool-cases (all_done m'.procs n)) [
        | inl over ↦ rw (over, simulate) g'
        | inr on ↦ rw (on, simulate) (simulate-Accounted left (tick + 1) m' g')
      ]
