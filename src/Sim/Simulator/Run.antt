-- ===== src/Sim/Simulator/Run.antt =====
-- The whole simulation keeps its invariant. (simulator.c, run_simulation)
use g20_os_lab_project.Common.{
  ℕ, zero, suc, ◌+◌, ◌≤◌, inl, inr, arith, Bool-cases, for_range, for_range-inv,
}
use g20_os_lab_project.Sim.Types.{Procs}
use g20_os_lab_project.Sim.ReadyQueue.{max_processes}
use g20_os_lab_project.Sim.Scheduler.{SchedulerApi}
use g20_os_lab_project.Sim.Scheduler.Laws.{IsScheduler}
use g20_os_lab_project.Sim.Simulator.{
  Machine, arrive, wait_io, count_waiting, fill_cpu, record_timeline, run_cpu, one_tick, simulate,
  all_done,
}
use g20_os_lab_project.Sim.Simulator.Coherent.{cpus_running, Agrees, Coherent}
use g20_os_lab_project.Sim.Simulator.Steps.{
  arrive-Agrees, wait_io-Agrees, count_waiting-Agrees, tick-Agrees,
}
use g20_os_lab_project.Sim.Simulator.Cpus.{fill_cpu-Coherent, run_cpu-Coherent}

module _ {S : Type 0} {api : SchedulerApi S} {cpu_count : ℕ} (law : IsScheduler api cpu_count)
    {n : ℕ} (small : n ≤ max_processes) where
  open law use {queued, IsValid}

  abbrev Settled : (ℕ → ℕ) → S × Procs → Type 0
  Settled R r = Agrees queued IsValid n R r.0 r.1

  -- One tick of the simulation, all five loops of it, keeps the invariant.
  pub one_tick-Coherent :
      (tick : ℕ) (m : Machine S)
      → Coherent queued IsValid n cpu_count m
      → Coherent queued IsValid n cpu_count (one_tick api n cpu_count tick m)
  unfolding one_tick record_timeline
  one_tick-Coherent tick m g =
      let R = cpus_running cpu_count m.cpus in
      let start : S × Procs = (m.scheduler, m.procs) in
      let arrived = for_range (arrive api tick) 0 n start in
      let woken = for_range (wait_io api tick) 0 n arrived in
      let ticked = api.tick woken.0 woken.1 tick in
      let counted = for_range count_waiting 0 n ticked.1 in
      let ready : Machine S = record m { scheduler = ticked.0; procs = counted } in
      let filled = for_range (fill_cpu api tick) 0 cpu_count ready in
      let recorded = record_timeline api tick cpu_count filled in
      for_range-inv (Coherent queued IsValid n cpu_count) (run_cpu api tick) 0 cpu_count recorded
        (λ k i p q. run_cpu-Coherent law small tick i k (omega arith) q)
        (for_range-inv (Coherent queued IsValid n cpu_count) (fill_cpu api tick) 0 cpu_count ready
          (λ k i p q. fill_cpu-Coherent law small tick i k (omega arith) q)
          (for_range-inv (λ procs. Settled R (ticked.0, procs)) count_waiting 0 n ticked.1
            (λ procs i p q. count_waiting-Agrees law small i procs q)
            (tick-Agrees law small tick woken.0 woken.1 (
              for_range-inv (Settled R) (wait_io api tick) 0 n arrived
                (λ r i p q. wait_io-Agrees law small tick i r (omega arith) q)
                (for_range-inv (Settled R) (arrive api tick) 0 n start
                  (λ r i p q. arrive-Agrees law small tick i r (omega arith) q) g)))))

  pub simulate-Coherent :
      (left tick : ℕ) (m : Machine S)
      → Coherent queued IsValid n cpu_count m
      → Coherent queued IsValid n cpu_count (simulate api n cpu_count tick left m).1
  unfolding simulate
  simulate-Coherent zero tick m g = g
  simulate-Coherent (suc left) tick m g =
      let m' = one_tick api n cpu_count tick m in
      let g' = one_tick-Coherent tick m g in
      elim (Bool-cases (all_done m'.procs n)) [
        | inl over ↦ rw (over, simulate) g'
        | inr on ↦ rw (on, simulate) (simulate-Coherent left (tick + 1) m' g')
      ]
