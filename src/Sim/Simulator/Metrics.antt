-- ===== src/Sim/Simulator/Metrics.antt =====
-- How long a simulation runs, and how busy its CPUs are. (simulator.c, run_simulation)
use g20_os_lab_project.Common.{
  ℕ, zero, suc, ◌+◌, ◌*◌, ◌≤◌, ◌<◌, ◌≡◌, refl, ◌∙◌, Bool, true, ◌&&◌, arith, Option, none, some,
  Option-cases, Bool-cases, inl, inr, for_range, ◌⊎◌,
}
use native.Mathlib.Decide.{ℕ_discrete}
use g20_os_lab_project.Sim.Types.{Procs, ProcState, done}
use g20_os_lab_project.Sim.Scheduler.{SchedulerApi}
use g20_os_lab_project.Sim.Simulator.{
  Machine, is_done, fill_cpu, assign_cpu, record_timeline, run_cpu, run_process, keep_or_preempt,
  one_tick, simulate, all_done, arrive, wait_io, count_waiting,
}

-- `all_done` answers yes only if every process of the workload is done.
pub all_done_sound :
    (procs : Procs) (n i : ℕ) → all_done procs n ≡ true → i < n → (procs i).state ≡ done
unfolding all_done
all_done_sound procs zero i h p = absurd (omega arith)
all_done_sound procs (suc n) i h p = elim (ℕ_discrete i n) [
  | yes e ↦ rw e (last (all_done procs n) (procs n).state h)
  | no ne ↦ all_done_sound procs n i (init (all_done procs n) _ h) (omega arith)
]
  where
    last : (b : Bool) (t : ProcState) → (b && is_done t) ≡ true → t ≡ done
    last b t e = ground arith

    init : (b c : Bool) → (b && c) ≡ true → b ≡ true
    init b c e = ground arith

module _ {S : Type 0} (api : SchedulerApi S) where
  -- A loop of which each round adds at most one busy tick.
  busy_loop :
      (body : Machine S → ℕ → Machine S) (i n : ℕ) (m : Machine S)
      → ((k : Machine S) (j : ℕ) → (body k j).busy_ticks ≤ k.busy_ticks + 1)
      → (for_range body i n m).busy_ticks ≤ m.busy_ticks + n
  unfolding for_range
  busy_loop body i zero m h = omega arith
  busy_loop body i (suc n) m h = omega (arith, busy_loop body (i + 1) n (body m i) h, h m i)

  idle_loop :
      (body : Machine S → ℕ → Machine S) (i n : ℕ) (m : Machine S)
      → ((k : Machine S) (j : ℕ) → (body k j).busy_ticks ≡ k.busy_ticks)
      → (for_range body i n m).busy_ticks ≡ m.busy_ticks
  unfolding for_range
  idle_loop body i zero m h = refl
  idle_loop body i (suc n) m h = idle_loop body (i + 1) n (body m i) h ∙ h m i

  run_cpu-busy :
      (tick cpu : ℕ) (m : Machine S) → (run_cpu api tick m cpu).busy_ticks ≤ m.busy_ticks + 1
  unfolding run_cpu run_process keep_or_preempt
  run_cpu-busy tick cpu m = ground arith

  pub fill_cpu-busy :
      (tick cpu : ℕ) (m : Machine S) → (fill_cpu api tick m cpu).busy_ticks ≡ m.busy_ticks
  unfolding fill_cpu
  fill_cpu-busy tick cpu m = elim (Option-cases (m.cpus cpu).running_pid) [
    | inr (pid, busy) ↦ rw (busy, fill_cpu)
    | inl free ↦ rw (free, fill_cpu) (assigned (api.pick_next m.scheduler m.procs cpu tick))
  ]
    where
      assigned : (r : Option ℕ × S) → (assign_cpu api tick m cpu r).busy_ticks ≡ m.busy_ticks
      assigned (none, s) = unfold assign_cpu in refl
      assigned (some pid, s) = unfold assign_cpu in refl

  pub one_tick-busy :
      (n cpu_count tick : ℕ) (m : Machine S)
      → (one_tick api n cpu_count tick m).busy_ticks ≤ m.busy_ticks + cpu_count
  unfolding one_tick record_timeline
  one_tick-busy n cpu_count tick m =
      let woken =
        for_range (wait_io api tick) 0 n (for_range (arrive api tick) 0 n (m.scheduler, m.procs)) in
      let ticked = api.tick woken.0 woken.1 tick in
      let ready : Machine S = record m {
        scheduler = ticked.0;
        procs = for_range count_waiting 0 n ticked.1;
      } in
      let filled = for_range (fill_cpu api tick) 0 cpu_count ready in
      omega (
        arith,
        idle_loop (fill_cpu api tick) 0 cpu_count ready (λ k j. fill_cpu-busy tick j k),
        busy_loop (run_cpu api tick) 0 cpu_count (record_timeline api tick cpu_count filled)
            (λ k j. run_cpu-busy tick j k),
      )

  -- The loop over the ticks ends within its bound; it ends before the bound only with all
  -- processes done; and the busy ticks are at most one for each CPU and tick.
  pub simulate_lem :
      (n cpu_count left tick : ℕ) (m : Machine S)
      → m.busy_ticks ≤ tick * cpu_count
      → let (ticks, m') = simulate api n cpu_count tick left m in
        (tick ≤ ticks)
        × (ticks ≤ tick + left)
        × ((ticks ≡ tick + left) ⊎ (all_done m'.procs n ≡ true))
        × (m'.busy_ticks ≤ ticks * cpu_count)
  unfolding simulate
  simulate_lem n cpu_count zero tick m h = (omega arith, omega arith, inl (omega arith), h)
  simulate_lem n cpu_count (suc left) tick m h =
      let m' = one_tick api n cpu_count tick m in
      let busy : m'.busy_ticks ≤ (tick + 1) * cpu_count =
        omega (arith, one_tick-busy n cpu_count tick m) in
      elim (Bool-cases (all_done m'.procs n)) [
        | inl over ↦ rw (over, simulate) (omega arith, omega arith, inr over, busy)
        | inr on ↦
            rw (on, simulate)
              (let (a, b, c, d) = simulate_lem n cpu_count left (tick + 1) m' busy in
                (
                  omega arith,
                  omega arith,
                  elim c [ inl e ↦ inl (omega (arith, e)) | inr e ↦ inr e ],
                  d,
                ))
      ]
