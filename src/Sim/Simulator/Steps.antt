-- ===== src/Sim/Simulator/Steps.antt =====
-- The loops over the processes keep the simulator's invariant. (simulator.c, lines 252 to 283)
use g20_os_lab_project.Common.{
  ℕ, ◌+◌, ◌≤◌, ◌<◌, ◌≡◌, ◌≢◌, inl, inr, refl, sym, ap, ◌∙◌, true, false, ltb, leb, ◌&&◌, update,
  update_self, update_ne, bit, arith, Bool-cases, ℤ,
}
use native.Mathlib.Decide.{ℕ_discrete}
use g20_os_lab_project.Sim.Types.{EnqueueReason, io_complete, ProcessRuntime, Procs}
use g20_os_lab_project.Sim.ReadyQueue.{max_processes}
use g20_os_lab_project.Sim.Scheduler.{SchedulerApi}
use g20_os_lab_project.Sim.Scheduler.Laws.{IsScheduler}
use g20_os_lab_project.Sim.Simulator.{
  is_new, is_ready, is_running, is_blocked, next_burst, arrive, complete_io, wait_io, count_waiting,
}
use g20_os_lab_project.Sim.Simulator.Coherent.{Agrees, queued-le, queued-lt}

module _ {S : Type 0} {api : SchedulerApi S} {cpu_count : ℕ} (law : IsScheduler api cpu_count)
    {n : ℕ} (small : n ≤ max_processes) where
  open law use {queued, IsValid}

  -- A change of one process that keeps it ready or not ready.
  pub change-Agrees :
      {R : ℕ → ℕ} {s : S} {procs : Procs} (R' : ℕ → ℕ) (i : ℕ) (p : ProcessRuntime)
      → Agrees queued IsValid n R s procs
      → is_ready p.state ≡ is_ready (procs i).state
      → p.queue_level ≤ 2
      → ((a : ℕ) → a ≢ i → R' a ≡ R a)
      → R' i ≡ bit (ltb i n && is_running p.state)
      → Agrees queued IsValid n R' s (update procs i p)
  change-Agrees {R} {s} {procs} R' i p g same low other here = record {
    valid = g.valid;
    levels = λ a. elim (ℕ_discrete a i) [
      | yes e ↦ rw (e, update_self procs i p) low
      | no ne ↦ rw (update_ne procs i a p ne) (g.levels a)
    ];
    queues = λ a. elim (ℕ_discrete a i) [
      | yes e ↦ rw (e, update_self procs i p, same) (g.queues i)
      | no ne ↦ rw (update_ne procs i a p ne) (g.queues a)
    ];
    runs_once = λ a. elim (ℕ_discrete a i) [
      | yes e ↦ rw (e, update_self procs i p) here
      | no ne ↦ rw (update_ne procs i a p ne) (other a ne ∙ g.runs_once a)
    ];
  }

  -- Enqueuing a process that is not ready and now runs nowhere.
  pub enqueue-Agrees :
      {R : ℕ → ℕ} {s : S} {procs : Procs} (R' : ℕ → ℕ) (i : ℕ) (hint : ℤ) (now : ℕ)
      (reason : EnqueueReason)
      → Agrees queued IsValid n R s procs
      → i < n
      → is_ready (procs i).state ≡ false
      → ((a : ℕ) → a ≢ i → R' a ≡ R a)
      → R' i ≡ 0
      → let (s', procs') = api.enqueue s procs i hint now reason in
        Agrees queued IsValid n R' s' procs'
  enqueue-Agrees {R} {s} {procs} R' i hint now reason g h idle other here =
      let r =
        law.enqueue_law s procs i hint now reason g.valid g.levels
          (omega (arith, queued-lt queued i g h idle)) in
      record {
        valid = r.valid;
        levels = r.levels;
        queues = λ a. elim (ℕ_discrete a i) [
          | yes e ↦ rw e (
              ground
                (arith, r.added i, g.queues i, ap (λ (p : ProcessRuntime). p.state) r.ready, idle))
          | no ne ↦ ground (arith, r.added a, g.queues a, r.others a ne)
        ];
        runs_once = λ a. elim (ℕ_discrete a i) [
          | yes e ↦ rw e (ground (arith, here, ap (λ (p : ProcessRuntime). p.state) r.ready))
          | no ne ↦ rw (r.others a ne) (other a ne ∙ g.runs_once a)
        ];
      }

  running_zero :
      {R : ℕ → ℕ} {s : S} {procs : Procs} (i : ℕ)
      → Agrees queued IsValid n R s procs
      → is_running (procs i).state ≡ false
      → R i ≡ 0
  running_zero {procs = procs} i g h = ground (arith, g.runs_once i, h)

  pub arrive-Agrees :
      {R : ℕ → ℕ} (tick i : ℕ) (r : S × Procs)
      → i < n
      → Agrees queued IsValid n R r.0 r.1
      → Agrees queued IsValid n R (arrive api tick r i).0 (arrive api tick r i).1
  unfolding arrive
  arrive-Agrees {R} tick i (s, procs) h g =
      elim (Bool-cases (is_new (procs i).state && leb (procs i).spec.arrival tick)) [
        | inl due ↦ rw due (
            enqueue-Agrees R i (procs i).assigned_cpu tick EnqueueReason.new g h
              (ground (arith, due)) (λ a ne. refl) (running_zero i g (ground (arith, due))))
        | inr idle ↦ rw idle g
      ]

  complete_io-Agrees :
      {R : ℕ → ℕ} (tick i : ℕ) (s : S) (procs : Procs)
      → i < n
      → is_blocked (procs i).state ≡ true
      → Agrees queued IsValid n R s procs
      → Agrees queued IsValid n R
          (complete_io api tick (s, procs) i).0
          (complete_io api tick (s, procs) i).1
  unfolding complete_io next_burst
  complete_io-Agrees {R} tick i s procs h waiting g =
      elim (Bool-cases (leb (procs i).spec.burst_count ((procs i).burst_index + 1))) [
        | inl last ↦ rw last (
            change-Agrees R i _ g (ground (arith, waiting)) (g.levels i) (λ a ne. refl)
              (ground (arith, running_zero i g (ground (arith, waiting)))))
        | inr more ↦ rw more (
            enqueue-Agrees R i _ tick io_complete
              (change-Agrees R i _ g (ground (arith, waiting)) (g.levels i) (λ a ne. refl)
                (ground (arith, running_zero i g (ground (arith, waiting)))))
              h (ap (λ (p : ProcessRuntime). is_ready p.state) (update_self procs i _))
              (λ a ne. refl) (running_zero i g (ground (arith, waiting))))
      ]

  pub wait_io-Agrees :
      {R : ℕ → ℕ} (tick i : ℕ) (r : S × Procs)
      → i < n
      → Agrees queued IsValid n R r.0 r.1
      → Agrees queued IsValid n R (wait_io api tick r i).0 (wait_io api tick r i).1
  unfolding wait_io
  wait_io-Agrees {R} tick i (s, procs) h g = elim (Bool-cases (is_blocked (procs i).state)) [
    | inl waiting ↦ elim (Bool-cases (leb (procs i).remaining_in_burst 1)) [
      | inl over ↦ rw (waiting, over) (complete_io-Agrees tick i s procs h waiting g)
      | inr on ↦
          rw (waiting, on) (change-Agrees R i _ g refl (g.levels i) (λ a ne. refl) (g.runs_once i))
    ]
    | inr other ↦ rw other g
  ]

  pub count_waiting-Agrees :
      {R : ℕ → ℕ} (i : ℕ) {s : S} (procs : Procs)
      → Agrees queued IsValid n R s procs
      → Agrees queued IsValid n R s (count_waiting procs i)
  unfolding count_waiting
  count_waiting-Agrees {R} i procs g = elim (Bool-cases (is_ready (procs i).state)) [
    | inl waiting ↦
        rw waiting (change-Agrees R i _ g refl (g.levels i) (λ a ne. refl) (g.runs_once i))
    | inr other ↦ rw other g
  ]

  pub tick-Agrees :
      {R : ℕ → ℕ} (tick : ℕ) (s : S) (procs : Procs)
      → Agrees queued IsValid n R s procs
      → Agrees queued IsValid n R (api.tick s procs tick).0 (api.tick s procs tick).1
  tick-Agrees {R} tick s procs g =
      let r = law.tick_law s procs tick g.valid g.levels (omega (arith, queued-le queued g)) in
      let states = λ (a : ℕ). ap (λ (p : ProcessRuntime). p.state) (r.cores a) in
      record {
        valid = r.valid;
        levels = r.levels;
        queues =
            λ a. r.same a ∙ g.queues a ∙ ap (λ t. bit (ltb a n && is_ready t)) (sym (states a));
        runs_once = λ a. g.runs_once a ∙ ap (λ t. bit (ltb a n && is_running t)) (sym (states a));
      }
