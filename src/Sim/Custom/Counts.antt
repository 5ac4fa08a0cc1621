-- ===== src/Sim/Custom/Counts.antt =====
-- How the operations change the numbers of waiting entries, and the processes. (custom.c)
use g20_os_lab_project.Common.{
  ℕ, ◌+◌, ◌-◌, ◌≤◌, ◌<◌, ◌≡◌, ◌≢◌, inl, inr, refl, sym, ap, ◌∙◌, ltb, ◌==◌, ◌||◌, update,
  update_self, update_ne, bit, count, count-append, length, sum_below-change, term-le-sum_below,
  join_below, count-join_below, length-join_below, List, [], ◌∷◌, arith, Bool-cases, ltb→ge, ℤ, pos,
}
use native.Mathlib.Decide.{ℕ_discrete}
use g20_os_lab_project.Sim.Types.{Procs, core}
use g20_os_lab_project.Sim.ReadyQueue.{
  ReadyQueue, contents, max_processes, queue_push, queue_remove_at,
}
use g20_os_lab_project.Sim.ReadyQueue.Contents.{
  taken, length-contents, queue_push-count, queue_remove_at-count,
}
use g20_os_lab_project.Sim.Scan.{scan_all, to_int}
use g20_os_lab_project.Sim.Custom.{
  CustomState, score, preferred_cpu, custom_enqueue, custom_pick_next, custom_tick, steal,
  most_loaded_cpu, least_loaded_cpu,
}
use g20_os_lab_project.Sim.Custom.Place.{preferred_cpu_lem, Stolen, steal-Stolen}
use g20_os_lab_project.Sim.Custom.Load.{least_loaded_cpu_lem, most_loaded_cpu_lem}

abbrev pub custom_queued : ℕ → CustomState → List ℕ
custom_queued cpu_count c = join_below cpu_count (λ j. contents (c.queues j))

size-le-custom_queued :
    (cpu_count cpu : ℕ) (c : CustomState)
    → cpu < cpu_count
    → (c.queues cpu).size ≤ length (custom_queued cpu_count c)
size-le-custom_queued cpu_count cpu c h = omega (
  arith,
  length-join_below cpu_count (λ j. contents (c.queues j)),
  term-le-sum_below cpu_count cpu (λ j. length (contents (c.queues j))) h,
  length-contents (c.queues cpu),
)

-- The entries of all CPUs once one queue has been replaced.
custom_queued-update :
    (cpu_count cpu : ℕ) (c : CustomState) (q : ReadyQueue) (a : ℕ)
    → cpu < cpu_count
    → count a (join_below cpu_count (λ j. contents (update c.queues cpu q j)))
        + count a (contents (c.queues cpu))
      ≡ count a (custom_queued cpu_count c) + count a (contents q)
custom_queued-update cpu_count cpu c q a h = omega (
  arith,
  count-join_below cpu_count (λ j. contents (update c.queues cpu q j)) a,
  count-join_below cpu_count (λ j. contents (c.queues j)) a,
  sum_below-change cpu_count cpu (λ j. count a (contents (update c.queues cpu q j)))
      (λ j. count a (contents (c.queues j))) h
      (λ j ne. ap (λ k. count a (contents k)) (update_ne c.queues cpu j q ne)),
  ap (λ k. count a (contents k)) (update_self c.queues cpu q),
)

pub custom_enqueue-count :
    (c : CustomState) (cpu_count : ℕ) (procs : Procs) (pid : ℕ) (hint : ℤ) (a : ℕ)
    → 0 < cpu_count
    → length (custom_queued cpu_count c) < max_processes
    → count a (custom_queued cpu_count (custom_enqueue c cpu_count procs pid hint).0)
      ≡ count a (custom_queued cpu_count c) + bit (pid == a)
unfolding custom_enqueue
custom_enqueue-count c cpu_count procs pid hint a h room =
    let preferred = preferred_cpu c.queues cpu_count (procs pid).spec.affinity hint in
    let (inside, _) = preferred_cpu_lem c.queues cpu_count 0 (procs pid).spec.affinity hint h in
    omega (
      arith,
      custom_queued-update cpu_count preferred c (queue_push (c.queues preferred) pid) a inside,
      queue_push-count (c.queues preferred) pid a
          (omega (arith, size-le-custom_queued cpu_count preferred c inside)),
    )

-- Assigning one process to a CPU leaves the cores and the levels of all.
assign-core :
    (procs : Procs) (pid a : ℕ) (cpu : ℤ)
    → let p = update procs pid (record (procs pid) { assigned_cpu = cpu }) a in
      (core p ≡ core (procs a)) × (p.queue_level ≡ (procs a).queue_level)
assign-core procs pid a cpu = elim (ℕ_discrete a pid) [
  | yes e ↦ rw (e, update_self procs pid (record (procs pid) { assigned_cpu = cpu })) (refl, refl)
  | no ne ↦ rw (update_ne procs pid a (record (procs pid) { assigned_cpu = cpu }) ne) (refl, refl)
]

pub custom_enqueue-core :
    (c : CustomState) (cpu_count : ℕ) (procs : Procs) (pid : ℕ) (hint : ℤ) (a : ℕ)
    → let procs' = (custom_enqueue c cpu_count procs pid hint).1 in
      (core (procs' a) ≡ core (procs a)) × ((procs' a).queue_level ≡ (procs a).queue_level)
unfolding custom_enqueue
custom_enqueue-core c cpu_count procs pid hint a =
    assign-core procs pid a (pos (preferred_cpu c.queues cpu_count (procs pid).spec.affinity hint))

pub custom_enqueue_other :
    (c : CustomState) (cpu_count : ℕ) (procs : Procs) (pid : ℕ) (hint : ℤ) (a : ℕ)
    → a ≢ pid
    → (custom_enqueue c cpu_count procs pid hint).1 a ≡ procs a
unfolding custom_enqueue
custom_enqueue_other c cpu_count procs pid hint a ne = update_ne procs pid a _ ne

pub custom_pick_next-count :
    (c : CustomState) (cpu_count : ℕ) (procs : Procs) (cpu_id now a : ℕ)
    → cpu_id < cpu_count
    → count a (custom_queued cpu_count c)
      ≡ count a (custom_queued cpu_count (custom_pick_next c procs cpu_id now).1)
        + taken a (custom_pick_next c procs cpu_id now).0
unfolding custom_pick_next
custom_pick_next-count c cpu_count procs cpu_id now a h =
    let i = to_int (
      scan_all (score procs cpu_id now) (λ j. (procs j).spec.pid) (c.queues cpu_id).items
        (c.queues cpu_id).size) in
    omega (
      arith,
      custom_queued-update cpu_count cpu_id c (queue_remove_at (c.queues cpu_id) i).1 a h,
      queue_remove_at-count (c.queues cpu_id) i a,
    )

-- What a steal does to the numbers of waiting entries: nothing.
Stolen-count :
    {c c' : CustomState} {procs procs' : Procs} {heavy light now : ℕ} (cpu_count a : ℕ)
    → Stolen c c' procs procs' heavy light now
    → heavy ≢ light
    → heavy < cpu_count
    → light < cpu_count
    → count a (custom_queued cpu_count c') ≡ count a (custom_queued cpu_count c)
Stolen-count {c} {c'} {heavy = heavy} {light = light} cpu_count a r ne h k = omega (
  arith,
  count-join_below cpu_count (λ j. contents (c.queues j)) a,
  count-join_below cpu_count (λ j. contents (c'.queues j)) a,
  sum_below-change cpu_count heavy mid old h (λ j p. update_ne old heavy j _ p),
  sum_below-change cpu_count light new mid k other,
  update_self old heavy (new heavy),
  update_ne old heavy light (new heavy) (λ e. ne (sym e)),
  ap (count a) r.lost,
  ap (count a) r.gained,
  count-append a (contents (c'.queues heavy)) (r.pid ∷ []),
  count-append a (contents (c.queues light)) (r.pid ∷ []),
)
  where
    old : ℕ → ℕ
    old j = count a (contents (c.queues j))

    new : ℕ → ℕ
    new j = count a (contents (c'.queues j))

    mid : ℕ → ℕ
    mid = update old heavy (new heavy)

    other : (j : ℕ) → j ≢ light → new j ≡ mid j
    other j p = elim (ℕ_discrete j heavy) [
      | yes e ↦ rw (e, update_self old heavy (new heavy))
      | no q ↦
          ap (λ t. count a (contents t)) (r.others j q p)
          ∙ sym (update_ne old heavy j (new heavy) q)
    ]

steal-threshold :
    (c : CustomState) (procs : Procs) (heavy light now : ℕ)
    → (steal c procs heavy light now).0.imbalance_threshold ≡ c.imbalance_threshold
unfolding steal
steal-threshold c procs heavy light now = ground arith

-- What a tick of the scheduler leaves alone.
pub record Balanced (cpu_count : ℕ) (c : CustomState) (procs : Procs) (r : CustomState × Procs)
    : Type 0 where
  pub threshold : r.0.imbalance_threshold ≡ c.imbalance_threshold
  pub counts : (a : ℕ) → count a (custom_queued cpu_count r.0) ≡ count a (custom_queued cpu_count c)
  pub cores : (a : ℕ) → core (r.1 a) ≡ core (procs a)
  pub levels : (a : ℕ) → (r.1 a).queue_level ≡ (procs a).queue_level

still : (cpu_count : ℕ) (c : CustomState) (procs : Procs) → Balanced cpu_count c procs (c, procs)
still cpu_count c procs = record {
  threshold = refl;
  counts = λ a. refl;
  cores = λ a. refl;
  levels = λ a. refl;
}

Stolen-core :
    {c c' : CustomState} {procs procs' : Procs} {heavy light now : ℕ} (a : ℕ)
    → Stolen c c' procs procs' heavy light now
    → (core (procs' a) ≡ core (procs a)) × ((procs' a).queue_level ≡ (procs a).queue_level)
Stolen-core {procs = procs} a r = elim (ℕ_discrete a r.pid) [
  | yes e ↦ rw (e, r.assigned) (refl, refl)
  | no ne ↦ rw (r.alone a ne) (refl, refl)
]

pub custom_tick-Balanced :
    (c : CustomState) (cpu_count : ℕ) (procs : Procs) (now : ℕ)
    → 0 < cpu_count
    → 0 < c.imbalance_threshold
    → length (custom_queued cpu_count c) ≤ max_processes
    → Balanced cpu_count c procs (custom_tick c cpu_count procs now)
unfolding custom_tick
custom_tick-Balanced c cpu_count procs now h positive room =
    elim (Bool-cases (now == 0 || ltb (now - c.last_steal_tick) c.steal_interval)) [
      | inl early ↦ rw early (still cpu_count c procs)
      | inr late ↦
          elim (Bool-cases
            (ltb ((c.queues heavy).size - (c.queues light).size) c.imbalance_threshold)) [
              | inl close ↦ rw (late, close) (still cpu_count c procs)
              | inr apart ↦
                  rw (late, apart)
                    (stolen (ltb→ge ((c.queues heavy).size - (c.queues light).size) _ apart))
            ]
    ]
  where
    heavy : ℕ
    heavy = most_loaded_cpu c.queues cpu_count

    light : ℕ
    light = least_loaded_cpu c.queues cpu_count

    stolen :
        c.imbalance_threshold ≤ (c.queues heavy).size - (c.queues light).size
        → Balanced cpu_count c procs (steal c procs heavy light now)
    stolen apart =
        let ne : heavy ≢ light = λ e. omega (arith, ap (λ j. (c.queues j).size) e) in
        let in_heavy = (most_loaded_cpu_lem c.queues cpu_count 0 h h).0 in
        let in_light = (least_loaded_cpu_lem c.queues cpu_count 0 h h).0 in
        let r =
          steal-Stolen c procs heavy light now ne (omega arith)
            (omega (arith, size-le-custom_queued cpu_count heavy c in_heavy)) in
        record {
          threshold = steal-threshold c procs heavy light now;
          counts = λ a. Stolen-count cpu_count a r ne in_heavy in_light;
          cores = λ a. (Stolen-core a r).0;
          levels = λ a. (Stolen-core a r).1;
        }

pub custom_enqueue-threshold :
    (c : CustomState) (cpu_count : ℕ) (procs : Procs) (pid : ℕ) (hint : ℤ)
    → 0 < c.imbalance_threshold
    → 0 < (custom_enqueue c cpu_count procs pid hint).0.imbalance_threshold
unfolding custom_enqueue
custom_enqueue-threshold c cpu_count procs pid hint h = h

pub custom_pick_next-threshold :
    (c : CustomState) (procs : Procs) (cpu_id now : ℕ)
    → 0 < c.imbalance_threshold
    → 0 < (custom_pick_next c procs cpu_id now).1.imbalance_threshold
unfolding custom_pick_next
custom_pick_next-threshold c procs cpu_id now h = h
