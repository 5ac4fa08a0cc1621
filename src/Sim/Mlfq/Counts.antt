-- ===== src/Sim/Mlfq/Counts.antt =====
-- How the operations change the numbers of waiting entries, and the processes. (mlfq.c)
use g20_os_lab_project.Common.{
  ℕ, ◌+◌, ◌-◌, ◌≤◌, ◌<◌, ◌≡◌, inl, inr, refl, ap, Bool, true, false, ltb, ◌==◌, ◌||◌, if◌then◌else◌,
  bit, count, count-append, length, sum_below, sum_below-change, [], ◌∷◌, ◌++◌, arith, Bool-cases,
}
use g20_os_lab_project.Sim.Types.{EnqueueReason, Procs, core}
use g20_os_lab_project.Sim.ReadyQueue.{contents, max_processes}
use g20_os_lab_project.Sim.ReadyQueue.Contents.{taken}
use g20_os_lab_project.Sim.Mlfq.{MlfqState, next_level, mlfq_enqueue, mlfq_pick_next, mlfq_tick}
use g20_os_lab_project.Sim.Mlfq.Levels.{
  mlfq_queued, mlfq_enqueue_lem, next_level-le, mlfq_pick_next_lem,
}
use g20_os_lab_project.Sim.Mlfq.Boost.{at_top, mlfq_boost_lem}

pub count-mlfq_queued :
    (m : MlfqState) (a : ℕ)
    → count a (mlfq_queued m) ≡ sum_below 3 (λ j. count a (contents (m.queues j)))
count-mlfq_queued m a = omega (
  arith,
  count-append a (contents (m.queues 0)) (contents (m.queues 1) ++ contents (m.queues 2)),
  count-append a (contents (m.queues 1)) (contents (m.queues 2)),
)

pub mlfq_enqueue-count :
    (m : MlfqState) (procs : Procs) (pid : ℕ) (reason : EnqueueReason) (a : ℕ)
    → length (mlfq_queued m) < max_processes
    → (procs pid).queue_level ≤ 2
    → count a (mlfq_queued (mlfq_enqueue m procs pid reason).0)
      ≡ count a (mlfq_queued m) + bit (pid == a)
mlfq_enqueue-count m procs pid reason a room low =
    let m' = (mlfq_enqueue m procs pid reason).0 in
    let level = next_level reason (procs pid).queue_level in
    let (here, others, _, _) = mlfq_enqueue_lem m procs pid reason room low in
    omega (
      arith,
      count-mlfq_queued m a,
      count-mlfq_queued m' a,
      sum_below-change 3 level (λ j. count a (contents (m'.queues j)))
          (λ j. count a (contents (m.queues j)))
          (omega (arith, next_level-le reason (procs pid).queue_level low))
          (λ j ne. ap (λ q. count a (contents q)) (others j ne)),
      ap (count a) here,
      count-append a (contents (m.queues level)) (pid ∷ []),
    )

pub mlfq_pick_next-count :
    (m : MlfqState) (a : ℕ)
    → count a (mlfq_queued m)
      ≡ count a (mlfq_queued (mlfq_pick_next m).1) + taken a (mlfq_pick_next m).0
mlfq_pick_next-count m a = elim (mlfq_pick_next_lem m) [
  | inl (nil, same) ↦ rw same (omega arith)
  | inr (pid, found, popped) ↦ omega (arith, ap (count a) popped, ap (taken a) found)
]

-- mlfq_tick keeps the list of all waiting pids, changes no process but in its level, and raises no
-- level.
pub mlfq_tick-queued :
    (m : MlfqState) (procs : Procs) (now : ℕ)
    → length (mlfq_queued m) ≤ max_processes
    → mlfq_queued (mlfq_tick m procs now).0 ≡ mlfq_queued m
unfolding mlfq_tick
mlfq_tick-queued m procs now room =
    elim (Bool-cases (now == 0 || ltb (now - m.last_boost_tick) m.boost_interval)) [
      | inl early ↦ rw early
      | inr due ↦ rw due (mlfq_boost_lem now m procs room).1
    ]

pub mlfq_tick-procs :
    (m : MlfqState) (procs : Procs) (now a : ℕ)
    → length (mlfq_queued m) ≤ max_processes
    → let procs' = (mlfq_tick m procs now).1 in
      (core (procs' a) ≡ core (procs a)) × ((procs' a).queue_level ≤ (procs a).queue_level)
unfolding mlfq_tick
mlfq_tick-procs m procs now a room =
    elim (Bool-cases (now == 0 || ltb (now - m.last_boost_tick) m.boost_interval)) [
      | inl early ↦ rw early (refl, omega arith)
      | inr due ↦ rw due (rw ((mlfq_boost_lem now m procs room).3 a) (boosted (ltb 0 _)))
    ]
  where
    boosted :
        (b : Bool)
        → let p = if b then at_top (procs a) else procs a in
          (core p ≡ core (procs a)) × (p.queue_level ≤ (procs a).queue_level)
    boosted true = (refl, omega arith)
    boosted false = (refl, omega arith)
