-- ===== src/Sim/Mlfq/Levels.antt =====
-- The multilevel feedback queue as one list, highest level first. (mlfq.c)
use g20_os_lab_project.Common.{
  ℕ, zero, suc, ◌+◌, ◌≤◌, ◌<◌, ◌≡◌, ◌≢◌, ◌⊎◌, inl, inr, refl, ap, ◌∙◌, ltb, update, Option, none,
  some, List, [], ◌∷◌, ◌++◌, length, length-append, arith, Bool-cases, false, ltb→lt, ltb→ge,
  update_ne, update_self,
}
use g20_os_lab_project.Sim.Types.{EnqueueReason, io_complete, preempt, Procs}
use g20_os_lab_project.Sim.ReadyQueue.{queue_push, queue_pop, contents, max_processes}
use g20_os_lab_project.Sim.ReadyQueue.Contents.{
  contents-nil, length-contents, queue_push-contents, queue_pop-front,
}
use g20_os_lab_project.Sim.Mlfq.{MlfqState, next_level, mlfq_enqueue, pick_from, mlfq_pick_next}

-- All waiting pids, highest level first, each level from its front.
abbrev pub mlfq_queued : MlfqState → List ℕ
mlfq_queued m = contents (m.queues 0) ++ (contents (m.queues 1) ++ contents (m.queues 2))

pub length-mlfq_queued :
    (m : MlfqState)
    → length (mlfq_queued m) ≡ (m.queues 0).size + (m.queues 1).size + (m.queues 2).size
length-mlfq_queued m = omega (
  arith,
  length-append (contents (m.queues 0)) (contents (m.queues 1) ++ contents (m.queues 2)),
  length-append (contents (m.queues 1)) (contents (m.queues 2)),
  length-contents (m.queues 0),
  length-contents (m.queues 1),
  length-contents (m.queues 2),
)

size-le-queued :
    (m : MlfqState) (level : ℕ) → level ≤ 2 → (m.queues level).size ≤ length (mlfq_queued m)
size-le-queued m zero h = omega (arith, length-mlfq_queued m)
size-le-queued m (suc zero) h = omega (arith, length-mlfq_queued m)
size-le-queued m (suc (suc zero)) h = omega (arith, length-mlfq_queued m)
size-le-queued m (suc (suc (suc n))) h = absurd (omega arith)

pub next_level-le : (reason : EnqueueReason) (level : ℕ) → level ≤ 2 → next_level reason level ≤ 2
unfolding next_level
next_level-le EnqueueReason.new level h = omega arith
next_level-le io_complete level h = ground arith
next_level-le preempt level h = ground arith

-- With fewer than 128 processes waiting, enqueuing a process of level 0 to 2 puts the pid at the
-- end of the level that the reason gives, records that level, and leaves the other levels and the
-- other processes alone.
pub mlfq_enqueue_lem :
    (m : MlfqState) (procs : Procs) (pid : ℕ) (reason : EnqueueReason)
    → length (mlfq_queued m) < max_processes
    → (procs pid).queue_level ≤ 2
    → let (m', procs') = mlfq_enqueue m procs pid reason in
      let level = next_level reason (procs pid).queue_level in
      (contents (m'.queues level) ≡ contents (m.queues level) ++ pid ∷ [])
      × ((j : ℕ) → j ≢ level → m'.queues j ≡ m.queues j)
      × (procs' pid ≡ record (procs pid) { queue_level = level })
      × ((a : ℕ) → a ≢ pid → procs' a ≡ procs a)
unfolding mlfq_enqueue
mlfq_enqueue_lem m procs pid reason room low = (
  ap contents (update_self m.queues level (queue_push (m.queues level) pid))
      ∙ queue_push-contents (m.queues level) pid (
          omega (arith, size-le-queued m level (next_level-le reason (procs pid).queue_level low))),
  λ j h. update_ne m.queues _ j _ h,
  update_self procs pid _,
  λ a h. update_ne procs pid a _ h,
)
  where
    level : ℕ
    level = next_level reason (procs pid).queue_level

-- Picking from a level with entries takes its front, and the list of all waiting pids loses its
-- front with it.
Popped : MlfqState → Option ℕ × MlfqState → Type 0
Popped m r = (pid : ℕ) × (r.0 ≡ some pid) × (mlfq_queued m ≡ pid ∷ mlfq_queued r.1)

pop_zero :
    (m : MlfqState)
    → 0 < (m.queues 0).size
    → Popped m
        (let (pid, q) = queue_pop (m.queues 0) in (pid, record m { queues = update m.queues 0 q }))
unfolding Popped
pop_zero m h =
    let (res, con, _) = queue_pop-front (m.queues 0) h in
    ((m.queues 0).items 0, res, ap (λ l. l ++ (contents (m.queues 1) ++ contents (m.queues 2))) con)

pop_one :
    (m : MlfqState)
    → (m.queues 0).size ≡ 0
    → 0 < (m.queues 1).size
    → Popped m
        (let (pid, q) = queue_pop (m.queues 1) in (pid, record m { queues = update m.queues 1 q }))
unfolding Popped
pop_one m e h =
    let (res, con, _) = queue_pop-front (m.queues 1) h in
    (
      (m.queues 1).items 0,
      res,
      rw (contents-nil (m.queues 0) e) (ap (λ l. l ++ contents (m.queues 2)) con),
    )

pop_two :
    (m : MlfqState)
    → (m.queues 0).size ≡ 0
    → (m.queues 1).size ≡ 0
    → 0 < (m.queues 2).size
    → Popped m
        (let (pid, q) = queue_pop (m.queues 2) in (pid, record m { queues = update m.queues 2 q }))
unfolding Popped
pop_two m e f h =
    let (res, con, _) = queue_pop-front (m.queues 2) h in
    ((m.queues 2).items 0, res, rw (contents-nil (m.queues 0) e, contents-nil (m.queues 1) f) con)

-- A pick takes the front of the highest level that has entries, so it takes the front of the list
-- of all waiting pids and leaves the rest of that list; with nobody waiting it changes nothing.
pub mlfq_pick_next_lem :
    (m : MlfqState)
    → ((mlfq_queued m ≡ []) × (mlfq_pick_next m ≡ (none, m)))
      ⊎ ((pid : ℕ) × ((mlfq_pick_next m).0 ≡ some pid)
          × (mlfq_queued m ≡ pid ∷ mlfq_queued (mlfq_pick_next m).1))
unfolding mlfq_pick_next Popped
mlfq_pick_next_lem m = elim (Bool-cases (ltb 0 (m.queues 0).size)) [
  | inl a ↦ rw (a, pick_from) (inr (pop_zero m (ltb→lt 0 _ a)))
  | inr a ↦ elim (Bool-cases (ltb 0 (m.queues 1).size)) [
    | inl b ↦ rw (a, b, pick_from) (inr (pop_one m (zero a) (ltb→lt 0 _ b)))
    | inr b ↦ elim (Bool-cases (ltb 0 (m.queues 2).size)) [
      | inl c ↦ rw (a, b, c, pick_from) (inr (pop_two m (zero a) (zero b) (ltb→lt 0 _ c)))
      | inr c ↦ rw (a, b, c, pick_from) (inl (none_left (zero a) (zero b) (zero c), refl))
    ]
  ]
]
  where
    zero : {n : ℕ} → ltb 0 n ≡ false → n ≡ 0
    zero {n} h = omega (arith, ltb→ge 0 n h)

    none_left :
        (m.queues 0).size ≡ 0 → (m.queues 1).size ≡ 0 → (m.queues 2).size ≡ 0 → mlfq_queued m ≡ []
    none_left a b c =
        rw (contents-nil (m.queues 0) a, contents-nil (m.queues 1) b, contents-nil (m.queues 2) c)
