-- ===== src/Sim/Mlfq.antt =====
-- The multilevel feedback queue: G20_Project2_2/src/schedulers/mlfq.c.
pub mod Levels
pub mod Boost
pub mod Counts
use g20_os_lab_project.Common.{
  ℕ, zero, suc, ◌+◌, ◌-◌, ltb, ◌==◌, ◌||◌, if◌then◌else◌, update, Option, none, some, true, false,
}
use g20_os_lab_project.Sim.Types.{EnqueueReason, io_complete, preempt, ProcessRuntime, Procs}
use g20_os_lab_project.Sim.ReadyQueue.{ReadyQueue, empty_queue, queue_push, queue_pop}

pub record MlfqState : Type 0 where
  pub queues : ℕ → ReadyQueue
  pub boost_interval : ℕ
  pub last_boost_tick : ℕ

unfoldable pub mlfq_init : MlfqState
mlfq_init = record { queues = λ i. empty_queue; boost_interval = 20; last_boost_tick = 0 }

-- The level that an enqueued process goes to, from the level that it had.
pub next_level : EnqueueReason → ℕ → ℕ
next_level EnqueueReason.new level = 0
next_level io_complete level = if ltb 0 level then level - 1 else level
next_level preempt level = if ltb level 2 then level + 1 else level

pub mlfq_enqueue : MlfqState → Procs → ℕ → EnqueueReason → MlfqState × Procs
unfolding next_level
mlfq_enqueue m procs pid reason =
    let level = next_level reason (procs pid).queue_level in
    (
      record m { queues = update m.queues level (queue_push (m.queues level) pid) },
      update procs pid (record (procs pid) { queue_level = level }),
    )

-- `for (; level < 3; level++)` with `n` rounds left.
pub pick_from : MlfqState → ℕ → ℕ → Option ℕ × MlfqState
pick_from m level zero = (none, m)
pick_from m level (suc n) =
    if ltb 0 (m.queues level).size
    then (let (pid, q) = queue_pop (m.queues level) in
        (pid, record m { queues = update m.queues level q }))
    else pick_from m (level + 1) n

pub mlfq_pick_next : MlfqState → Option ℕ × MlfqState
unfolding pick_from
mlfq_pick_next m = pick_from m 0 3

-- One round of the loop of `mlfq_tick` that empties a level into level 0.
pub boost_one : ℕ → MlfqState × Procs → MlfqState × Procs
boost_one level (m, procs) =
    let (pid, q) = queue_pop (m.queues level) in
    let popped = update m.queues level q in
    elim pid [
      | none ↦ (m, procs)
      | some p ↦ (
        record m { queues = update popped 0 (queue_push (popped 0) p) },
        update procs p (record (procs p) { queue_level = 0 }),
      )
    ]

-- `while (queues[level].count > 0)`, on fuel.
pub boost_level : ℕ → ℕ → MlfqState × Procs → MlfqState × Procs
unfolding boost_one
boost_level zero level s = s
boost_level (suc fuel) level s = elim (ltb 0 (s.0.queues level).size) [
  | true ↦ boost_level fuel level (boost_one level s)
  | false ↦ s
]

-- The fuel of each level is its number of entries.
pub mlfq_boost : ℕ → MlfqState → Procs → MlfqState × Procs
unfolding boost_level
mlfq_boost now m procs =
    let one = boost_level (m.queues 1).size 1 (m, procs) in
    let two = boost_level (one.0.queues 2).size 2 one in
    (record (two.0) { last_boost_tick = now }, two.1)

-- `now` never lies before the last boost, so the difference is not negative.
pub mlfq_tick : MlfqState → Procs → ℕ → MlfqState × Procs
unfolding mlfq_boost
mlfq_tick m procs now =
    if now == 0 || ltb (now - m.last_boost_tick) m.boost_interval
    then (m, procs)
    else mlfq_boost now m procs
