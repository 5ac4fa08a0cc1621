-- ===== src/Sim/Custom.antt =====
-- The affinity-aware scheduler with a queue for each CPU: G20_Project2_2/src/schedulers/custom.c.
pub mod Load
pub mod Place
pub mod Counts
use g20_os_lab_project.Common.{
  ℕ, zero, suc, ◌+◌, ◌-◌, Bool, true, false, not, ltb, ◌==◌, ◌||◌, ◌&&◌, if◌then◌else◌, update, ℤ,
  pos, negsuc, pos_part, ltb_ℤ, eqb_ℤ, ◌-ℤ◌, ◌+ℤ◌, Option, none, some,
}
use g20_os_lab_project.Sim.Types.{ProcessRuntime, Procs}
use g20_os_lab_project.Sim.ReadyQueue.{ReadyQueue, empty_queue, queue_push, queue_remove_at}
use g20_os_lab_project.Sim.Scan.{scan_all, to_int}

pub record CustomState : Type 0 where
  pub queues : ℕ → ReadyQueue
  pub steal_interval : ℕ
  pub last_steal_tick : ℕ
  pub imbalance_threshold : ℕ

unfoldable pub custom_init : CustomState
custom_init = record {
  queues = λ cpu. empty_queue;
  steal_interval = 5;
  last_steal_tick = 0;
  imbalance_threshold = 2;
}

-- `for (cpu = 1; cpu < cpu_count; cpu++)` with `n` rounds left: the CPU whose queue size is better
-- than that of every CPU before it. least_loaded_cpu and most_loaded_cpu differ in the comparison.
unfoldable pub loaded_from : (ℕ → ℕ → Bool) → (ℕ → ReadyQueue) → ℕ → ℕ → ℕ → ℕ → ℕ
loaded_from better queues zero cpu best_cpu best_count = best_cpu
loaded_from better queues (suc n) cpu best_cpu best_count =
    let size = (queues cpu).size in
    let found = better size best_count in
    loaded_from better queues n (cpu + 1) (if found then cpu else best_cpu)
      (if found then size else best_count)

unfoldable pub least_loaded_cpu : (ℕ → ReadyQueue) → ℕ → ℕ
unfolding loaded_from
least_loaded_cpu queues cpu_count =
    loaded_from (λ a b. ltb a b) queues (cpu_count - 1) 1 0 (queues 0).size

unfoldable pub most_loaded_cpu : (ℕ → ReadyQueue) → ℕ → ℕ
unfolding loaded_from
most_loaded_cpu queues cpu_count =
    loaded_from (λ a b. ltb b a) queues (cpu_count - 1) 1 0 (queues 0).size

-- `x >= 0 && x < cpu_count`
abbrev pub is_cpu : ℤ → ℕ → Bool
is_cpu (pos c) cpu_count = ltb c cpu_count
is_cpu (negsuc n) cpu_count = false

-- The CPU that custom_enqueue settles on, from the affinity and the hint.
pub preferred_cpu : (ℕ → ReadyQueue) → ℕ → ℤ → ℤ → ℕ
preferred_cpu queues cpu_count affinity cpu_hint =
    let least = least_loaded_cpu queues cpu_count in
    let minimum_load = (queues least).size in
    let wanted =
      if is_cpu affinity cpu_count
      then pos_part affinity
      else if is_cpu cpu_hint cpu_count
      then pos_part cpu_hint
      else least in
    if ltb (minimum_load + 1) (queues wanted).size then least else wanted

pub custom_enqueue : CustomState → ℕ → Procs → ℕ → ℤ → CustomState × Procs
custom_enqueue c cpu_count procs pid cpu_hint =
    let preferred = preferred_cpu c.queues cpu_count (procs pid).spec.affinity cpu_hint in
    (
      record c { queues = update c.queues preferred (queue_push (c.queues preferred) pid) },
      update procs pid (record (procs pid) { assigned_cpu = pos preferred }),
    )

-- Remaining burst, less the time waited, less 2 on the CPU of the process's affinity.
pub score : Procs → ℕ → ℕ → ℕ → ℤ
score procs cpu_id now i =
    let age = pos now -ℤ pos (procs i).ready_since in
    let affinity_bonus = if eqb_ℤ (procs i).spec.affinity (pos cpu_id) then negsuc 1 else pos 0 in
    pos (procs i).remaining_in_burst -ℤ age +ℤ affinity_bonus

-- With no entry the source returns -1 before queue_remove_at, which returns -1 at index -1 too.
pub custom_pick_next : CustomState → Procs → ℕ → ℕ → Option ℕ × CustomState
custom_pick_next c procs cpu_id now =
    let queue = c.queues cpu_id in
    let best_index =
      scan_all (score procs cpu_id now) (λ i. (procs i).spec.pid) queue.items queue.size in
    let (pid, queue') = queue_remove_at queue (to_int best_index) in
    (pid, record c { queues = update c.queues cpu_id queue' })

-- Moves the last entry of the heavy queue to the end of the light one.
pub steal : CustomState → Procs → ℕ → ℕ → ℕ → CustomState × Procs
steal c procs heavy light now =
    let (pid, queue) = queue_remove_at (c.queues heavy) (pos ((c.queues heavy).size - 1)) in
    let removed = update c.queues heavy queue in
    elim pid [
      | none ↦ (record c { queues = removed; last_steal_tick = now }, procs)
      | some p ↦ (
        record c {
          queues = update removed light (queue_push (removed light) p);
          last_steal_tick = now;
        },
        update procs p (record (procs p) { assigned_cpu = pos light }),
      )
    ]

-- The heavy queue is at least as long as the light one, and `now` does not lie before the last
-- steal, so neither difference is negative. `steal` runs only on a heavy queue with entries.
pub custom_tick : CustomState → ℕ → Procs → ℕ → CustomState × Procs
unfolding steal
custom_tick c cpu_count procs now =
    let heavy = most_loaded_cpu c.queues cpu_count in
    let light = least_loaded_cpu c.queues cpu_count in
    if now == 0 || ltb (now - c.last_steal_tick) c.steal_interval
    then (c, procs)
    else if ltb ((c.queues heavy).size - (c.queues light).size) c.imbalance_threshold
    then (c, procs)
    else steal c procs heavy light now
