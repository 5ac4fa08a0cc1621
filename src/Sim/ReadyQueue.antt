-- ===== src/Sim/ReadyQueue.antt =====
-- The ready queues of G20_Project2_2: `ReadyQueue` of include/scheduler.h, and the queue functions
-- that mlfq.c, lottery.c, edf.c and custom.c each define. A pid is an index into the process table;
-- the result -1 is `none`.
use g20_os_lab_project.Common.{
  ℕ, zero, suc, ◌+◌, ◌-◌, ltb, leb, ◌==◌, if◌then◌else◌, update, ℤ, pos, negsuc, Option, none, some,
  List, [], ◌∷◌,
}
pub mod Contents

abbrev pub max_processes : ℕ
max_processes = 128

-- `items` is read below `count` only.
pub record ReadyQueue : Type 0 where
  pub items : ℕ → ℕ
  pub size : ℕ

abbrev pub empty_queue : ReadyQueue
empty_queue = record { items = λ i. 0; size = 0 }

pub queue_push : ReadyQueue → ℕ → ReadyQueue
queue_push q pid =
    if ltb q.size max_processes
    then record { items = update q.items q.size pid; size = q.size + 1 }
    else q

-- `for (; i < count; i++) items[i - 1] = items[i];` with `n` rounds left.
pub shift_down : (ℕ → ℕ) → ℕ → ℕ → ℕ → ℕ
shift_down items i zero = items
shift_down items i (suc n) = shift_down (update items (i - 1) (items i)) (i + 1) n

pub queue_remove_at : ReadyQueue → ℤ → Option ℕ × ReadyQueue
queue_remove_at q (negsuc n) = (none, q)
queue_remove_at q (pos i) = if leb q.size i then (none, q) else (
  some (q.items i),
  record { items = shift_down q.items (i + 1) (q.size - (i + 1)); size = q.size - 1 },
)

pub queue_pop : ReadyQueue → Option ℕ × ReadyQueue
queue_pop q =
    if q.size == 0
    then (none, q)
    else (some (q.items 0), record { items = shift_down q.items 1 (q.size - 1); size = q.size - 1 })

-- The entries `items[i .. i+n)`.
abbrev pub slice : (ℕ → ℕ) → ℕ → ℕ → List ℕ
slice f i zero = []
slice f i (suc n) = f i ∷ slice f (i + 1) n

-- The queue as a list, front first.
abbrev pub contents : ReadyQueue → List ℕ
contents q = slice q.items 0 q.size
