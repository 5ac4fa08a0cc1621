-- ===== src/Sim/Lottery.antt =====
-- Lottery scheduling: G20_Project2_2/src/schedulers/lottery.c. The sums of tickets are `int`s in the
-- program; the theorems are about queues whose tickets sum to less than 2^31, where no sum wraps.
pub mod Draw
use g20_os_lab_project.Common.{
  ℕ, zero, suc, ◌+◌, ◌-◌, ◌*◌, ◌%◌, ◌^◌, ltb, ◌==◌, if◌then◌else◌, Option, none, some, pos, sub_ℕ,
}
use g20_os_lab_project.Sim.Types.{Procs}
use g20_os_lab_project.Sim.ReadyQueue.{ReadyQueue, empty_queue, queue_push, queue_remove_at}

pub record LotteryState : Type 0 where
  pub ready : ReadyQueue
  pub rng_state : ℕ

pub next_random : ℕ → ℕ
next_random state = (state * 1103515245 + 12345) % 2 ^ 32

unfoldable pub lottery_init : ℕ → LotteryState
lottery_init seed = record { ready = empty_queue; rng_state = if seed == 0 then 42 else seed }

pub lottery_enqueue : LotteryState → ℕ → LotteryState
lottery_enqueue l pid = record l { ready = queue_push l.ready pid }

-- The tickets of the entries `items[i .. i+n)`.
pub total_tickets : Procs → (ℕ → ℕ) → ℕ → ℕ → ℕ
total_tickets procs items i zero = 0
total_tickets procs items i (suc n) =
    (procs (items i)).spec.tickets + total_tickets procs items (i + 1) n

-- The loop that adds up tickets until the sum passes the target: the index where it stops.
pub find_winner : Procs → (ℕ → ℕ) → ℕ → ℕ → ℕ → ℕ → Option ℕ
find_winner procs items target i zero running = none
find_winner procs items target i (suc n) running =
    let running' = running + (procs (items i)).spec.tickets in
    let rest = find_winner procs items target (i + 1) n running' in
    if ltb target running' then some i else rest

-- The loop's index, or `count - 1` where it found none.
pub winner_or_last : Option ℕ → ℕ → ℕ
winner_or_last none size = size - 1
winner_or_last (some i) size = i

pub draw : LotteryState → Procs → ℕ → Option ℕ × LotteryState
unfolding find_winner winner_or_last next_random
draw l procs total =
    let rng = next_random l.rng_state in
    let winner = find_winner procs l.ready.items (rng % total) 0 l.ready.size 0 in
    let (pid, ready) = queue_remove_at l.ready (pos (winner_or_last winner l.ready.size)) in
    (pid, record { ready = ready; rng_state = rng })

-- The total is positive only if the queue has entries, so `count - 1` is never negative in `draw`.
pub lottery_pick_next : LotteryState → Procs → Option ℕ × LotteryState
unfolding draw total_tickets
lottery_pick_next l procs =
    let total = total_tickets procs l.ready.items 0 l.ready.size in
    if total == 0 then (none, l) else draw l procs total
