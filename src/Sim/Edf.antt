-- ===== src/Sim/Edf.antt =====
-- Earliest deadline first: G20_Project2_2/src/schedulers/edf.c.
pub mod Choice
use g20_os_lab_project.Common.{ℕ, ℤ, pos, ◌-ℤ◌, ltb_ℤ, if◌then◌else◌, Option, int_max}
use g20_os_lab_project.Sim.Types.{Procs}
use g20_os_lab_project.Sim.ReadyQueue.{ReadyQueue, empty_queue, queue_push, queue_remove_at}
use g20_os_lab_project.Sim.Scan.{scan_all, to_int}

pub record EdfState : Type 0 where
  pub ready : ReadyQueue

unfoldable pub edf_init : EdfState
edf_init = record { ready = empty_queue }

pub edf_enqueue : EdfState → ℕ → EdfState
edf_enqueue e pid = record { ready = queue_push e.ready pid }

-- A process without a deadline counts as one with a very late deadline.
pub effective_deadline : Procs → ℕ → ℤ
effective_deadline procs i =
    let deadline = (procs i).spec.deadline in
    if ltb_ℤ deadline (pos 0) then pos int_max -ℤ pos (procs i).spec.pid else deadline

pub edf_pick_next : EdfState → Procs → Option ℕ × EdfState
unfolding effective_deadline
edf_pick_next e procs =
    let best_index =
      scan_all (effective_deadline procs) (λ i. (procs i).spec.arrival) e.ready.items
        e.ready.size in
    let (pid, ready) = queue_remove_at e.ready (to_int best_index) in
    (pid, record { ready = ready })
