-- ===== src/Sim/Edf/Choice.antt =====
-- What edf_pick_next takes from the ready queue. (edf.c)
use g20_os_lab_project.Common.{bit, ◌==◌, count, ◌+◌, ℕ, ◌<◌, ◌≡◌, refl, some, All, arith, length}
use g20_os_lab_project.Sim.Types.{Procs}
use g20_os_lab_project.Sim.ReadyQueue.{max_processes, contents}
use g20_os_lab_project.Sim.ReadyQueue.Contents.{
  queue_push-count, length-contents, taken, queue_remove_at-count, Removed, queue_remove_at-Removed,
}
use g20_os_lab_project.Sim.Scan.{scan_all, to_int}
use g20_os_lab_project.Sim.Scan.Best.{NotAfter, scan_all-found}
use g20_os_lab_project.Sim.Edf.{edf_enqueue, EdfState, effective_deadline, edf_pick_next}

-- With processes waiting, the pick is one of them with the earliest effective deadline, and among
-- those with the same deadline one that arrived earliest; exactly its entry leaves the queue.
pub edf_pick_next_lem :
    (e : EdfState) (procs : Procs)
    → 0 < e.ready.size
    → (i pid : ℕ) × ((edf_pick_next e procs).0 ≡ some pid)
      × Removed e.ready (edf_pick_next e procs).1.ready i pid
      × All
          (NotAfter (effective_deadline procs) (λ j. (procs j).spec.arrival) pid)
          (contents e.ready)
unfolding edf_pick_next
edf_pick_next_lem e procs h =
    let (b, found, inside, best) =
      scan_all-found (effective_deadline procs) (λ j. (procs j).spec.arrival) e.ready.items
        e.ready.size h in
    let (q, removed, r, pre) = queue_remove_at-Removed e.ready b inside in
    rw (found, removed) (b, e.ready.items b, refl, r, best)

-- A pick takes out what it returns, and nothing else.
pub edf_pick_next-count :
    (e : EdfState) (procs : Procs) (a : ℕ)
    → count a (contents e.ready)
      ≡ count a (contents (edf_pick_next e procs).1.ready) + taken a (edf_pick_next e procs).0
unfolding edf_pick_next
edf_pick_next-count e procs a =
    queue_remove_at-count e.ready
      (to_int (
        scan_all (effective_deadline procs) (λ i. (procs i).spec.arrival) e.ready.items
          e.ready.size))
      a

pub edf_enqueue-count :
    (e : EdfState) (pid a : ℕ)
    → length (contents e.ready) < max_processes
    → count a (contents (edf_enqueue e pid).ready) ≡ count a (contents e.ready) + bit (pid == a)
unfolding edf_enqueue
edf_enqueue-count e pid a h =
    queue_push-count e.ready pid a (omega (arith, length-contents e.ready))
