-- ===== src/Kernel/Priority/Range.antt =====
-- What setpriority and getpriority of kernel/proc.c promise.
use g20_os_lab_project.Common.{
  ℕ, ◌≤◌, ◌≡◌, inl, inr, refl, true, false, leb, ℤ, pos, negsuc, minus_one, arith, update_self,
  update_ne, ap, Bool-cases,
}
use native.Mathlib.Decide.{ℕ_discrete}
use g20_os_lab_project.Kernel.Types.{Kernel, Proc, nproc}
use g20_os_lab_project.Kernel.Table.{Found, find_proc_lem, find_proc-set_proc, find_proc-Found}
use g20_os_lab_project.Kernel.Signal.{is_live_pid}
use g20_os_lab_project.Kernel.Priority.{
  max_priority, priority_valid, set_at, setpriority, get_at, getpriority,
}

-- A priority outside of 0 to 100 is refused and changes nothing.
pub setpriority_refused :
    (k : Kernel) (pid priority : ℤ)
    → priority_valid priority ≡ false
    → setpriority k pid priority ≡ (minus_one, k)
unfolding setpriority
setpriority_refused k pid priority h = rw h refl

-- For a number that a process in use has and a priority from 0 to 100, setpriority returns 0 and
-- getpriority then gives that priority.
pub getpriority-setpriority :
    (k : Kernel) (pid : ℤ) (v i : ℕ)
    → v ≤ max_priority
    → Found (is_live_pid pid) k.procs 0 nproc i
    → ((setpriority k pid (pos v)).0 ≡ pos 0)
      × (getpriority (setpriority k pid (pos v)).1 pid ≡ pos v)
unfolding setpriority getpriority priority_valid set_at get_at
getpriority-setpriority k pid v i h f =
    rw (valid, find_proc-Found (is_live_pid pid) k i f)
      (
        refl,
        rw (find_proc-set_proc (is_live_pid pid) k i changed f f.passes)
            (ap (λ p. pos (Proc.priority p)) (update_self k.procs i changed)),
      )
  where
    valid : leb v 100 ≡ true
    valid = ground arith

    changed : Proc
    changed = record (k.procs i) { priority = v }

-- All priorities of the table are at most 100.
abbrev pub HasValidPriorities : Kernel → Type 0
HasValidPriorities k = (j : ℕ) → (k.procs j).priority ≤ max_priority

-- setpriority keeps all priorities within 0 to 100, whatever it is called with.
pub setpriority-HasValidPriorities :
    (k : Kernel) (pid priority : ℤ)
    → HasValidPriorities k
    → HasValidPriorities (setpriority k pid priority).1
unfolding setpriority priority_valid set_at
setpriority-HasValidPriorities k pid (negsuc n) h j = h j
setpriority-HasValidPriorities k pid (pos v) h j = elim (Bool-cases (leb v 100)) [
  | inr bad ↦ rw bad (h j)
  | inl good ↦ rw good (elim (find_proc_lem (is_live_pid pid) k) [
    | inl (e, all) ↦ rw e (h j)
    | inr (i, e, f) ↦ rw e (elim (ℕ_discrete j i) [
      | yes same ↦
          rw (same, update_self k.procs i (record (k.procs i) { priority = v })) (ground arith)
      | no ne ↦ rw (update_ne k.procs i j (record (k.procs i) { priority = v }) ne) (h j)
    ])
  ])
]

pub priority_valid-le : (v : ℕ) → v ≤ max_priority → priority_valid (pos v) ≡ true
unfolding priority_valid
priority_valid-le v h = ground arith
