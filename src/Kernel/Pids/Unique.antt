-- ===== src/Kernel/Pids/Unique.antt =====
-- No two processes have the same number, after any calls of kernel/proc.c.
use g20_os_lab_project.Common.{ℕ, ◌≢◌, ◌<◌, ap, ◌∙◌, sym, arith, inl, inr}
use native.Mathlib.Decide.{ℕ_discrete}
use g20_os_lab_project.Kernel.Types.{Kernel}
use g20_os_lab_project.Kernel.Pids.{
  IsInUse, HasUniquePids, Step, fork, forkprio, clone, join, exit, exit_file, exit_end, wait,
  waitx_call, kill, priority, sem_init, sem_wait, sem_post, send_signal, send, receive, give_up,
  schedule, awake, clock, Reach, here, next,
}
use g20_os_lab_project.Kernel.Sched.{update_time}
use g20_os_lab_project.Kernel.Pids.Keeping.{
  KeepsPids, KeepsPids-trans, wakeup-KeepsPids, update_time-KeepsPids, schedule_entry-KeepsPids,
}
use g20_os_lab_project.Kernel.Pids.Calls.{
  AddsPid, KeepsOrAdds, kfork-pids, kforkprio-pids, kclone-pids, kjoin-KeepsPids, kwait-KeepsPids,
  waitx-KeepsPids, kexit-KeepsPids, close_fd-KeepsPids, kexit_resume-KeepsPids,
}
use g20_os_lab_project.Kernel.Pids.Messages.{
  kkill-KeepsPids, setpriority-KeepsPids, ksem_init-KeepsPids, ksem_wait-KeepsPids,
  ksem_post-KeepsPids, sigsend-KeepsPids, msgsend-KeepsPids, msgrecv-KeepsPids, yield-KeepsPids,
  tidy_up-KeepsPids,
}

KeepsPids-HasUniquePids : {k k' : Kernel} → KeepsPids k k' → HasUniquePids k → HasUniquePids k'
KeepsPids-HasUniquePids keeps u = record {
  known =
      λ i h. let (busy, same) = keeps.entry i h in omega (arith, same, u.known i busy, keeps.next);
  distinct = λ i j ne h l e.
      let (busy_i, same_i) = keeps.entry i h in
      let (busy_j, same_j) = keeps.entry j l in
      u.distinct i j ne busy_i busy_j (sym same_i ∙ e ∙ same_j);
}

-- The new number is larger than all others.
AddsPid-HasUniquePids :
    {k k' : Kernel} (n : ℕ) → AddsPid k k' n → HasUniquePids k → HasUniquePids k'
AddsPid-HasUniquePids {k} {k'} n adds u = record {
  known = λ i h. elim (ℕ_discrete i n) [
    | yes e ↦ let new = adds.fresh (rw e at h) in rw e (omega (arith, new, adds.grows))
    | no ne ↦ let low = below i ne h in omega (arith, low, adds.grows)
  ];
  distinct = λ i j ne h l e. elim (ℕ_discrete i n) [
    | yes at_i ↦
        let new = adds.fresh (rw at_i at h) in
        let low = below j (λ c. ne (at_i ∙ sym c)) l in
        let same = ap (λ (m : ℕ). (k'.procs m).pid) at_i in omega (arith, new, low, e, same)
    | no not_i ↦ elim (ℕ_discrete j n) [
      | yes at_j ↦
          let new = adds.fresh (rw at_j at l) in
          let low = below i not_i h in
          let same = ap (λ (m : ℕ). (k'.procs m).pid) at_j in omega (arith, new, low, e, same)
      | no not_j ↦
          let (busy_i, same_i) = adds.others i not_i h in
          let (busy_j, same_j) = adds.others j not_j l in
          u.distinct i j ne busy_i busy_j (sym same_i ∙ e ∙ same_j)
    ]
  ];
}
  where
    below : (i : ℕ) → i ≢ n → IsInUse k' i → (k'.procs i).pid < k.next_pid
    below i ne h = let (busy, same) = adds.others i ne h in omega (arith, same, u.known i busy)

KeepsOrAdds-HasUniquePids : {k k' : Kernel} → KeepsOrAdds k k' → HasUniquePids k → HasUniquePids k'
KeepsOrAdds-HasUniquePids (inl keeps) u = KeepsPids-HasUniquePids keeps u
KeepsOrAdds-HasUniquePids (inr (n, adds)) u = AddsPid-HasUniquePids n adds u

Step-pids : {k k' : Kernel} → Step k k' → KeepsOrAdds k k'
Step-pids {k} (fork me memory) = kfork-pids k me memory
Step-pids {k} (forkprio me p memory) = kforkprio-pids k me p memory
Step-pids {k} (clone me fn stack arg memory) = kclone-pids k me fn stack arg memory
Step-pids {k} (join me tid busy) = inl (kjoin-KeepsPids k me tid busy)
Step-pids {k} (exit me k' e) = inl (kexit-KeepsPids k me k' e)
Step-pids {k} (exit_file me fd) = inl (close_fd-KeepsPids k me fd)
Step-pids {k} (exit_end me status busy) = inl (kexit_resume-KeepsPids k me status busy)
Step-pids {k} (wait me addr ok busy) = inl (kwait-KeepsPids k me addr ok busy)
Step-pids {k} (waitx_call me ok busy) = inl (waitx-KeepsPids k me ok busy)
Step-pids {k} (kill pid) = inl (kkill-KeepsPids k pid)
Step-pids {k} (priority pid p) = inl (setpriority-KeepsPids k pid p)
Step-pids {k} (sem_init me semid value) = inl (ksem_init-KeepsPids k me semid value)
Step-pids {k} (sem_wait me semid busy) = inl (ksem_wait-KeepsPids k me semid busy)
Step-pids {k} (sem_post me semid) = inl (ksem_post-KeepsPids k me semid)
Step-pids {k} (send_signal pid signum) = inl (sigsend-KeepsPids k pid signum)
Step-pids {k} (send me pid copied) = inl (msgsend-KeepsPids k me pid copied)
Step-pids {k} (receive me ok busy) = inl (msgrecv-KeepsPids k me ok busy)
Step-pids {k} (give_up me busy) = inl (yield-KeepsPids k me busy)
Step-pids {k} (schedule i) = inl (schedule_entry-KeepsPids k i)
Step-pids {k} (awake me) = inl (tidy_up-KeepsPids k me)
Step-pids {k} (clock me chan) =
    inl (KeepsPids-trans (update_time-KeepsPids k) (wakeup-KeepsPids (update_time k) me chan))

-- If the numbers of the processes in use are below the next number and no two are the same, then
-- so it is after any sequence of calls - forks, clones, joins, exits, waits, kills, semaphores,
-- signals, messages - and of steps of the scheduler and the clock, whichever processes make them.
-- Numbers are unbounded here.
pub Reach-HasUniquePids : {k k' : Kernel} → HasUniquePids k → Reach k k' → HasUniquePids k'
Reach-HasUniquePids u here = u
Reach-HasUniquePids u (next r s) = KeepsOrAdds-HasUniquePids (Step-pids s) (Reach-HasUniquePids u r)
