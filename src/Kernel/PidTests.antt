-- ===== src/Kernel/PidTests.antt =====
-- The theorems on process numbers and on the end of a child (kernel/proc.c), at small process tables.
use g20_os_lab_project.Common.{
  ℕ, zero, suc, ◌+◌, ◌<◌, ◌≡◌, ◌≢◌, ◌⊎◌, none, minus_one, refl, true, false, ◌&&◌, some, pos, arith,
}
use g20_os_lab_project.Kernel.Types.{Kernel, Proc, unused, running, sleeping, proc_chan, returns}
use g20_os_lab_project.Kernel.Table.{is_sleeping, same_chan, is_unused}
use g20_os_lab_project.Kernel.Sched.{kkill}
use g20_os_lab_project.Kernel.Family.{Memory, kfork, kexit_resume, kwait, is_zombie_child}
use g20_os_lab_project.Kernel.Family.Waiting.{kwait-kexit}
use g20_os_lab_project.Kernel.Pids.{HasUniquePids, here, next, fork, kill}
use g20_os_lab_project.Kernel.Pids.Unique.{Reach-HasUniquePids}
use g20_os_lab_project.Kernel.Samples.{process, table, kernel}

-- Process 2 waits for its child, process 3.
abbrev family_table : ℕ → Proc
family_table zero = process running 1
family_table (suc zero) = record (process sleeping 2) { chan = proc_chan 1 }
family_table (suc (suc zero)) = record (process running 3) { parent = some 1 }
family_table (suc (suc (suc n))) = process unused 0

abbrev family : Kernel
family = record kernel { procs = family_table }

no_zombie : (l : ℕ) → l < 2 → is_zombie_child 1 l (family_table l) ≡ false
no_zombie zero h = refl
no_zombie (suc zero) h = refl
no_zombie (suc (suc l)) h = absurd (omega arith)

abbrev status_address : ℕ
status_address = 64

kwait-kexit_example :
    let k' = kexit_resume family 2 (pos 9) in
    ((is_sleeping (k'.procs 1).state && same_chan (k'.procs 1).chan (proc_chan 1)) ≡ false)
    × ((((status_address ≡ 0) ⊎ (true ≡ true))
          × ((k'' : Kernel) × (kwait k' 1 64 true ≡ (returns (pos 3) k'', some (pos 9)))
              × ((k''.procs 2).state ≡ unused)))
        ⊎ ((status_address ≢ 0)
            × (true ≡ false)
            × (kwait k' 1 64 true ≡ (returns minus_one k', none))))
kwait-kexit_example =
    kwait-kexit family 1 2 64 (pos 9) true (omega arith) (omega arith)
      (λ e. absurd (omega (arith, e))) (λ e. absurd (omega (arith, e))) refl refl no_zombie

-- The numbers of the sample table: entry `i` has the number `i + 1` where it is in use.
pid_of : (i : ℕ) → is_unused (table i).state ≡ false → ((table i).pid ≡ i + 1) × (i < 3)
pid_of zero h = omega arith
pid_of (suc zero) h = omega arith
pid_of (suc (suc zero)) h = omega arith
pid_of (suc (suc (suc n))) h = absurd (cc)

kernel-HasUniquePids : HasUniquePids kernel
kernel-HasUniquePids = record {
  known = λ i h. let (same, low) = pid_of i h in omega (arith, same, low);
  distinct = λ i j ne h l e.
      let (same_i, low_i) = pid_of i h in
      let (same_j, low_j) = pid_of j l in ne (omega (arith, same_i, same_j, e));
}

abbrev enough : Memory
enough = record { tf_ok = true; pagetable = some 5; copy_ok = true }

Reach-HasUniquePids_example : HasUniquePids (kkill (kfork kernel 0 enough).1 (pos 4)).1
Reach-HasUniquePids_example =
    Reach-HasUniquePids kernel-HasUniquePids (next (next here (fork 0 enough)) (kill (pos 4)))
