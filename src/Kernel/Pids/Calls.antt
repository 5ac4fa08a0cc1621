-- ===== src/Kernel/Pids/Calls.antt =====
-- What the calls of kernel/proc.c do to the numbers of the processes.
use g20_os_lab_project.Common.{
  ℕ, ◌+◌, ◌≡◌, ◌≢◌, ◌<◌, refl, ap, ◌∙◌, Bool, true, false, arith, update_self, update_ne, Option,
  none, some, ℤ, ◌==◌, ◌||◌, Bool-cases, inl, inr, ◌⊎◌, leb, subst,
}
use g20_os_lab_project.Kernel.Types.{Kernel, Proc, used, Channel, proc_chan, junk_trapframe}
use g20_os_lab_project.Kernel.Table.{set_proc, is_unused, find_proc}
use g20_os_lab_project.Kernel.Sched.{sleep_on, wakeup, killed, wakeup_self}
use g20_os_lab_project.Kernel.Alloc.{freeproc, allocproc, alloc_found, alloc_at, allocpid, reset}
use g20_os_lab_project.Kernel.Priority.{priority_valid}
use g20_os_lab_project.Kernel.Family.{
  Memory, start_child, fork_fill, clone_fill, fork_with_priority, kfork, kforkprio, kclone, wait_on,
  join_found, kjoin, reap, kwait, waitx, kexit, close_fd, kexit_resume, end_with, reparent, chan_of,
}
use g20_os_lab_project.Kernel.Pids.{IsInUse, kernel_of}
use g20_os_lab_project.Kernel.Pids.Keeping.{
  SameEntry, KeepsPids, KeepsPids-refl, KeepsPids-trans, set_proc-KeepsPids, freeproc-KeepsPids,
  wakeup-KeepsPids, reparent-KeepsPids, reparent-state,
}

-- A call that fills the slot `i`: if the slot is in use afterwards, its number is the next one.
pub record AddsPid (k k' : Kernel) (i : ℕ) : Type 0 where
  pub grows : k.next_pid < k'.next_pid
  pub others : (j : ℕ) → j ≢ i → SameEntry (k.procs j) (k'.procs j)
  pub fresh : IsInUse k' i → (k'.procs i).pid ≡ k.next_pid

abbrev pub KeepsOrAdds : Kernel → Kernel → Type 0
KeepsOrAdds k k' = KeepsPids k k' ⊎ ((i : ℕ) × AddsPid k k' i)

set_proc-AddsPid :
    (k k1 : Kernel) (i : ℕ) (p : Proc)
    → k.next_pid < k1.next_pid
    → ((j : ℕ) → j ≢ i → SameEntry (k.procs j) (k1.procs j))
    → (is_unused p.state ≡ false → p.pid ≡ k.next_pid)
    → AddsPid k (set_proc k1 i p) i
set_proc-AddsPid k k1 i p grows others fresh = record {
  grows = grows;
  others = λ j ne. rw (update_ne k1.procs i j p ne) (others j ne);
  fresh = rw (update_self k1.procs i p) fresh;
}

-- A number is taken, and the slot `i` written.
taken :
    (k : Kernel) (i : ℕ) (p : Proc)
    → (is_unused p.state ≡ false → p.pid ≡ k.next_pid)
    → AddsPid k (set_proc (record k { next_pid = k.next_pid + 1 }) i p) i
taken k i p fresh =
    set_proc-AddsPid k (record k { next_pid = k.next_pid + 1 }) i p (omega arith)
      (λ j ne h. (h, refl)) fresh

-- A slot that a call has just filled is written again.
again :
    (k k1 : Kernel) (i : ℕ) (p : Proc)
    → AddsPid k k1 i
    → (is_unused p.state ≡ false → p.pid ≡ k.next_pid)
    → AddsPid k (set_proc k1 i p) i
again k k1 i p a fresh = set_proc-AddsPid k k1 i p a.grows a.others fresh

module _ (k : Kernel) (fill : Proc → Proc) (fill_pid : (p : Proc) → (fill p).pid ≡ p.pid)
    (copy_ok : Bool) where
  started :
      (i table : ℕ)
      → KeepsOrAdds k
          (let (np, k') = alloc_at k true (some table) i in start_child k' fill copy_ok np).1
  unfolding alloc_at allocpid start_child
  started i table = go copy_ok
    where
      p : Proc
      p = record (reset (k.procs i)) {
        pid = k.next_pid;
        state = used;
        trapframe = some junk_trapframe;
        pagetable = some table;
      }

      k1 : Kernel
      k1 = set_proc (record k { next_pid = k.next_pid + 1 }) i p

      here : k1.procs i ≡ p
      here = update_self k.procs i p

      filled : AddsPid k k1 i
      filled = taken k i p (λ h. refl)

      go : (ok : Bool) → KeepsOrAdds k (start_child k1 fill ok (some i)).1
      go true = inr (
        i,
        again k k1 i (fill (k1.procs i)) filled
            (λ h. fill_pid (k1.procs i) ∙ ap (λ (q : Proc). q.pid) here),
      )
      go false =
          inr (i, again k k1 i (freeproc (k1.procs i)) filled (unfold freeproc in λ h. absurd (cc)))

  -- What a call makes with the slot that allocproc gives.
  child_lem :
      (tf_ok : Bool) (pagetable : Option ℕ)
      → KeepsOrAdds k
          (let (np, k') = allocproc k tf_ok pagetable in start_child k' fill copy_ok np).1
  unfolding allocproc alloc_found
  child_lem tf_ok pagetable = go (find_proc (λ i p. is_unused p.state) k) tf_ok pagetable
    where
      go :
          (found : Option ℕ) (ok : Bool) (table : Option ℕ)
          → KeepsOrAdds k
              (let (np, k') = alloc_found k ok table found in start_child k' fill copy_ok np).1
      go none ok table = unfold start_child in inl (KeepsPids-refl k)
      go (some i) false table =
          unfold alloc_at allocpid start_child freeproc in inr (i, taken k i _ (λ h. absurd (cc)))
      go (some i) true none =
          unfold alloc_at allocpid start_child freeproc in inr (i, taken k i _ (λ h. absurd (cc)))
      go (some i) true (some table) = started i table

fork_with_priority-pids :
    (k : Kernel) (me priority : ℕ) (memory : Memory)
    → KeepsOrAdds k (fork_with_priority k me priority memory).1
unfolding fork_with_priority
fork_with_priority-pids k me priority memory =
    child_lem k (fork_fill k me priority) (λ p. unfold fork_fill in refl) memory.copy_ok
      memory.tf_ok memory.pagetable

pub kfork-pids : (k : Kernel) (me : ℕ) (memory : Memory) → KeepsOrAdds k (kfork k me memory).1
unfolding kfork
kfork-pids k me memory = fork_with_priority-pids k me (k.procs me).priority memory

pub kforkprio-pids :
    (k : Kernel) (me : ℕ) (priority : ℤ) (memory : Memory)
    → KeepsOrAdds k (kforkprio k me priority memory).1
unfolding kforkprio
kforkprio-pids k me priority memory = elim (Bool-cases (priority_valid priority)) [
  | inl valid ↦ rw valid (fork_with_priority-pids k me _ memory)
  | inr invalid ↦ rw invalid (inl (KeepsPids-refl k))
]

pub kclone-pids :
    (k : Kernel) (me fn stack arg : ℕ) (memory : Memory)
    → KeepsOrAdds k (kclone k me fn stack arg memory).1
unfolding kclone
kclone-pids k me fn stack arg memory =
    elim (Bool-cases (leb (k.procs me).sz fn || stack == 0 || leb (k.procs me).sz stack)) [
      | inl bad ↦ rw bad (inl (KeepsPids-refl k))
      | inr good ↦ rw good (
          child_lem k (clone_fill k me fn stack arg) (λ p. unfold clone_fill in refl) memory.copy_ok
            memory.tf_ok memory.pagetable)
    ]

pub sleep_on-KeepsPids :
    (k : Kernel) (me : ℕ) (chan : Channel) → IsInUse k me → KeepsPids k (sleep_on k me chan)
unfolding sleep_on
sleep_on-KeepsPids k me chan busy = set_proc-KeepsPids k me _ (λ h. (busy, refl))

wait_on-KeepsPids :
    (k : Kernel) (me : ℕ) (o : Option ℕ) → IsInUse k me → KeepsPids k (kernel_of (wait_on k me o))
unfolding wait_on
wait_on-KeepsPids k me none busy = KeepsPids-refl k
wait_on-KeepsPids k me (some i) busy = elim (Bool-cases (killed (k.procs me))) [
  | inl dead ↦ rw dead (KeepsPids-refl k)
  | inr alive ↦ rw alive (sleep_on-KeepsPids k me (proc_chan me) busy)
]

pub kjoin-KeepsPids :
    (k : Kernel) (me : ℕ) (tid : ℤ) → IsInUse k me → KeepsPids k (kernel_of (kjoin k me tid))
unfolding kjoin
kjoin-KeepsPids k me tid busy = go (find_proc _ k)
  where
    go : (o : Option ℕ) → KeepsPids k (kernel_of (join_found k me tid o))
    go none = unfold join_found in wait_on-KeepsPids k me (find_proc _ k) busy
    go (some i) = unfold join_found in freeproc-KeepsPids k i

reap-KeepsPids :
    (k : Kernel) (me : ℕ) (ok : Bool) (o : Option ℕ)
    → IsInUse k me
    → KeepsPids k (kernel_of (reap k me ok o))
unfolding reap
reap-KeepsPids k me ok none busy = wait_on-KeepsPids k me (find_proc _ k) busy
reap-KeepsPids k me false (some i) busy = KeepsPids-refl k
reap-KeepsPids k me true (some i) busy = freeproc-KeepsPids k i

pub kwait-KeepsPids :
    (k : Kernel) (me addr : ℕ) (ok : Bool)
    → IsInUse k me
    → KeepsPids k (kernel_of (kwait k me addr ok).0)
unfolding kwait
kwait-KeepsPids k me addr ok busy = reap-KeepsPids k me (addr == 0 || ok) (find_proc _ k) busy

pub waitx-KeepsPids :
    (k : Kernel) (me : ℕ) (ok : Bool) → IsInUse k me → KeepsPids k (kernel_of (waitx k me ok).0)
unfolding waitx
waitx-KeepsPids k me ok busy = reap-KeepsPids k me ok (find_proc _ k) busy

pub kexit-KeepsPids : (k : Kernel) (me : ℕ) (k' : Kernel) → kexit k me ≡ some k' → KeepsPids k k'
unfolding kexit
kexit-KeepsPids k me k' e = elim (Bool-cases (me == k.init_proc)) [
  | inl is_init ↦ let no_way = rw is_init at e in absurd (cc)
  | inr other ↦
      let made = rw other at e in
      let same : k ≡ k' = cc in subst (KeepsPids k) same (KeepsPids-refl k)
]

pub close_fd-KeepsPids : (k : Kernel) (me fd : ℕ) → KeepsPids k (close_fd k me fd)
unfolding close_fd
close_fd-KeepsPids k me fd = set_proc-KeepsPids k me _ (λ h. (h, refl))

pub kexit_resume-KeepsPids :
    (k : Kernel) (me : ℕ) (status : ℤ) → IsInUse k me → KeepsPids k (kexit_resume k me status)
unfolding kexit_resume end_with
kexit_resume-KeepsPids k me status busy = ended
  where
    closed : Kernel
    closed = set_proc k me (record (k.procs me) { cwd = none })

    orphaned : Kernel
    orphaned = reparent closed me

    woken : Kernel
    woken = wakeup orphaned me (chan_of (orphaned.procs me).parent)

    closed_pids : KeepsPids k closed
    closed_pids = set_proc-KeepsPids k me _ (λ h. (h, refl))

    woken_pids : KeepsPids k woken
    woken_pids =
        KeepsPids-trans closed_pids
          (KeepsPids-trans (reparent-KeepsPids closed me) (wakeup-KeepsPids orphaned me _))

    ended : KeepsPids k (end_with me status woken)
    ended =
        KeepsPids-trans woken_pids
          (set_proc-KeepsPids woken me _ (λ h. (ap is_unused (still) ∙ busy, refl)))
      where
        still : (woken.procs me).state ≡ (k.procs me).state
        still =
            ap (λ (p : Proc). p.state)
              (wakeup_self orphaned me (chan_of (orphaned.procs me).parent))
            ∙ reparent-state closed me
            ∙ ap (λ (p : Proc). p.state) (update_self k.procs me _)
