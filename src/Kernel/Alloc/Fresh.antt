-- ===== src/Kernel/Alloc/Fresh.antt =====
-- The slots and numbers that allocproc of kernel/proc.c gives, and what kkill does to a free slot.
use g20_os_lab_project.Common.{
  ℕ, ◌+◌, ◌≡◌, refl, Bool, true, false, none, some, pos, arith, update_self, if◌then◌else◌,
}
use g20_os_lab_project.Kernel.Types.{
  Kernel, Proc, Procstate, used, unused, sleeping, runnable, running, zombie, default_priority,
  nproc, junk_trapframe,
}
use g20_os_lab_project.Kernel.Table.{
  set_proc, is_unused, is_sleeping, is_pid, Found, find_proc-set_proc, find_proc-Found,
}
use g20_os_lab_project.Kernel.Sched.{kkill, kkill-Found}
use g20_os_lab_project.Kernel.Alloc.{alloc_at, alloc_found, allocproc, allocpid, freeproc, reset}

-- The test of allocproc.
abbrev pub is_free : ℕ → Proc → Bool
is_free i p = is_unused p.state

-- Where the table has an unused slot, allocproc takes the first one and the next process number.
-- With a trapframe page and a page table the slot is in use with that number; without a trapframe
-- page it is unused with the number 0. Either way it has the default priority, no signal handler,
-- no pending signal and an empty mailbox, and is no thread.
pub allocproc_lem :
    (k : Kernel) (tf_ok : Bool) (pagetable i : ℕ)
    → Found is_free k.procs 0 nproc i
    → let (np, k') = allocproc k tf_ok (some pagetable) in
      let p = k'.procs i in
      (k'.next_pid ≡ k.next_pid + 1)
      × (np ≡ (if tf_ok then some i else none))
      × (p.pid ≡ (if tf_ok then k.next_pid else 0))
      × (p.state ≡ (if tf_ok then used else unused))
      × (p.priority ≡ default_priority)
      × (p.signal_registered ≡ false)
      × (p.pending_signal ≡ 0)
      × (p.msg_flag ≡ false)
      × (p.is_thread ≡ false)
unfolding allocproc alloc_found alloc_at allocpid freeproc
allocproc_lem k true pagetable i f = rw (find_proc-Found is_free k i f) (ground arith)
allocproc_lem k false pagetable i f = rw (find_proc-Found is_free k i f) (ground arith)

-- What kkill makes of an entry.
abbrev victim : Proc → Proc
victim p = record p { killed = true; state = if is_sleeping p.state then runnable else p.state }

victim-is_free : (p : Proc) (i : ℕ) → is_free i p ≡ true → is_free i (victim p) ≡ true
victim-is_free p i h = still p.state h
  where
    still :
        (s : Procstate)
        → is_unused s ≡ true
        → is_unused (if is_sleeping s then runnable else s) ≡ true
    still unused h = refl
    still sleeping h = absurd (ground (arith, h))
    still used h = absurd (ground (arith, h))
    still runnable h = absurd (ground (arith, h))
    still running h = absurd (ground (arith, h))
    still zombie h = absurd (ground (arith, h))

-- If the first slot with the number 0 is the first unused one, kkill of the number 0 returns 0,
-- and the process that allocproc then makes in that slot, where the memory suffices, is already
-- killed.
pub allocproc-kkill :
    (k : Kernel) (pagetable i : ℕ)
    → Found is_free k.procs 0 nproc i
    → Found (λ j p. is_pid p.pid (pos 0)) k.procs 0 nproc i
    → let (r, k1) = kkill k (pos 0) in
      let (np, k2) = allocproc k1 true (some pagetable) in
      (r ≡ pos 0) × (np ≡ some i) × ((k2.procs i).killed ≡ true)
unfolding allocproc alloc_found alloc_at allocpid
allocproc-kkill k pagetable i f g =
    rw
      (
        kkill-Found k (pos 0) i g,
        find_proc-set_proc is_free k i (victim (k.procs i)) f
            (victim-is_free (k.procs i) i f.passes),
      )
      (refl, refl, rw (update_self k.procs i (victim (k.procs i))) (ground arith))

-- The state after allocproc where the memory suffices.
pub allocproc-Found :
    (k : Kernel) (pagetable i : ℕ)
    → Found is_free k.procs 0 nproc i
    → allocproc k true (some pagetable) ≡ (
      some i,
      set_proc
          (record k { next_pid = k.next_pid + 1 })
          i
          (record (reset (k.procs i)) {
            pid = k.next_pid;
            state = used;
            trapframe = some junk_trapframe;
            pagetable = some pagetable;
          }),
    )
unfolding allocproc alloc_found alloc_at allocpid
allocproc-Found k pagetable i f = rw (find_proc-Found is_free k i f) refl
