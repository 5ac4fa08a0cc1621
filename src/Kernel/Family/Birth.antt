-- ===== src/Kernel/Family/Birth.antt =====
-- What fork_with_priority and kclone make, and what kexit leaves. (kernel/proc.c)
use g20_os_lab_project.Common.{
  ℕ, ◌+◌, ◌≤◌, ◌<◌, ◌≡◌, ◌≢◌, refl, ap, ◌∙◌, Bool, true, false, leb, ◌==◌, ◌||◌, none, some, ℤ, pos,
  arith, update, update_self, update_ne, for_range-inv, Bool-cases, inl, inr,
}
use g20_os_lab_project.Kernel.Types.{Kernel, Proc, Trapframe, runnable, zombie, nproc, proc_chan}
use g20_os_lab_project.Kernel.Table.{Found, set_proc}
use g20_os_lab_project.Kernel.Signal.{trapframe_of}
use g20_os_lab_project.Kernel.Sched.{wakeup, wakeup_self}
use g20_os_lab_project.Kernel.Alloc.Fresh.{is_free, allocproc-Found}
use g20_os_lab_project.Kernel.Priority.{max_priority}
use g20_os_lab_project.Kernel.Priority.Range.{priority_valid-le}
use g20_os_lab_project.Kernel.Family.{
  inherit, start_child, fork_with_priority, kforkprio, kclone, has_parent, reparent_one, reparent,
  end_with, kexit_resume, chan_of,
}

-- A new process or thread `np` of the process `me`.
pub record IsBorn (k k' : Kernel) (me i urgency : ℕ) (tf : Trapframe) (threaded : Bool)
    : Type 0 where
  pub pid : (k'.procs i).pid ≡ k.next_pid
  pub next_pid : k'.next_pid ≡ k.next_pid + 1
  pub runs : (k'.procs i).state ≡ runnable
  pub parent : (k'.procs i).parent ≡ some me
  pub priority : (k'.procs i).priority ≡ urgency
  pub memory : (k'.procs i).sz ≡ (k.procs me).sz
  pub registers : (k'.procs i).trapframe ≡ some tf
  pub thread : (k'.procs i).is_thread ≡ threaded
  pub quiet : (k'.procs i).pending_signal ≡ 0
  pub others : (j : ℕ) → j ≢ i → k'.procs j ≡ k.procs j

forked :
    (k : Kernel) (me priority pagetable i : ℕ)
    → Found is_free k.procs 0 nproc i
    → let (r, k') =
        fork_with_priority k me priority
          (record { tf_ok = true; pagetable = some pagetable; copy_ok = true }) in
      (r ≡ pos k.next_pid)
      × IsBorn k k' me i priority (record (trapframe_of (k.procs me)) { a0 = 0 }) false
unfolding fork_with_priority start_child inherit
forked k me priority pagetable i f = rw (allocproc-Found k pagetable i f) (
  ground arith,
  record {
    pid = ground arith;
    next_pid = refl;
    runs = ground arith;
    parent = ground arith;
    priority = ground arith;
    memory = ground arith;
    registers = ground arith;
    thread = ground arith;
    quiet = ground arith;
    others = λ j ne. update_ne (update k.procs i _) i j _ ne ∙ update_ne k.procs i j _ ne;
  },
)

-- kforkprio with a priority from 0 to 100, where a slot is free and the memory suffices: it returns the
-- next process number; the first free slot holds a runnable child with that number, that
-- priority, the caller as its parent and the caller's registers but a 0 in a0; no other slot changes.
pub kforkprio_lem :
    (k : Kernel) (me priority pagetable i : ℕ)
    → priority ≤ max_priority
    → Found is_free k.procs 0 nproc i
    → let (r, k') =
        kforkprio k me
          (pos priority)
          (record { tf_ok = true; pagetable = some pagetable; copy_ok = true }) in
      (r ≡ pos k.next_pid)
      × IsBorn k k' me i priority (record (trapframe_of (k.procs me)) { a0 = 0 }) false
unfolding kforkprio
kforkprio_lem k me priority pagetable i h f =
    rw (priority_valid-le priority h) (forked k me priority pagetable i f)

-- kclone with a function and a stack inside the caller's memory, where a slot is free and the memory
-- suffices: it returns the next process number; the first free slot holds a runnable thread of the
-- caller with that number and the caller's priority, which starts at the function with the
-- stack and the argument; no other slot changes.
pub kclone_lem :
    (k : Kernel) (me fn stack arg pagetable i : ℕ)
    → fn < (k.procs me).sz
    → 0 < stack
    → stack < (k.procs me).sz
    → Found is_free k.procs 0 nproc i
    → let (r, k') =
        kclone k me fn stack arg
          (record { tf_ok = true; pagetable = some pagetable; copy_ok = true }) in
      (r ≡ pos k.next_pid)
      × IsBorn k k' me i
          (k.procs me).priority
          (record (trapframe_of (k.procs me)) { epc = fn; sp = stack; a0 = arg })
          true
unfolding kclone start_child inherit
kclone_lem k me fn stack arg pagetable i in_fn some_stack in_stack f =
    rw (inside, allocproc-Found k pagetable i f)
      (
        ground arith,
        record {
          pid = ground arith;
          next_pid = refl;
          runs = ground arith;
          parent = ground arith;
          priority = ground arith;
          memory = ground arith;
          registers = ground arith;
          thread = ground arith;
          quiet = ground arith;
          others = λ j ne. update_ne (update k.procs i _) i j _ ne ∙ update_ne k.procs i j _ ne;
        },
      )
  where
    inside : (leb (k.procs me).sz fn || stack == 0 || leb (k.procs me).sz stack) ≡ false
    inside = ground arith

-- reparent leaves the entry of the process itself alone.
pub reparent_self :
    (k : Kernel) (me : ℕ)
    → has_parent me (k.procs me) ≡ false
    → (reparent k me).procs me ≡ k.procs me
unfolding reparent reparent_one
reparent_self k me own =
    for_range-inv (λ k'. k'.procs me ≡ k.procs me) (reparent_one me) 0 nproc k
      (λ k' i h same. round k' i same) refl
  where
    round :
        (k' : Kernel) (i : ℕ)
        → k'.procs me ≡ k.procs me
        → (reparent_one me k' i).procs me ≡ k.procs me
    round k' i same = elim (Bool-cases (has_parent me (k'.procs i))) [
      | inr no_child ↦ rw no_child same
      | inl child ↦ rw child (
          wakeup_self _ me (proc_chan k'.init_proc)
          ∙ update_ne k'.procs i me _ (λ e. ground (arith, own, same, e, child))
          ∙ same)
    ]

-- kexit of a process that is not its own parent, from where its files are closed: it becomes a zombie
-- with that exit status, without a directory; nothing else of its entry changes.
pub kexit_resume_lem :
    (k : Kernel) (me : ℕ) (status : ℤ)
    → has_parent me (k.procs me) ≡ false
    → (kexit_resume k me status).procs me
      ≡ record (k.procs me) { cwd = none; xstate = status; state = zombie }
unfolding kexit_resume end_with
kexit_resume_lem k me status own =
    update_self woken.procs me _
    ∙ ap (λ (p : Proc). record p { xstate = status; state = zombie }) same
  where
    closed : Kernel
    closed = set_proc k me (record (k.procs me) { cwd = none })

    woken : Kernel
    woken = wakeup (reparent closed me) me (chan_of ((reparent closed me).procs me).parent)

    here : closed.procs me ≡ record (k.procs me) { cwd = none }
    here = update_self k.procs me _

    same : woken.procs me ≡ record (k.procs me) { cwd = none }
    same =
        wakeup_self (reparent closed me) me (chan_of ((reparent closed me).procs me).parent)
        ∙ reparent_self closed me (ap (has_parent me) here ∙ own)
        ∙ here
