-- ===== src/Kernel/Family.antt =====
-- Processes and threads that are made, end and are waited for: fork_with_priority, kfork, kforkprio,
-- kclone, kjoin, reparent, kexit, kwait and waitx of kernel/proc.c. What allocproc and uvmcopy get from
-- the memory and whether copyout succeeds are arguments. Reference counts of files and directories are
-- not part of the state. kjoin, kwait and waitx are cut where they sleep; after a wakeup they
-- search again. kexit is cut where it gives back its files, in which it may sleep.
pub mod Threads
pub mod Birth
pub mod Waiting
use g20_os_lab_project.Common.{
  ℕ, ◌==◌, Bool, true, false, not, ◌&&◌, ◌||◌, if◌then◌else◌, leb, Option, none, some, ℤ, pos,
  minus_one, update, for_range, pos_part, List,
}
use g20_os_lab_project.Kernel.Types.{
  Kernel, Proc, Procstate, runnable, zombie, nproc, Channel, no_chan, proc_chan, Trapframe,
  zero_trapframe, Outcome, returns, sleeps,
}
use g20_os_lab_project.Kernel.Table.{find_proc, set_proc, is_zombie, is_pid}
use g20_os_lab_project.Kernel.Signal.{trapframe_of}
use g20_os_lab_project.Kernel.Sched.{sleep_on, tidy_up, wakeup, killed}
use g20_os_lab_project.Kernel.Alloc.{allocproc, freeproc, zero_buf}
use g20_os_lab_project.Kernel.Priority.{priority_valid}

-- What the memory gives to a new process.
pub record Memory : Type 0 where
  pub tf_ok : Bool
  pub pagetable : Option ℕ
  pub copy_ok : Bool

-- What a new process or thread `np` takes from its parent `p`, the entry `me`.
unfoldable pub inherit : (me : ℕ) → Proc → Proc → Proc
inherit me p np = record np {
  sz = p.sz;
  signal_handler = p.signal_handler;
  signal_registered = p.signal_registered;
  alarm_interval = p.alarm_interval;
  alarm_elapsed = 0;
  pending_signal = 0;
  active_signal = 0;
  signal_inflight = false;
  msg_buf = zero_buf;
  msg_flag = false;
  signal_tf = zero_trapframe;
  ofile = λ fd. elim (p.ofile fd) [ none ↦ np.ofile fd | some f ↦ some f ];
  cwd = p.cwd;
  name = p.name;
  parent = some me;
  state = runnable;
}

-- The entry `i` that allocproc gave is filled by `fill`, or freed if uvmcopy fails.
unfoldable pub start_child : Kernel → (Proc → Proc) → (copy_ok : Bool) → Option ℕ → ℤ × Kernel
start_child k fill copy_ok none = (minus_one, k)
start_child k fill false (some i) = (minus_one, set_proc k i (freeproc (k.procs i)))
start_child k fill true (some i) = (pos (k.procs i).pid, set_proc k i (fill (k.procs i)))

-- What fork_with_priority and kclone write into the new entry.
unfoldable pub fork_fill : Kernel → (me priority : ℕ) → Proc → Proc
unfolding inherit
fork_fill k me priority np = record (inherit me (k.procs me) np) {
  trapframe = some (record (trapframe_of (k.procs me)) { a0 = 0 });
  priority = priority;
  is_thread = false;
  thread_stack = 0;
}

unfoldable pub clone_fill : Kernel → (me fn stack arg : ℕ) → Proc → Proc
unfolding inherit
clone_fill k me fn stack arg nt = record (inherit me (k.procs me) nt) {
  trapframe = some (record (trapframe_of (k.procs me)) { epc = fn; sp = stack; a0 = arg });
  priority = (k.procs me).priority;
  is_thread = true;
  thread_stack = stack;
}

unfoldable pub fork_with_priority : Kernel → (me priority : ℕ) → Memory → ℤ × Kernel
unfolding fork_fill start_child
fork_with_priority k me priority memory =
    let (np, k') = allocproc k memory.tf_ok memory.pagetable in
    start_child k' (fork_fill k me priority) memory.copy_ok np

unfoldable pub kfork : Kernel → (me : ℕ) → Memory → ℤ × Kernel
unfolding fork_with_priority
kfork k me memory = fork_with_priority k me (k.procs me).priority memory

unfoldable pub kforkprio : Kernel → (me : ℕ) → ℤ → Memory → ℤ × Kernel
unfolding fork_with_priority
kforkprio k me priority memory =
    if priority_valid priority
    then fork_with_priority k me (pos_part priority) memory
    else (minus_one, k)

unfoldable pub kclone : Kernel → (me fn stack arg : ℕ) → Memory → ℤ × Kernel
unfolding clone_fill start_child
kclone k me fn stack arg memory =
    if leb (k.procs me).sz fn || stack == 0 || leb (k.procs me).sz stack
    then (minus_one, k)
    else let (nt, k') = allocproc k memory.tf_ok memory.pagetable in
      start_child k' (clone_fill k me fn stack arg) memory.copy_ok nt

abbrev pub has_parent : ℕ → Proc → Bool
has_parent me p = elim p.parent [ none ↦ false | some q ↦ q == me ]

abbrev pub is_child : ℕ → ℕ → Proc → Bool
is_child me i p = has_parent me p && not p.is_thread

abbrev pub is_zombie_child : ℕ → ℕ → Proc → Bool
is_zombie_child me i p = is_child me i p && is_zombie p.state

abbrev pub is_thread_of : ℕ → ℤ → ℕ → Proc → Bool
is_thread_of me tid i p = has_parent me p && (is_pid p.pid tid && p.is_thread)

abbrev pub is_zombie_thread_of : ℕ → ℤ → ℕ → Proc → Bool
is_zombie_thread_of me tid i p = is_thread_of me tid i p && is_zombie p.state

-- No zombie was found: the process sleeps if there is something to wait for and it is not killed.
unfoldable pub wait_on : Kernel → (me : ℕ) → Option ℕ → Outcome
wait_on k me none = returns minus_one k
wait_on k me (some i) =
    if killed (k.procs me) then returns minus_one k else sleeps (sleep_on k me (proc_chan me))

unfoldable pub join_found : Kernel → (me : ℕ) → ℤ → Option ℕ → Outcome
unfolding wait_on
join_found k me tid none = wait_on k me (find_proc (is_thread_of me tid) k)
join_found k me tid (some i) = returns tid (set_proc k i (freeproc (k.procs i)))

unfoldable pub kjoin : Kernel → (me : ℕ) → ℤ → Outcome
unfolding join_found
kjoin k me tid = join_found k me tid (find_proc (is_zombie_thread_of me tid) k)

unfoldable pub kjoin_resume : Kernel → (me : ℕ) → ℤ → Outcome
unfolding kjoin
kjoin_resume k me tid = kjoin (tidy_up k me) me tid

-- The zombie child that the loop of kwait or waitx found: `copy_ok` if each copyout that is made
-- succeeds.
unfoldable pub reap : Kernel → (me : ℕ) → (copy_ok : Bool) → Option ℕ → Outcome
unfolding wait_on
reap k me copy_ok none = wait_on k me (find_proc (is_child me) k)
reap k me false (some i) = returns minus_one k
reap k me true (some i) = returns (pos (k.procs i).pid) (set_proc k i (freeproc (k.procs i)))

-- The outcome, and the exit status that copyout writes to `addr` if that is not 0.
unfoldable pub kwait : Kernel → (me : ℕ) (addr : ℕ) (copy_ok : Bool) → Outcome × Option ℤ
unfolding reap
kwait k me addr copy_ok =
    let found = find_proc (is_zombie_child me) k in
    (
      reap k me (addr == 0 || copy_ok) found,
      if addr == 0 || not copy_ok
          then none
          else elim found [ none ↦ none | some i ↦ some (k.procs i).xstate ],
    )

unfoldable pub kwait_resume : Kernel → (me : ℕ) (addr : ℕ) (copy_ok : Bool) → Outcome × Option ℤ
unfolding kwait
kwait_resume k me addr copy_ok = kwait (tidy_up k me) me addr copy_ok

-- The outcome, and the two times that copyout writes where both copies succeed.
unfoldable pub waitx : Kernel → (me : ℕ) (copy_ok : Bool) → Outcome × Option (ℕ × ℕ)
unfolding reap
waitx k me copy_ok =
    let found = find_proc (is_zombie_child me) k in
    (
      reap k me copy_ok found,
      if copy_ok
          then elim found [ none ↦ none | some i ↦ some ((k.procs i).rtime, (k.procs i).retime) ]
          else none,
    )

-- The round of reparent at entry `i`, and the loop.
unfoldable pub reparent_one : (me : ℕ) → Kernel → ℕ → Kernel
reparent_one me k i =
    if has_parent me (k.procs i)
    then wakeup (set_proc k i (record (k.procs i) { parent = some k.init_proc })) me
        (proc_chan k.init_proc)
    else k

unfoldable pub reparent : Kernel → (me : ℕ) → Kernel
unfolding reparent_one
reparent k me = for_range (reparent_one me) 0 nproc k

abbrev pub chan_of : Option ℕ → Channel
chan_of none = no_chan
chan_of (some i) = proc_chan i

-- Once the parent is woken: the process becomes a zombie.
unfoldable pub end_with : (me : ℕ) → ℤ → Kernel → Kernel
end_with me status k = set_proc k me (record (k.procs me) { xstate = status; state = zombie })

-- kexit up to the files of the process; `none` is the panic of the init process. Its files and its
-- directory are given back by fileclose, begin_op, iput and end_op, which may sleep, while others run.
unfoldable pub kexit : Kernel → (me : ℕ) → Option Kernel
kexit k me = if me == k.init_proc then none else some k

-- `p->ofile[fd] = 0`, after each fileclose.
unfoldable pub close_fd : Kernel → (me fd : ℕ) → Kernel
close_fd k me fd = set_proc k me (record (k.procs me) { ofile = update (k.procs me).ofile fd none })

-- kexit from `p->cwd = 0` on.
unfoldable pub kexit_resume : Kernel → (me : ℕ) → ℤ → Kernel
unfolding reparent end_with
kexit_resume k me status =
    let orphaned = reparent (set_proc k me (record (k.procs me) { cwd = none })) me in
    end_with me status (wakeup orphaned me (chan_of (orphaned.procs me).parent))
