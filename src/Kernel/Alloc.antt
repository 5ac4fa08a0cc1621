-- ===== src/Kernel/Alloc.antt =====
-- Slots of the process table: procinit, allocpid, allocproc and freeproc of kernel/proc.c. Memory
-- comes from outside: whether kalloc gives a trapframe page, and the page table that proc_pagetable
-- makes, are arguments.
pub mod Fresh
use g20_os_lab_project.Common.{
  ℕ, zero, suc, ◌+◌, Bool, true, false, Option, none, some, ℤ, pos, List, [], ◌∷◌, if◌then◌else◌,
  ltb,
}
use g20_os_lab_project.Kernel.Types.{
  Kernel, Proc, Procstate, unused, used, Channel, no_chan, Trapframe, zero_trapframe, Ksem,
  default_priority, nproc, nsem, junk_trapframe,
}
use g20_os_lab_project.Kernel.Table.{find_proc, set_proc, is_unused, each_proc}

abbrev pub zeros : ℕ → List ℕ
zeros zero = []
zeros (suc n) = 0 ∷ zeros n

-- `memset` of a mailbox: 64 bytes.
abbrev pub zero_buf : List ℕ
zero_buf = zeros 64

-- What procinit, allocproc and freeproc all reset.
abbrev pub reset : Proc → Proc
reset p = record p {
  rtime = 0;
  stime = 0;
  retime = 0;
  priority = default_priority;
  signal_handler = 0;
  signal_registered = false;
  alarm_interval = 0;
  alarm_elapsed = 0;
  pending_signal = 0;
  active_signal = 0;
  signal_inflight = false;
  signal_tf = zero_trapframe;
  msg_buf = zero_buf;
  msg_flag = false;
  is_thread = false;
  thread_stack = 0;
}

unfoldable pub procinit : Kernel → Kernel
procinit k = record k {
  procs = λ j. if ltb j nproc then record (reset (k.procs j)) { state = unused } else k.procs j;
  semtable = λ j. if ltb j nsem then record { used = false; value = 0 } else k.semtable j;
}

unfoldable pub allocpid : Kernel → ℕ × Kernel
allocpid k = (k.next_pid, record k { next_pid = k.next_pid + 1 })

unfoldable pub freeproc : Proc → Proc
freeproc p = record (reset p) {
  trapframe = none;
  pagetable = none;
  sz = 0;
  pid = 0;
  parent = none;
  name = [];
  chan = no_chan;
  killed = false;
  xstate = pos 0;
  state = unused;
}

-- The slot `i` that allocproc found.
unfoldable pub alloc_at : Kernel → (tf_ok : Bool) (pagetable : Option ℕ) → ℕ → Option ℕ × Kernel
unfolding allocpid freeproc
alloc_at k false pagetable i =
    let (pid, k') = allocpid k in
    (none, set_proc k' i (freeproc (record (reset (k.procs i)) { pid = pid; state = used })))
alloc_at k true none i =
    let (pid, k') = allocpid k in
    (none, set_proc k' i (freeproc (record (reset (k.procs i)) { pid = pid; state = used })))
alloc_at k true (some table) i =
    let (pid, k') = allocpid k in
    (
      some i,
      set_proc k' i (record (reset (k.procs i)) {
        pid = pid;
        state = used;
        trapframe = some junk_trapframe;
        pagetable = some table;
      }),
    )

unfoldable pub alloc_found :
    Kernel → (tf_ok : Bool) (pagetable : Option ℕ) → Option ℕ → Option ℕ × Kernel
unfolding alloc_at
alloc_found k tf_ok pagetable none = (none, k)
alloc_found k tf_ok pagetable (some i) = alloc_at k tf_ok pagetable i

unfoldable pub allocproc : Kernel → (tf_ok : Bool) (pagetable : Option ℕ) → Option ℕ × Kernel
unfolding alloc_found
allocproc k tf_ok pagetable = alloc_found k tf_ok pagetable (find_proc (λ i p. is_unused p.state) k)
