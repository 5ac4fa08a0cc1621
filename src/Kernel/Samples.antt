-- ===== src/Kernel/Samples.antt =====
-- A small process table of kernel/proc.c.
use g20_os_lab_project.Common.{ℕ, zero, suc, ◌≡◌, pos, Bool, true, false, none, some, [], arith}
use native.Mathlib.Decide.{ℕ_discrete}
use g20_os_lab_project.Kernel.Types.{
  Kernel, Proc, Procstate, unused, sleeping, zombie, running, zero_trapframe, no_chan, nproc,
}
use g20_os_lab_project.Kernel.Table.{Found}

-- A process in a state, with a number, that is not a thread and has a signal handler.
abbrev pub process : Procstate → ℕ → Proc
process state pid = record {
  rtime = 3;
  stime = 0;
  retime = 1;
  state = state;
  chan = no_chan;
  killed = false;
  priority = 50;
  xstate = pos 7;
  pid = pid;
  parent = some 0;
  sz = 4096;
  pagetable = some 1;
  trapframe = some zero_trapframe;
  ofile = λ fd. none;
  cwd = none;
  name = [];
  signal_handler = 100;
  signal_registered = true;
  alarm_interval = 2;
  alarm_elapsed = 0;
  pending_signal = 0;
  active_signal = 0;
  signal_inflight = false;
  signal_tf = zero_trapframe;
  msg_buf = [];
  msg_flag = false;
  is_thread = false;
  thread_stack = 0;
}

-- Process 1 runs, process 2 sleeps, process 3 is a zombie, and the other slots are free.
abbrev pub table : ℕ → Proc
table zero = process running 1
table (suc zero) = process sleeping 2
table (suc (suc zero)) = process zombie 3
table (suc (suc (suc n))) = process unused 0

abbrev pub kernel : Kernel
kernel = record {
  procs = table;
  semtable = λ i. record { used = true; value = 0 };
  next_pid = 4;
  init_proc = 0;
}

-- Entries that are the first to pass a test.
pub Found-0 : (test : ℕ → Proc → Bool) (t : ℕ → Proc) → test 0 (t 0) ≡ true → Found test t 0 nproc 0
Found-0 test t hit = record {
  from = omega arith;
  below = omega arith;
  passes = hit;
  first = λ l p q. absurd (omega arith);
}

pub Found-1 :
    (test : ℕ → Proc → Bool) (t : ℕ → Proc)
    → test 0 (t 0) ≡ false
    → test 1 (t 1) ≡ true
    → Found test t 0 nproc 1
Found-1 test t miss hit = record {
  from = omega arith;
  below = omega arith;
  passes = hit;
  first = λ l p q. let e : l ≡ 0 = omega arith in rw e miss;
}

pub Found-2 :
    (test : ℕ → Proc → Bool) (t : ℕ → Proc)
    → test 0 (t 0) ≡ false
    → test 1 (t 1) ≡ false
    → test 2 (t 2) ≡ true
    → Found test t 0 nproc 2
Found-2 test t miss_0 miss_1 hit = record {
  from = omega arith;
  below = omega arith;
  passes = hit;
  first = λ l p q. elim (ℕ_discrete l 0) [
    | yes e ↦ rw e miss_0
    | no ne ↦ let e : l ≡ 1 = omega arith in rw e miss_1
  ];
}

-- A table with a free slot only after process 1.
abbrev pub small_table : ℕ → Proc
small_table zero = process running 1
small_table (suc n) = process unused 0

abbrev pub small_kernel : Kernel
small_kernel = record kernel { procs = small_table }

-- Slot 1 holds a zombie thread of process 0.
abbrev pub thread_table : ℕ → Proc
thread_table zero = record (process running 1) { parent = none }
thread_table (suc zero) = record (process zombie 2) { is_thread = true }
thread_table (suc (suc n)) = record (process unused 0) { parent = none }

abbrev pub thread_kernel : Kernel
thread_kernel = record kernel { procs = thread_table }
