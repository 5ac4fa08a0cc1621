-- ===== src/Kernel/Types.antt =====
-- The state of the kernel: kernel/proc.h, kernel/param.h and the variables of kernel/proc.c. Flags
-- are Booleans, an `int` that the code keeps at 0 or more is a ℕ, a pointer to a process is its index
-- in the table. The locks are not part of the state: what runs between `acquire` and `release` is one
-- step.
use g20_os_lab_project.Common.{ℕ, ℤ, Bool, List, Option}

abbrev pub nproc : ℕ
nproc = 64

abbrev pub nsem : ℕ
nsem = 64

abbrev pub sigalrm : ℕ
sigalrm = 14

abbrev pub default_priority : ℕ
default_priority = 50

pub data Procstate : Type 0 where
  unused used sleeping runnable running zombie : Procstate

-- What a process sleeps on: nothing (a null pointer), a process, the mailbox of a process, a
-- semaphore, or some other address.
pub data Channel : Type 0 where
  no_chan : Channel
  proc_chan msg_chan sem_chan other_chan : ℕ → Channel

-- The saved registers that the code names, and the others by their offset.
pub record Trapframe : Type 0 where
  pub epc : ℕ
  pub sp : ℕ
  pub a0 : ℕ
  pub others : ℕ → ℕ

abbrev pub zero_trapframe : Trapframe
zero_trapframe = record { epc = 0; sp = 0; a0 = 0; others = λ i. 0 }

-- Eight of the bytes 5 with which kalloc fills a page.
abbrev pub junk : ℕ
junk = 361700864190383365

-- A page as kalloc gives it.
abbrev pub junk_trapframe : Trapframe
junk_trapframe = record { epc = junk; sp = junk; a0 = junk; others = λ i. junk }

-- `struct proc`, with `trapframe` the contents of its page.
pub record Proc : Type 0 where
  pub rtime : ℕ
  pub stime : ℕ
  pub retime : ℕ
  pub state : Procstate
  pub chan : Channel
  pub killed : Bool
  pub priority : ℕ
  pub xstate : ℤ
  pub pid : ℕ
  pub parent : Option ℕ
  pub sz : ℕ
  pub pagetable : Option ℕ
  pub trapframe : Option Trapframe
  pub ofile : ℕ → Option ℕ
  pub cwd : Option ℕ
  pub name : List ℕ
  pub signal_handler : ℕ
  pub signal_registered : Bool
  pub alarm_interval : ℕ
  pub alarm_elapsed : ℕ
  pub pending_signal : ℕ
  pub active_signal : ℕ
  pub signal_inflight : Bool
  pub signal_tf : Trapframe
  pub msg_buf : List ℕ
  pub msg_flag : Bool
  pub is_thread : Bool
  pub thread_stack : ℕ

pub record Ksem : Type 0 where
  pub used : Bool
  pub value : ℕ

pub record Kernel : Type 0 where
  pub procs : ℕ → Proc
  pub semtable : ℕ → Ksem
  pub next_pid : ℕ
  pub init_proc : ℕ

-- What a system call that may sleep does next: it returns a value, or it sleeps.
pub data Outcome : Type 0 where
  returns : ℤ → Kernel → Outcome
  sleeps : Kernel → Outcome
