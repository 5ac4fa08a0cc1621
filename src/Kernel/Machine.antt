-- ===== src/Kernel/Machine.antt =====
-- The kernel with its clock, and what a system call comes to: the counter `ticks` of kernel/trap.c,
-- the results of the functions of kernel/sysproc.c, and what they get from the memory and the files.
use g20_os_lab_project.Common.{ℕ, ◌-◌, ◌^◌, Bool, ℤ, Option}
use g20_os_lab_project.Kernel.Types.{Kernel, Proc, Outcome, returns, sleeps, Channel, other_chan}
use g20_os_lab_project.Kernel.Table.{set_proc}
use g20_os_lab_project.Kernel.Signal.{to_uint64}
use g20_os_lab_project.Kernel.Mailbox.{Copied}
use g20_os_lab_project.Kernel.Family.{Memory}

pub record Machine : Type 0 where
  pub kernel : Kernel
  pub ticks : ℕ

-- The channel `&ticks`.
abbrev pub ticks_chan : Channel
ticks_chan = other_chan 0

-- A call returns a 64-bit word, or sleeps, or is in kexit with a status, where the files of the process
-- are given back next (`none` after a panic).
pub data Return : Type 0 where
  value : ℕ → Machine → Return
  blocked : Machine → Return
  exiting : Option Machine → ℤ → Return

abbrev pub proc_of : Machine → ℕ → Proc
proc_of m me = m.kernel.procs me

abbrev pub put_proc : Machine → ℕ → Proc → Machine
put_proc m me p = record m { kernel = set_proc m.kernel me p }

-- `return -1` as a word.
abbrev pub minus_word : ℕ
minus_word = 2 ^ 64 - 1

-- The `int` that a function of proc.c returns is widened to a word.
abbrev pub int_result : Machine → ℤ × Kernel → Return
int_result m (r, k) = value (to_uint64 r) (record m { kernel = k })

abbrev pub outcome_result : Machine → Outcome → Return
outcome_result m (returns r k) = value (to_uint64 r) (record m { kernel = k })
outcome_result m (sleeps k) = blocked (record m { kernel = k })

-- What the rest of the kernel does in a call: the memory for a new process, the copy of a message,
-- whether uvmalloc and the copies to and from user memory succeed, and the calls on files by their
-- number.
pub record World : Type 0 where
  pub memory : Memory
  pub copied : Copied
  pub grown : Bool
  pub copy_ok : Bool
  pub file_call : ℕ → Machine → ℕ → Return
