-- ===== src/Kernel/Pids.antt =====
-- The numbers of the processes through all calls of kernel/proc.c: what a call may do to the entries of
-- the table, and the sequences of calls.
pub mod Keeping
pub mod Calls
pub mod Messages
pub mod Unique
use g20_os_lab_project.Common.{ℕ, ◌≡◌, ◌≢◌, ◌<◌, ◌≤◌, ◌⊎◌, Bool, true, false, ℤ, some}
use g20_os_lab_project.Kernel.Types.{Kernel, Outcome, returns, sleeps, nproc, Channel}
use g20_os_lab_project.Kernel.Table.{is_unused}
use g20_os_lab_project.Kernel.Sched.{
  sleep_on, tidy_up, wakeup, yield, schedule_entry, kkill, update_time,
}
use g20_os_lab_project.Kernel.Family.{
  Memory, kfork, kforkprio, kclone, kjoin, kexit, close_fd, kexit_resume, kwait, waitx,
}
use g20_os_lab_project.Kernel.Priority.{setpriority}
use g20_os_lab_project.Kernel.Semaphore.{ksem_init, ksem_wait, ksem_post}
use g20_os_lab_project.Kernel.Signal.{sigsend}
use g20_os_lab_project.Kernel.Mailbox.{Copied, msgsend, msgrecv}

abbrev pub IsInUse : Kernel → ℕ → Type 0
IsInUse k j = is_unused (k.procs j).state ≡ false

abbrev pub kernel_of : Outcome → Kernel
kernel_of (returns r k) = k
kernel_of (sleeps k) = k

-- Numbers of processes in use are below the next one, and no two are the same.
pub record HasUniquePids (k : Kernel) : Type 0 where
  pub known : (i : ℕ) → IsInUse k i → (k.procs i).pid < k.next_pid
  pub distinct : (i j : ℕ) → i ≢ j → IsInUse k i → IsInUse k j → (k.procs i).pid ≢ (k.procs j).pid

-- One call of a process `me`, up to its end or its first sleep, or a step of the CPU scheduler or the
-- clock.
pub data Step (k : Kernel) : Kernel → Type 0 where
  fork : (me : ℕ) (memory : Memory) → Step k (kfork k me memory).1
  forkprio : (me : ℕ) (priority : ℤ) (memory : Memory) → Step k (kforkprio k me priority memory).1
  clone : (me fn stack arg : ℕ) (memory : Memory) → Step k (kclone k me fn stack arg memory).1
  join : (me : ℕ) (tid : ℤ) → IsInUse k me → Step k (kernel_of (kjoin k me tid))
  exit : (me : ℕ) (k' : Kernel) → kexit k me ≡ some k' → Step k k'
  exit_file : (me fd : ℕ) → Step k (close_fd k me fd)
  exit_end : (me : ℕ) (status : ℤ) → IsInUse k me → Step k (kexit_resume k me status)
  wait :
      (me addr : ℕ) (copy_ok : Bool) → IsInUse k me → Step k (kernel_of (kwait k me addr copy_ok).0)
  waitx_call : (me : ℕ) (copy_ok : Bool) → IsInUse k me → Step k (kernel_of (waitx k me copy_ok).0)
  kill : (pid : ℤ) → Step k (kkill k pid).1
  priority : (pid priority : ℤ) → Step k (setpriority k pid priority).1
  sem_init : (me : ℕ) (semid value : ℤ) → Step k (ksem_init k me semid value).1
  sem_wait : (me : ℕ) (semid : ℤ) → IsInUse k me → Step k (kernel_of (ksem_wait k me semid))
  sem_post : (me : ℕ) (semid : ℤ) → Step k (ksem_post k me semid).1
  send_signal : (pid signum : ℤ) → Step k (sigsend k pid signum).1
  send : (me : ℕ) (pid : ℤ) (copied : Copied) → Step k (msgsend k me pid copied).1
  receive : (me : ℕ) (copy_ok : Bool) → IsInUse k me → Step k (kernel_of (msgrecv k me copy_ok).0)
  give_up : (me : ℕ) → IsInUse k me → Step k (yield k me)
  schedule : (i : ℕ) → Step k (schedule_entry k i)
  awake : (me : ℕ) → Step k (tidy_up k me)
  clock : (me : ℕ) (chan : Channel) → Step k (wakeup (update_time k) me chan)

pub data Reach (k : Kernel) : Kernel → Type 0 where
  here : Reach k k
  next : {m k' : Kernel} → Reach k m → Step m k' → Reach k k'
