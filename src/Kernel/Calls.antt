-- ===== src/Kernel/Calls.antt =====
-- The system calls on processes: the functions of kernel/sysproc.c. Each reads its arguments from the
-- trapframe of the caller `me` and runs the function of kernel/proc.c.
use g20_os_lab_project.Common.{ℕ, if◌then◌else◌, ℤ, pos, Option, none, some}
use g20_os_lab_project.Kernel.Types.{Kernel, Proc}
use g20_os_lab_project.Kernel.Signal.{to_uint64, sigalarm, sigreturn, sigsend}
use g20_os_lab_project.Kernel.Sched.{kkill}
use g20_os_lab_project.Kernel.Priority.{setpriority, getpriority}
use g20_os_lab_project.Kernel.Semaphore.{ksem_init, ksem_wait, ksem_post}
use g20_os_lab_project.Kernel.Mailbox.{msgsend, msgrecv}
use g20_os_lab_project.Kernel.Family.{kfork, kforkprio, kclone, kjoin, kexit, kwait, waitx}
use g20_os_lab_project.Kernel.Machine.{
  Machine, World, Return, value, exiting, proc_of, put_proc, minus_word, int_result, outcome_result,
}
use g20_os_lab_project.Kernel.Clock.{pause, uptime}
use g20_os_lab_project.Kernel.Growth.{sbrk}
use g20_os_lab_project.Kernel.Syscall.{argint, argaddr}

abbrev pub Handler : Type 0
Handler = World → Machine → (me : ℕ) → Return

-- kexit does not come back.
abbrev pub exit_result : Machine → ℤ → Option Kernel → Return
exit_result m status none = exiting none status
exit_result m status (some k) = exiting (some (record m { kernel = k })) status

unfoldable pub sys_exit : Handler
sys_exit w m me = exit_result m (argint (proc_of m me) 0) (kexit m.kernel me)

unfoldable pub sys_getpid : Handler
sys_getpid w m me = value (to_uint64 (pos (proc_of m me).pid)) m

unfoldable pub sys_fork : Handler
sys_fork w m me = int_result m (kfork m.kernel me w.memory)

unfoldable pub sys_forkprio : Handler
sys_forkprio w m me = int_result m (kforkprio m.kernel me (argint (proc_of m me) 0) w.memory)

-- The exit status goes to user memory, which is not part of the state.
unfoldable pub sys_wait : Handler
sys_wait w m me = outcome_result m (kwait m.kernel me (argaddr (proc_of m me) 0) w.copy_ok).0

abbrev pub sbrk_result : Machine → ℕ → Option Proc → Return
sbrk_result m me none = value minus_word m
sbrk_result m me (some p) = value (proc_of m me).sz (put_proc m me p)

unfoldable pub sys_sbrk : Handler
sys_sbrk w m me =
    let p = proc_of m me in sbrk_result m me (sbrk w.grown p (argint p 0) (argint p 1))

unfoldable pub sys_pause : Handler
sys_pause w m me = pause m me (argint (proc_of m me) 0)

unfoldable pub sys_kill : Handler
sys_kill w m me = int_result m (kkill m.kernel (argint (proc_of m me) 0))

unfoldable pub sys_uptime : Handler
sys_uptime w m me = value (uptime m) m

abbrev pub proc_result : Machine → ℕ → ℤ × Proc → Return
proc_result m me (r, p) = value (to_uint64 r) (put_proc m me p)

unfoldable pub sys_sigalarm : Handler
sys_sigalarm w m me =
    let p = proc_of m me in proc_result m me (sigalarm p (argint p 0) (argaddr p 1))

unfoldable pub sigreturn_call : Handler
sigreturn_call w m me = proc_result m me (sigreturn (proc_of m me))

unfoldable pub sys_sigsend : Handler
sys_sigsend w m me =
    let p = proc_of m me in int_result m (sigsend m.kernel (argint p 0) (argint p 1))

unfoldable pub sys_clone : Handler
sys_clone w m me =
    let p = proc_of m me in
    int_result m (kclone m.kernel me (argaddr p 0) (argaddr p 1) (argaddr p 2) w.memory)

unfoldable pub sys_join : Handler
sys_join w m me = outcome_result m (kjoin m.kernel me (argint (proc_of m me) 0))

unfoldable pub sys_msgsend : Handler
sys_msgsend w m me = int_result m (msgsend m.kernel me (argint (proc_of m me) 0) w.copied)

unfoldable pub sys_msgrecv : Handler
sys_msgrecv w m me = outcome_result m (msgrecv m.kernel me w.copy_ok).0

unfoldable pub sys_sem_init : Handler
sys_sem_init w m me =
    let p = proc_of m me in int_result m (ksem_init m.kernel me (argint p 0) (argint p 1))

unfoldable pub sys_sem_wait : Handler
sys_sem_wait w m me = outcome_result m (ksem_wait m.kernel me (argint (proc_of m me) 0))

unfoldable pub sys_sem_post : Handler
sys_sem_post w m me = int_result m (ksem_post m.kernel me (argint (proc_of m me) 0))

unfoldable pub sys_setpriority : Handler
sys_setpriority w m me =
    let p = proc_of m me in int_result m (setpriority m.kernel (argint p 0) (argint p 1))

unfoldable pub sys_getpriority : Handler
sys_getpriority w m me = value (to_uint64 (getpriority m.kernel (argint (proc_of m me) 0))) m

unfoldable pub sys_waitx : Handler
sys_waitx w m me = outcome_result m (waitx m.kernel me w.copy_ok).0

-- getpinfo itself never fails; its table goes to user memory.
unfoldable pub sys_getpinfo : Handler
sys_getpinfo w m me = value (if w.copy_ok then 0 else minus_word) m
