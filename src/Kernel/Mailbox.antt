-- ===== src/Kernel/Mailbox.antt =====
-- The mailboxes: msgsend and msgrecv of kernel/proc.c. What copyinstr reads from user memory (whether
-- it succeeds, and the buffer after it) and whether copyout succeeds are arguments. msgrecv is cut
-- where it sleeps: after a wakeup it tests the mailbox again.
pub mod Messages
use g20_os_lab_project.Common.{
  ℕ, Bool, true, false, not, ◌&&◌, if◌then◌else◌, Option, none, some, ℤ, pos, minus_one, List, [],
}
use g20_os_lab_project.Kernel.Types.{Kernel, Proc, Outcome, returns, sleeps, msg_chan}
use g20_os_lab_project.Kernel.Table.{find_proc, set_proc}
use g20_os_lab_project.Kernel.Signal.{is_live_pid}
use g20_os_lab_project.Kernel.Sched.{sleep_on, tidy_up, wakeup}
use g20_os_lab_project.Kernel.Alloc.{zero_buf}

-- What copyinstr did to the mailbox's buffer.
pub record Copied : Type 0 where
  pub success : Bool
  pub buffer : List ℕ

unfoldable pub send_at : Kernel → (me : ℕ) → Copied → Option ℕ → ℤ × Kernel
send_at k me copied none = (minus_one, k)
send_at k me copied (some i) =
    if (k.procs i).msg_flag
    then (minus_one, k)
    else if copied.success
    then (
      pos 0,
      wakeup (set_proc k i (record (k.procs i) { msg_buf = copied.buffer; msg_flag = true })) me
          (msg_chan i),
    )
    else (minus_one, set_proc k i (record (k.procs i) { msg_buf = copied.buffer }))

unfoldable pub msgsend : Kernel → (me : ℕ) → ℤ → Copied → ℤ × Kernel
unfolding send_at
msgsend k me pid copied = send_at k me copied (find_proc (is_live_pid pid) k)

-- The outcome, and what copyout wrote to the user's buffer.
unfoldable pub msgrecv : Kernel → (me : ℕ) → (copy_ok : Bool) → Outcome × Option (List ℕ)
msgrecv k me copy_ok =
    if (k.procs me).msg_flag
    then if copy_ok
      then (
        returns (pos 0)
            (set_proc k me (record (k.procs me) { msg_flag = false; msg_buf = zero_buf })),
        some (k.procs me).msg_buf,
      )
      else (returns minus_one k, none)
    else (sleeps (sleep_on k me (msg_chan me)), none)

unfoldable pub msgrecv_resume : Kernel → (me : ℕ) → (copy_ok : Bool) → Outcome × Option (List ℕ)
unfolding msgrecv
msgrecv_resume k me copy_ok = msgrecv (tidy_up k me) me copy_ok
