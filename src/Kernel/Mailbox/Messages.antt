-- ===== src/Kernel/Mailbox/Messages.antt =====
-- What a message goes through: msgsend, then msgrecv. (kernel/proc.c)
use g20_os_lab_project.Common.{
  ℕ, ◌≡◌, refl, ap, ◌∙◌, Bool, true, false, if◌then◌else◌, none, some, ℤ, pos, minus_one, arith,
  update_self,
}
use g20_os_lab_project.Kernel.Types.{
  Kernel, Proc, returns, sleeps, msg_chan, runnable, sleeping, nproc,
}
use g20_os_lab_project.Kernel.Table.{set_proc, Found, find_proc-Found, is_sleeping, is_pid}
use g20_os_lab_project.Kernel.Signal.{is_live_pid}
use g20_os_lab_project.Kernel.Sched.{sleep_on, tidy_up, wakeup-procs, kkill, kkill-Found}
use g20_os_lab_project.Kernel.Alloc.{zero_buf}
use g20_os_lab_project.Kernel.Mailbox.{Copied, send_at, msgsend, msgrecv, msgrecv_resume}

-- A message that was sent to the entry `i`: the mailbox after it.
filled :
    (k : Kernel) (me i : ℕ) (pid : ℤ) (copied : Copied)
    → Found (is_live_pid pid) k.procs 0 nproc i
    → (k.procs i).msg_flag ≡ false
    → copied.success ≡ true
    → let (r, k') = msgsend k me pid copied in
      (r ≡ pos 0) × ((k'.procs i).msg_flag ≡ true) × ((k'.procs i).msg_buf ≡ copied.buffer)
unfolding msgsend send_at
filled k me i pid copied f empty ok =
    let (s, e) = wakeup-procs (set_proc k i posted) me (msg_chan i) i in
    rw (find_proc-Found (is_live_pid pid) k i f, empty, ok)
      (
        refl,
        ap Proc.msg_flag e ∙ ap Proc.msg_flag (update_self k.procs i posted),
        ap Proc.msg_buf e ∙ ap Proc.msg_buf (update_self k.procs i posted),
      )
  where
    posted : Proc
    posted = record (k.procs i) { msg_buf = copied.buffer; msg_flag = true }

-- A message that msgsend puts into an empty mailbox is what the receiver gets: msgsend returns 0, and
-- the receiver's next msgrecv, where copyout succeeds, does not sleep but returns 0, gives exactly the
-- bytes that copyinstr read, and leaves the mailbox empty.
pub msgrecv-msgsend :
    (k : Kernel) (me i : ℕ) (pid : ℤ) (copied : Copied)
    → Found (is_live_pid pid) k.procs 0 nproc i
    → (k.procs i).msg_flag ≡ false
    → copied.success ≡ true
    → let (r, k1) = msgsend k me pid copied in
      (r ≡ pos 0)
      × ((k2 : Kernel) × (msgrecv k1 i true ≡ (returns (pos 0) k2, some copied.buffer))
          × ((k2.procs i).msg_flag ≡ false))
unfolding msgrecv
msgrecv-msgsend k me i pid copied f empty ok =
    let (r, flag, buf) = filled k me i pid copied f empty ok in
    let k1 = (msgsend k me pid copied).1 in
    (
      r,
      (
        set_proc k1 i (record (k1.procs i) { msg_flag = false; msg_buf = zero_buf }),
        rw (flag, buf) refl,
        ap Proc.msg_flag
            (update_self k1.procs i (record (k1.procs i) { msg_flag = false; msg_buf = zero_buf })),
      ),
    )

-- A full mailbox takes no second message: msgsend returns -1 and changes nothing.
pub msgsend_full :
    (k : Kernel) (me i : ℕ) (pid : ℤ) (copied : Copied)
    → Found (is_live_pid pid) k.procs 0 nproc i
    → (k.procs i).msg_flag ≡ true
    → msgsend k me pid copied ≡ (minus_one, k)
unfolding msgsend send_at
msgsend_full k me i pid copied f full = rw (find_proc-Found (is_live_pid pid) k i f, full) refl

back_to_sleep :
    (k : Kernel) (i : ℕ) (copy_ok : Bool)
    → (k.procs i).msg_flag ≡ false
    → (k.procs i).killed ≡ true
    → (k2 : Kernel) × (msgrecv_resume k i copy_ok ≡ (sleeps k2, none))
      × ((k2.procs i).killed ≡ true)
      × ((k2.procs i).state ≡ sleeping)
      × ((k2.procs i).chan ≡ msg_chan i)
unfolding msgrecv_resume msgrecv tidy_up sleep_on
back_to_sleep k i copy_ok empty marked =
    (sleep_on (tidy_up k i) i (msg_chan i), ground arith, ground arith, ground arith, ground arith)

-- kkill of a process with an empty mailbox returns 0 and marks it as killed; when that process
-- goes on in msgrecv, it sleeps on its mailbox again, still marked.
pub msgrecv_resume-kkill :
    (k : Kernel) (i : ℕ) (pid : ℤ) (copy_ok : Bool)
    → Found (λ j p. is_pid p.pid pid) k.procs 0 nproc i
    → (k.procs i).msg_flag ≡ false
    → let (r, k1) = kkill k pid in
      (r ≡ pos 0)
      × ((k1.procs i).killed ≡ true)
      × ((k2 : Kernel) × (msgrecv_resume k1 i copy_ok ≡ (sleeps k2, none))
          × ((k2.procs i).killed ≡ true)
          × ((k2.procs i).state ≡ sleeping)
          × ((k2.procs i).chan ≡ msg_chan i))
msgrecv_resume-kkill k i pid copy_ok f empty = rw (kkill-Found k pid i f) (
  refl,
  marked,
  back_to_sleep
      (set_proc k i (record (k.procs i) {
        killed = true;
        state = if is_sleeping (k.procs i).state then runnable else (k.procs i).state;
      }))
      i copy_ok (ground arith) marked,
)
  where
    marked :
        ((set_proc k i (record (k.procs i) {
          killed = true;
          state = if is_sleeping (k.procs i).state then runnable else (k.procs i).state;
        })).procs
          i).killed
        ≡ true
    marked = ground arith
