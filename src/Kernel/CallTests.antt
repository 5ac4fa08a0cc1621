-- ===== src/Kernel/CallTests.antt =====
-- The theorems on the calls of kernel/proc.c by which processes meet, at a small process table.
use g20_os_lab_project.Common.{◌+◌, ◌≡◌, refl, pos, true, false, none, some, [], ◌∷◌, arith}
use g20_os_lab_project.Kernel.Types.{Kernel, sleeping, zero_trapframe, msg_chan, returns, sleeps}
use g20_os_lab_project.Kernel.Table.{set_proc, is_pid}
use g20_os_lab_project.Kernel.Signal.{is_live_pid}
use g20_os_lab_project.Kernel.Sched.{kkill, tidy_up}
use g20_os_lab_project.Kernel.Alloc.Fresh.{is_free}
use g20_os_lab_project.Kernel.Semaphore.{ksem_post}
use g20_os_lab_project.Kernel.Semaphore.Counting.{
  posted, Run, start, then_step, NoLostWakeup, Run-units, Run-NoLostWakeup,
}
use g20_os_lab_project.Kernel.Mailbox.{Copied, msgsend, msgrecv, msgrecv_resume}
use g20_os_lab_project.Kernel.Mailbox.Messages.{msgrecv-msgsend, msgrecv_resume-kkill}
use g20_os_lab_project.Kernel.Family.{
  Memory, kfork, kforkprio, fork_with_priority, kjoin_resume, kwait_resume, kwait, kjoin,
}
use g20_os_lab_project.Kernel.Family.Birth.{IsBorn, kforkprio_lem}
use g20_os_lab_project.Kernel.Samples.{
  process, table, kernel, Found-0, Found-1, small_table, small_kernel, thread_kernel,
}

abbrev hello : Copied
hello = record { success = true; buffer = 104 ∷ 105 ∷ [] }

msgrecv-msgsend_example :
    let (r, k1) = msgsend kernel 0 (pos 2) hello in
    (r ≡ pos 0)
    × ((k2 : Kernel) × (msgrecv k1 1 true ≡ (returns (pos 0) k2, some (104 ∷ 105 ∷ [])))
        × ((k2.procs 1).msg_flag ≡ false))
msgrecv-msgsend_example =
    msgrecv-msgsend kernel 0 1 (pos 2) hello (Found-1 (is_live_pid (pos 2)) table refl refl) refl
      refl

-- Process 1 waits for a message.
abbrev receiver : Kernel
receiver = set_proc kernel 0 (record (process sleeping 1) { chan = msg_chan 0 })

msgrecv_resume-kkill_example :
    let (r, k1) = kkill receiver (pos 1) in
    (r ≡ pos 0)
    × ((k1.procs 0).killed ≡ true)
    × ((k2 : Kernel) × (msgrecv_resume k1 0 true ≡ (sleeps k2, none))
        × ((k2.procs 0).killed ≡ true)
        × ((k2.procs 0).state ≡ sleeping)
        × ((k2.procs 0).chan ≡ msg_chan 0))
msgrecv_resume-kkill_example =
    msgrecv_resume-kkill receiver 0 (pos 1) true
      (Found-0 (λ j p. is_pid p.pid (pos 1)) receiver.procs refl) refl

-- Process 1 posts.
one_post : Run 3 kernel 1 0 (ksem_post kernel 0 (pos 3)).1
unfolding ksem_post
one_post = then_step 0 0 1 0 kernel _ start (posted 0 _ refl refl)

Run-units_example : ((ksem_post kernel 0 (pos 3)).1.semtable 3).value + 0 ≡ 0 + 1
Run-units_example =
    Run-units 3 1 0 kernel (ksem_post kernel 0 (pos 3)).1 (omega arith) refl one_post

Run-NoLostWakeup_example : NoLostWakeup 3 (ksem_post kernel 0 (pos 3)).1
Run-NoLostWakeup_example =
    Run-NoLostWakeup 3 1 0 kernel (ksem_post kernel 0 (pos 3)).1 (omega arith) refl one_post
      (λ j h w. refl)

abbrev enough : Memory
enough = record { tf_ok = true; pagetable = some 5; copy_ok = true }

kforkprio_example :
    let (r, k') = kforkprio small_kernel 0 (pos 80) enough in
    (r ≡ pos 4) × IsBorn small_kernel k' 0 1 80 (record zero_trapframe { a0 = 0 }) false
kforkprio_example =
    kforkprio_lem small_kernel 0 80 5 1 (omega arith) (Found-1 is_free small_table refl refl)

kjoin_resume_one : kjoin_resume thread_kernel 0 (pos 2) ≡ kjoin (tidy_up thread_kernel 0) 0 (pos 2)
unfolding kjoin_resume
kjoin_resume_one = refl

kwait_resume_one : kwait_resume kernel 0 64 true ≡ kwait (tidy_up kernel 0) 0 64 true
unfolding kwait_resume
kwait_resume_one = refl

kfork_small : kfork small_kernel 0 enough ≡ fork_with_priority small_kernel 0 50 enough
unfolding kfork
kfork_small = refl
