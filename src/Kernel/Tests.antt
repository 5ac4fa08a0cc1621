-- ===== src/Kernel/Tests.antt =====
-- The theorems on single calls of kernel/proc.c, at a small process table.
use g20_os_lab_project.Common.{to_int32, ◌≡◌, refl, pos, true, false, some, arith}
use g20_os_lab_project.Kernel.Types.{Proc, unused, runnable, running, zero_trapframe}
use g20_os_lab_project.Kernel.Table.{is_pid}
use g20_os_lab_project.Kernel.Signal.{signalcheck, sys_sigreturn, to_uint64}
use g20_os_lab_project.Kernel.Signal.Delivery.{sys_sigreturn-signalcheck}
use g20_os_lab_project.Kernel.Sched.{
  kkill, wakeup, yield, schedule_entry, setkilled, update_time, time_one, getpinfo,
}
use g20_os_lab_project.Kernel.Alloc.{allocproc, procinit}
use g20_os_lab_project.Kernel.Alloc.Fresh.{is_free, allocproc-kkill}
use g20_os_lab_project.Kernel.Semaphore.{ksem_init}
use g20_os_lab_project.Kernel.Samples.{process, kernel, Found-1, small_table, small_kernel}

allocproc-kkill_example :
    let (r, k1) = kkill small_kernel (pos 0) in
    let (np, k2) = allocproc k1 true (some 5) in
    (r ≡ pos 0) × (np ≡ some 1) × ((k2.procs 1).killed ≡ true)
allocproc-kkill_example =
    allocproc-kkill small_kernel 5 1 (Found-1 is_free small_table refl refl)
      (Found-1 (λ j p. is_pid p.pid (pos 0)) small_table refl refl)

-- A process with a pending signal.
abbrev signalled : Proc
signalled = record (process running 1) { pending_signal = 9 }

sys_sigreturn-signalcheck_example :
    let q = signalcheck signalled in
    let r = sys_sigreturn (record q { trapframe = some (record zero_trapframe { sp = 5 }) }) in
    (q.trapframe ≡ some (record zero_trapframe { epc = 100; a0 = 9 }))
    × (q.signal_inflight ≡ true)
    × (q.pending_signal ≡ 0)
    × (r.trapframe ≡ some (record zero_trapframe { a0 = to_uint64 (to_int32 0) }))
    × (r.signal_inflight ≡ false)
    × (r.active_signal ≡ 0)
sys_sigreturn-signalcheck_example =
    sys_sigreturn-signalcheck signalled zero_trapframe (record zero_trapframe { sp = 5 }) refl refl
      refl (λ e. absurd (omega (arith, e)))

-- Single calls.

yield_small : ((yield small_kernel 0).procs 0).state ≡ runnable
unfolding yield
yield_small = refl

schedule_entry_idle : schedule_entry small_kernel 0 ≡ small_kernel
unfolding schedule_entry
schedule_entry_idle = refl

setkilled_one : (setkilled (process running 1)).killed ≡ true
unfolding setkilled
setkilled_one = refl

update_time_one : ((update_time small_kernel).procs 0).rtime ≡ 4
unfolding update_time time_one
update_time_one = refl

getpinfo_one : (getpinfo small_kernel 0).runtime ≡ 3
unfolding getpinfo
getpinfo_one = refl

procinit_one : ((procinit kernel).procs 0).state ≡ unused
unfolding procinit
procinit_one = refl

ksem_init_one : ((ksem_init kernel 0 (pos 3) (pos 5)).1.semtable 3).value ≡ 5
unfolding ksem_init wakeup
ksem_init_one = refl
