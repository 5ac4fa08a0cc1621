-- ===== src/Kernel/TrapTests.antt =====
-- The theorems on traps, system calls and the clock (kernel/trap.c, kernel/syscall.c,
-- kernel/sysproc.c), at a small process table.
use g20_os_lab_project.Kernel.Family.{kexit_resume}
use g20_os_lab_project.Common.{
  ℕ, ◌-◌, ◌^◌, ◌<◌, ◌≡◌, ◌≢◌, refl, pos, negsuc, true, false, none, some, [], arith, to_int32,
  minus_one,
}
use g20_os_lab_project.Kernel.Types.{Procstate, running, zero_trapframe, other_chan, zombie}
use g20_os_lab_project.Kernel.Sched.{wakeup, wakeup-procs}
use g20_os_lab_project.Kernel.Machine.{Machine, World, value, blocked, proc_of, minus_word}
use g20_os_lab_project.Kernel.Clock.{pause}
use g20_os_lab_project.Kernel.Clock.Pausing.{pause_ticks, pause_lem}
use g20_os_lab_project.Kernel.Growth.{sbrk}
use g20_os_lab_project.Kernel.Growth.Sizes.{sbrk_lem}
use g20_os_lab_project.Kernel.Syscall.{fetchaddr}
use g20_os_lab_project.Kernel.Trap.{
  Devices, Cause, Hart, usertrap, usertrap_resume, timer_interrupt, user, yields, usertrapret,
  set_a0, set_epc, kerneltrap, devintr,
}
use g20_os_lab_project.Kernel.Trap.Leaving.{Ends, usertrap-killed}
use g20_os_lab_project.Kernel.Trap.Alarm.{IsRung, timed, usertrap-alarm}
use g20_os_lab_project.Kernel.Trap.Unknown.{usertrap-handler-none}
use g20_os_lab_project.Kernel.Samples.{process, table, kernel}

abbrev machine : Machine
machine = record { kernel = kernel; ticks = 2 ^ 32 - 1 }

-- `ticks` wraps round during the pause.
pause_example :
    (m0 : Machine) × (pause machine 1 (pos 3) ≡ blocked m0)
    × ((j : ℕ) → j < 3 → (m' : Machine) × (pause_ticks j m0 0 1 (2 ^ 32 - 1) 3 ≡ blocked m'))
    × ((m' : Machine) × (pause_ticks 3 m0 0 1 (2 ^ 32 - 1) 3 ≡ value 0 m') × (m'.ticks ≡ 2))
pause_example = pause_lem machine 0 1 2 refl (omega arith) (omega arith)

sbrk_example : sbrk true (process running 1) (negsuc 4999) (pos 1) ≡ some (process running 1)
sbrk_example = sbrk_lem true (process running 1) (negsuc 4999) (pos 1) (omega arith) (omega arith)

abbrev outside : World
outside = record {
  memory = record { tf_ok = true; pagetable = some 5; copy_ok = true };
  copied = record { success = true; buffer = [] };
  grown = true;
  copy_ok = true;
  file_call = λ n m me. value 0 m;
}

abbrev hart : Hart
hart = record { satp = 1; kstack_top = 2; usertrap_addr = 3; hartid = 0 }

-- The disk wakes up a process that waits for it.
abbrev devices : Devices
devices = record {
  cpu = 0;
  irq = 1;
  uartintr = λ k. k;
  virtio_disk_intr = λ k. wakeup k 64 (other_chan 9);
}

abbrev killed_machine : Machine
killed_machine = record machine {
  kernel = record kernel { procs = λ j. record (table j) { killed = true } };
}

usertrap-killed_example :
    Ends (
      usertrap hart outside devices
        (record { scause = 8; sepc = 96; vmfault = false })
        killed_machine
        1)
    × (((kexit_resume kernel 1 minus_one).procs 1).state ≡ zombie)
    × (((kexit_resume kernel 1 minus_one).procs 1).xstate ≡ minus_one)
usertrap-killed_example =
    usertrap-killed hart outside devices (record { scause = 8; sepc = 96; vmfault = false })
      killed_machine 1 kernel refl (λ e. absurd (omega (arith, e))) refl
      (λ k. (refl, λ j. ((k.procs j).state, refl)))
      (λ k. (unfold wakeup in refl, wakeup-procs k 64 (other_chan 9)))

abbrev alarm_machine : Machine
alarm_machine = record machine {
  kernel = record kernel { procs = λ j. record (table j) { alarm_elapsed = 1 } };
}

abbrev timer : Cause
timer = record { scause = timer_interrupt; sepc = 96; vmfault = false }

usertrap-alarm_example :
    (m1 : Machine) × (usertrap hart outside devices timer alarm_machine 0 ≡ yields m1)
    × ((m2 : Machine) (s : Procstate) (x y z : ℕ)
        → proc_of m2 0 ≡ record (timed (proc_of m1 0) x y z) { state = s }
        → (m3 : Machine) × (usertrap_resume hart m2 0 ≡ user m3)
          × IsRung (proc_of alarm_machine 0) (proc_of m3 0) zero_trapframe 96)
usertrap-alarm_example =
    usertrap-alarm hart outside devices timer alarm_machine 0 zero_trapframe refl refl refl refl
      refl refl refl

-- The register a7 holds 0, which no system call has.
usertrap-handler-none_example :
    (m' : Machine) × (usertrap hart outside devices
        (record { scause = 8; sepc = 96; vmfault = false })
        machine
        0
      ≡ user m')
    × (proc_of m' 0 ≡ usertrapret hart (set_a0 minus_word (set_epc 100 (process running 1))))
    × ((j : ℕ) → j ≢ 0 → proc_of m' j ≡ table j)
    × (m'.ticks ≡ 2 ^ 32 - 1)
unfolding to_int32
usertrap-handler-none_example =
    usertrap-handler-none hart outside devices (record { scause = 8; sepc = 96; vmfault = false })
      machine 0 refl refl refl refl

-- The sum of address and size wraps round: the first test of fetchaddr stops it.
fetchaddr_top : fetchaddr (process running 1) (2 ^ 64 - 8) (some 7) ≡ none
unfolding fetchaddr
fetchaddr_top = refl

fetchaddr_last : fetchaddr (process running 1) 4088 (some 7) ≡ some 7
unfolding fetchaddr
fetchaddr_last = refl

kerneltrap_unknown : kerneltrap devices machine none 2 ≡ none
unfolding kerneltrap devintr
kerneltrap_unknown = refl
