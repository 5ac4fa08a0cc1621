-- ===== src/Kernel/Trap.antt =====
-- Entries into the kernel from user mode: syscall of kernel/syscall.c; devintr, usertrap, usertrapret
-- and kerneltrap of kernel/trap.c. usertrap is cut where the process gives up the CPU. The drivers
-- that devintr calls are an argument, which holds what they do to the kernel.
pub mod Leaving
pub mod Alarm
pub mod Unknown
use g20_os_lab_project.Common.{
  ℕ, zero, suc, ◌+◌, ◌*◌, ◌%◌, ◌^◌, ◌==◌, ◌&&◌, ◌||◌, if◌then◌else◌, update, ℤ, pos, negsuc,
  minus_one, Bool, true, false, Option, none, some, List, [], ◌∷◌, get_elem?, to_int32,
}
use g20_os_lab_project.Kernel.Types.{Kernel, Proc, Trapframe}
use g20_os_lab_project.Kernel.Table.{set_proc}
use g20_os_lab_project.Kernel.Signal.{trapframe_of, signaltick, signalcheck}
use g20_os_lab_project.Kernel.Sched.{killed, setkilled, yield}
use g20_os_lab_project.Kernel.Family.{kexit}
use g20_os_lab_project.Kernel.Machine.{
  Machine, World, Return, value, blocked, exiting, proc_of, put_proc, minus_word,
}
use g20_os_lab_project.Kernel.Clock.{clockintr}
use g20_os_lab_project.Kernel.Syscall.{a7_offset}
use g20_os_lab_project.Kernel.Calls.{
  Handler, sys_exit, sys_getpid, sys_fork, sys_forkprio, sys_wait, sys_sbrk, sys_pause, sys_kill,
  sys_uptime, sys_sigalarm, sigreturn_call, sys_sigsend, sys_clone, sys_join, sys_msgsend,
  sys_msgrecv, sys_sem_init, sys_sem_wait, sys_sem_post, sys_setpriority, sys_getpriority,
  sys_waitx, sys_getpinfo,
}

abbrev pub file : ℕ → Option Handler
file n = some (λ w. w.file_call n)

-- The table of handlers; the number 0 has none.
abbrev pub syscalls : List (Option Handler)
syscalls =
    none
    ∷ some sys_fork
    ∷ some sys_exit
    ∷ some sys_wait
    ∷ file 4
    ∷ file 5
    ∷ some sys_kill
    ∷ file 7
    ∷ file 8
    ∷ file 9
    ∷ file 10
    ∷ some sys_getpid
    ∷ some sys_sbrk
    ∷ some sys_pause
    ∷ some sys_uptime
    ∷ file 15
    ∷ file 16
    ∷ file 17
    ∷ file 18
    ∷ file 19
    ∷ file 20
    ∷ file 21
    ∷ some sys_sigalarm
    ∷ some sigreturn_call
    ∷ some sys_sigsend
    ∷ some sys_clone
    ∷ some sys_join
    ∷ some sys_msgsend
    ∷ some sys_msgrecv
    ∷ some sys_sem_init
    ∷ some sys_sem_wait
    ∷ some sys_sem_post
    ∷ some sys_forkprio
    ∷ some sys_setpriority
    ∷ some sys_getpriority
    ∷ some sys_waitx
    ∷ some sys_getpinfo
    ∷ []

abbrev pub entry : Option (Option Handler) → Option Handler
entry none = none
entry (some h) = h

abbrev pub handler : ℤ → Option Handler
handler (pos n) = entry (get_elem? syscalls n)
handler (negsuc n) = none

-- `p->trapframe->a0 = word`.
abbrev pub set_a0 : ℕ → Proc → Proc
set_a0 word p = record p { trapframe = some (record (trapframe_of p) { a0 = word }) }

abbrev pub store_result : ℕ → Return → Return
store_result me (value word m) = value word (put_proc m me (set_a0 word (proc_of m me)))
store_result me (blocked m) = blocked m
store_result me (exiting m status) = exiting m status

abbrev pub call_number : Proc → ℤ
call_number p = to_int32 ((trapframe_of p).others a7_offset)

-- What syscall makes of the handler that it looked up.
unfoldable pub run_handler : World → Machine → (me : ℕ) → Option Handler → Return
run_handler w m me none = value minus_word (put_proc m me (set_a0 minus_word (proc_of m me)))
run_handler w m me (some h) = store_result me (h w m me)

unfoldable pub syscall : World → Machine → (me : ℕ) → Return
unfolding run_handler
syscall w m me = run_handler w m me (handler (call_number (proc_of m me)))

-- What comes from outside at an interrupt: the CPU, the device that the interrupt controller names,
-- and what its driver does.
pub record Devices : Type 0 where
  pub cpu : ℕ
  pub irq : ℕ
  pub uartintr : Kernel → Kernel
  pub virtio_disk_intr : Kernel → Kernel

-- Causes of a trap, by scause: 8, the two interrupts, and the others.
abbrev pub external_interrupt : ℕ
external_interrupt = 0x8000000000000009

abbrev pub timer_interrupt : ℕ
timer_interrupt = 0x8000000000000005

-- UART0_IRQ is 10 and VIRTIO0_IRQ is 1. The number is the value that devintr returns.
unfoldable pub devintr : Devices → Machine → (me scause : ℕ) → ℕ × Machine
devintr d m me scause =
    if scause == external_interrupt
    then (
      1,
      if d.irq == 10
          then record m { kernel = d.uartintr m.kernel }
          else if d.irq == 1
          then record m { kernel = d.virtio_disk_intr m.kernel }
          else m,
    )
    else if scause == timer_interrupt
    then (2, clockintr m d.cpu me)
    else (0, m)

-- How usertrap goes on: to user mode, to another process (yield), asleep in a system call, or in kexit
-- with a status, from which it does not come back (`none` after a panic).
pub data Next : Type 0 where
  user : Machine → Next
  yields : Machine → Next
  sleeps_in_call : Machine → Next
  leaving : Option Machine → ℤ → Next

-- The state of the trap: the hardware's registers, and whether vmfault finds a page.
pub record Cause : Type 0 where
  pub scause : ℕ
  pub sepc : ℕ
  pub vmfault : Bool

abbrev pub exit_next : Machine → Option Kernel → Next
exit_next m none = leaving none minus_one
exit_next m (some k) = leaving (some (record m { kernel = k })) minus_one

unfoldable pub exit_now : Machine → (me : ℕ) → Next
exit_now m me = exit_next m (kexit m.kernel me)

-- usertrapret writes what the next trap needs into the trapframe.
pub record Hart : Type 0 where
  pub satp : ℕ
  pub kstack_top : ℕ
  pub usertrap_addr : ℕ
  pub hartid : ℕ

unfoldable pub usertrapret : Hart → Proc → Proc
usertrapret h p = record p {
  trapframe = some (record (trapframe_of p) {
    others =
        update
          (update (update (update (trapframe_of p).others 0 h.satp) 8 h.kstack_top) 16
            h.usertrap_addr)
          32 h.hartid;
  });
}

-- The end of usertrap: a signal is delivered, and the process goes back to user mode.
unfoldable pub usertrap_resume : Hart → Machine → (me : ℕ) → Next
unfolding usertrapret
usertrap_resume h m me = user (put_proc m me (usertrapret h (signalcheck (proc_of m me))))

-- From the second test of killed on. `which_dev` is 2 for a timer interrupt.
unfoldable pub usertrap_rest : Hart → Machine → (me which_dev : ℕ) → Next
unfolding usertrap_resume exit_now
usertrap_rest h m me which_dev =
    if killed (proc_of m me)
    then exit_now m me
    else if which_dev == 2
    then yields (record m { kernel = yield m.kernel me })
    else usertrap_resume h m me

unfoldable pub after_call : Hart → (me : ℕ) → Return → Next
after_call h me (value word m) = usertrap_rest h m me 0
after_call h me (blocked m) = sleeps_in_call m
after_call h me (exiting m status) = leaving m status

abbrev pub set_epc : ℕ → Proc → Proc
set_epc pc p = record p { trapframe = some (record (trapframe_of p) { epc = pc }) }

-- The system call branch.
unfoldable pub trap_call : Hart → World → Machine → (me sepc : ℕ) → Next
trap_call h w m me sepc =
    if killed (proc_of m me)
    then exit_now m me
    else after_call h me
        (syscall w (put_proc m me (set_epc ((sepc + 4) % 2 ^ 64) (proc_of m me))) me)

-- The other branches: `which_dev` is what devintr returned.
unfoldable pub trap_other : Hart → Cause → Machine → (me which_dev : ℕ) → Next
trap_other h c m me which_dev =
    if which_dev == 0
    then if (c.scause == 15 || c.scause == 13) && c.vmfault
      then usertrap_rest h m me 0
      else usertrap_rest h (put_proc m me (setkilled (proc_of m me))) me 0
    else usertrap_rest h (if which_dev == 2 then put_proc m me (signaltick (proc_of m me)) else m)
        me which_dev

unfoldable pub usertrap : Hart → World → Devices → Cause → Machine → (me : ℕ) → Next
usertrap h w d c m0 me =
    let m = put_proc m0 me (set_epc c.sepc (proc_of m0 me)) in
    if c.scause == 8
    then trap_call h w m me c.sepc
    else let (which_dev, m') = devintr d m me c.scause in trap_other h c m' me which_dev

-- A trap in the kernel: `running` is the process of the CPU, if there is one. `none` is a panic.
unfoldable pub kerneltrap : Devices → Machine → (running : Option ℕ) → (scause : ℕ) → Option Machine
kerneltrap d m none scause =
    let (which_dev, m') = devintr d m 64 scause in if which_dev == 0 then none else some m'
kerneltrap d m (some me) scause =
    let (which_dev, m') = devintr d m me scause in
    if which_dev == 0
    then none
    else some (if which_dev == 2 then record m' { kernel = yield m'.kernel me } else m')
