-- ===== src/Kernel/Trap/Leaving.antt =====
-- A killed process does not come back to user mode from usertrap. (kernel/trap.c)
use g20_os_lab_project.Common.{
  ℕ, ◌≡◌, ◌≢◌, refl, ap, ◌∙◌, true, false, minus_one, some, arith, ◌==◌, ◌&&◌, ◌||◌, Bool-cases,
  inl, inr, update_self, ==_of_ne,
}
use g20_os_lab_project.Kernel.Types.{Kernel, Proc, Procstate, zombie}
use g20_os_lab_project.Kernel.Signal.{signaltick}
use g20_os_lab_project.Kernel.Sched.{killed, setkilled, wakeup, wakeup-procs, update_time, time_one}
use g20_os_lab_project.Kernel.Family.{has_parent, kexit, kexit_resume}
use g20_os_lab_project.Kernel.Family.Birth.{kexit_resume_lem}
use g20_os_lab_project.Kernel.Machine.{Machine, World, ticks_chan, proc_of, put_proc}
use g20_os_lab_project.Kernel.Clock.{clockintr}
use g20_os_lab_project.Kernel.Trap.{
  Devices, Cause, Hart, Next, leaving, devintr, usertrap, trap_call, trap_other, usertrap_rest,
  exit_now, set_epc, external_interrupt, timer_interrupt,
}

-- A driver only changes states of processes: it wakes some up.
abbrev pub WakesOnly : (Kernel → Kernel) → Type 0
WakesOnly f =
    (k : Kernel)
    → ((f k).init_proc ≡ k.init_proc)
      × ((j : ℕ) → (s : Procstate) × ((f k).procs j ≡ record (k.procs j) { state = s }))

-- What makes usertrap end in kexit: a killed process that is not init.
record IsDoomed (m : Machine) (me : ℕ) : Type 0 where
  dead : (proc_of m me).killed ≡ true
  not_init : me ≢ m.kernel.init_proc

-- The trap ends in kexit(-1).
abbrev pub Ends : Next → Type 0
Ends n = (m : Machine) × (n ≡ leaving (some m) minus_one)

exit_now-Ends : (m : Machine) (me : ℕ) → IsDoomed m me → Ends (exit_now m me)
unfolding exit_now kexit
exit_now-Ends m me d = (m, rw (==_of_ne me m.kernel.init_proc d.not_init) refl)

usertrap_rest-Ends :
    (h : Hart) (m : Machine) (me which_dev : ℕ)
    → IsDoomed m me
    → Ends (usertrap_rest h m me which_dev)
unfolding usertrap_rest killed
usertrap_rest-Ends h m me which_dev d = rw (d.dead, usertrap_rest) (exit_now-Ends m me d)

-- A write to the entry of the process that keeps the flag.
put_proc-IsDoomed :
    (m : Machine) (me : ℕ) (p : Proc)
    → IsDoomed m me
    → p.killed ≡ true
    → IsDoomed (put_proc m me p) me
put_proc-IsDoomed m me p d dead = record {
  dead = ap (λ (q : Proc). q.killed) (update_self m.kernel.procs me p) ∙ dead;
  not_init = d.not_init;
}

signaltick_same : (p : Proc) → (signaltick p).killed ≡ p.killed
unfolding signaltick
signaltick_same p = ground arith

update_time_same : (k : Kernel) (j : ℕ) → ((update_time k).procs j).killed ≡ (k.procs j).killed
unfolding update_time time_one
update_time_same k j = ground arith

WakesOnly-IsDoomed :
    (f : Kernel → Kernel) (m : Machine) (me : ℕ)
    → WakesOnly f
    → IsDoomed m me
    → IsDoomed (record m { kernel = f m.kernel }) me
WakesOnly-IsDoomed f m me wakes d =
    let (same_init, procs) = wakes m.kernel in
    let (s, e) = procs me in
    record { dead = ap (λ (q : Proc). q.killed) e ∙ d.dead; not_init = rw same_init d.not_init }

clockintr-IsDoomed : (m : Machine) (cpu me : ℕ) → IsDoomed m me → IsDoomed (clockintr m cpu me) me
unfolding clockintr
clockintr-IsDoomed m cpu me d = elim (Bool-cases (cpu == 0)) [
  | inr other ↦ rw other d
  | inl first ↦ rw first (ticked d)
]
  where
    ticked : IsDoomed m me → IsDoomed (clockintr m 0 me) me
    ticked d =
        let (s, e) = wakeup-procs (update_time m.kernel) me ticks_chan me in
        let dead = update_time_same m.kernel me in
        record {
          dead = ap (λ (q : Proc). q.killed) e ∙ dead ∙ d.dead;
          not_init = unfold wakeup update_time in d.not_init;
        }

devintr-IsDoomed :
    (v : Devices) (m : Machine) (me scause : ℕ)
    → WakesOnly v.uartintr
    → WakesOnly v.virtio_disk_intr
    → IsDoomed m me
    → IsDoomed (devintr v m me scause).1 me
unfolding devintr
devintr-IsDoomed v m me scause uart disk d = elim (Bool-cases (scause == external_interrupt)) [
  | inl external ↦ rw external (elim (Bool-cases (v.irq == 10)) [
    | inl is_uart ↦ rw is_uart (WakesOnly-IsDoomed v.uartintr m me uart d)
    | inr not_uart ↦ rw not_uart (elim (Bool-cases (v.irq == 1)) [
      | inl is_disk ↦ rw is_disk (WakesOnly-IsDoomed v.virtio_disk_intr m me disk d)
      | inr not_disk ↦ rw not_disk d
    ])
  ])
  | inr not_external ↦ rw not_external (elim (Bool-cases (scause == timer_interrupt)) [
    | inl timer ↦ rw timer (clockintr-IsDoomed m v.cpu me d)
    | inr no_timer ↦ rw no_timer d
  ])
]

trap_call-Ends :
    (h : Hart) (w : World) (m : Machine) (me sepc : ℕ)
    → IsDoomed m me
    → Ends (trap_call h w m me sepc)
unfolding trap_call killed
trap_call-Ends h w m me sepc d = rw (d.dead, trap_call) (exit_now-Ends m me d)

trap_other-Ends :
    (h : Hart) (c : Cause) (m : Machine) (me which_dev : ℕ)
    → IsDoomed m me
    → Ends (trap_other h c m me which_dev)
unfolding trap_other setkilled
trap_other-Ends h c m me which_dev d = elim (Bool-cases (which_dev == 0)) [
  | inl none_known ↦
      rw none_known (elim (Bool-cases ((c.scause == 15 || c.scause == 13) && c.vmfault)) [
        | inl lazy ↦ rw lazy (usertrap_rest-Ends h m me 0 d)
        | inr unexpected ↦ rw unexpected (
            usertrap_rest-Ends h (put_proc m me (setkilled (proc_of m me))) me 0
              (put_proc-IsDoomed m me (setkilled (proc_of m me)) d refl))
      ])
  | inr known ↦ rw known (elim (Bool-cases (which_dev == 2)) [
    | inl timer ↦ rw timer (
        usertrap_rest-Ends h (put_proc m me (signaltick (proc_of m me))) me which_dev (
          put_proc-IsDoomed m me (signaltick (proc_of m me)) d
            (signaltick_same (proc_of m me) ∙ d.dead)))
    | inr other ↦ rw other (usertrap_rest-Ends h m me which_dev d)
  ])
]

-- Whatever brings a killed process into the kernel - a system call, a device, a timer interrupt, a
-- page fault or an unknown cause - usertrap ends in kexit(-1): the process does not come back to user
-- mode, and up to that call it does not yield or sleep. In kexit it may sleep where its files are given
-- back; from any state of the kernel in which that is done and the process is not its own parent,
-- it becomes a zombie with the status -1. The process is not init, and the drivers of the
-- devices only wake processes up.
pub usertrap-killed :
    (h : Hart) (w : World) (v : Devices) (c : Cause) (m : Machine) (me : ℕ) (k : Kernel)
    → (proc_of m me).killed ≡ true
    → me ≢ m.kernel.init_proc
    → has_parent me (k.procs me) ≡ false
    → WakesOnly v.uartintr
    → WakesOnly v.virtio_disk_intr
    → Ends (usertrap h w v c m me)
      × (((kexit_resume k me minus_one).procs me).state ≡ zombie)
      × (((kexit_resume k me minus_one).procs me).xstate ≡ minus_one)
unfolding usertrap
usertrap-killed h w v c m me k dead not_init no_self uart disk =
    let end = kexit_resume_lem k me minus_one no_self in
    (leaves, ap (λ (q : Proc). q.state) end, ap (λ (q : Proc). q.xstate) end)
  where
    saved : Machine
    saved = put_proc m me (set_epc c.sepc (proc_of m me))

    doomed : IsDoomed saved me
    doomed =
        put_proc-IsDoomed m me (set_epc c.sepc (proc_of m me))
          (record { dead = dead; not_init = not_init }) dead

    leaves : Ends (usertrap h w v c m me)
    leaves = elim (Bool-cases (c.scause == 8)) [
      | inl call ↦ rw call (trap_call-Ends h w saved me c.sepc doomed)
      | inr other ↦ rw other (
          trap_other-Ends h c (devintr v saved me c.scause).1 me (devintr v saved me c.scause).0
            (devintr-IsDoomed v saved me c.scause uart disk doomed))
    ]
