-- ===== src/Kernel/Trap/Alarm.antt =====
-- An alarm from the timer interrupt to the handler in user mode. (kernel/trap.c)
use g20_os_lab_project.Common.{
  ℕ, suc, ◌≡◌, refl, ap, ◌∙◌, true, false, some, arith, ◌==◌, Bool-cases, inl, inr, update_self,
  ltb,
}
use g20_os_lab_project.Kernel.Types.{Kernel, Proc, Procstate, Trapframe, sigalrm, runnable}
use g20_os_lab_project.Kernel.Signal.{signaltick, signalcheck}
use g20_os_lab_project.Kernel.Signal.Delivery.{delivered}
use g20_os_lab_project.Kernel.Sched.{killed, wakeup_self, update_time, time_one, yield}
use g20_os_lab_project.Kernel.Machine.{Machine, World, ticks_chan, proc_of, put_proc}
use g20_os_lab_project.Kernel.Clock.{clockintr}
use g20_os_lab_project.Kernel.Trap.{
  Devices, Cause, Hart, user, yields, devintr, usertrap, trap_other, usertrap_rest, usertrap_resume,
  usertrapret, set_epc, timer_interrupt,
}

-- Other values of the three times.
abbrev pub timed : Proc → (a b c : ℕ) → Proc
timed p a b c = record p { rtime = a; stime = b; retime = c }

time_one-timed : (j : ℕ) (p : Proc) → (a b c : ℕ) × (time_one j p ≡ timed p a b c)
unfolding time_one
time_one-timed j p =
    ((time_one j p).rtime, (time_one j p).stime, (time_one j p).retime, ground arith)

update_time-timed :
    (k : Kernel) (j : ℕ) → (a b c : ℕ) × ((update_time k).procs j ≡ timed (k.procs j) a b c)
unfolding update_time
update_time-timed k j = elim (Bool-cases (ltb j 64)) [
  | inl inside ↦ rw inside (time_one-timed j (k.procs j))
  | inr outside ↦ rw outside ((k.procs j).rtime, (k.procs j).stime, (k.procs j).retime, refl)
]

-- For the process that runs, a timer interrupt changes at most its times.
pub clockintr-timed :
    (m : Machine) (cpu me : ℕ)
    → (a b c : ℕ) × (proc_of (clockintr m cpu me) me ≡ timed (proc_of m me) a b c)
unfolding clockintr
clockintr-timed m cpu me = elim (Bool-cases (cpu == 0)) [
  | inl first ↦ rw first (
      let (a, b, c, e) = update_time-timed m.kernel me in
      (a, b, c, wakeup_self (update_time m.kernel) me ticks_chan ∙ e))
  | inr other ↦ rw other ((proc_of m me).rtime, (proc_of m me).stime, (proc_of m me).retime, refl)
]

-- What the last tick of an alarm makes of a process.
abbrev pub rung : Proc → Proc
rung p = record p { alarm_elapsed = 0; pending_signal = sigalrm }

signaltick-rung :
    (p : Proc)
    → p.signal_registered ≡ true
    → p.signal_inflight ≡ false
    → p.pending_signal ≡ 0
    → suc p.alarm_elapsed ≡ p.alarm_interval
    → signaltick p ≡ rung p
unfolding signaltick
signaltick-rung p registered idle nothing due = ground arith

-- After the alarm has rung, and the process was given up and taken up again.
abbrev waiting : Proc → (pc : ℕ) → Procstate → (a b c : ℕ) → Proc
waiting p pc s a b c = record (timed (rung (set_epc pc p)) a b c) { state = s }

yield_timer :
    (h : Hart) (w : World) (v : Devices) (c : Cause) (m : Machine) (me : ℕ)
    → c.scause ≡ timer_interrupt
    → (proc_of m me).killed ≡ false
    → (proc_of m me).signal_registered ≡ true
    → (proc_of m me).signal_inflight ≡ false
    → (proc_of m me).pending_signal ≡ 0
    → suc (proc_of m me).alarm_elapsed ≡ (proc_of m me).alarm_interval
    → (m1 : Machine) × (usertrap h w v c m me ≡ yields m1)
      × (x : ℕ) × (y : ℕ) × (z : ℕ) × (proc_of m1 me ≡ waiting (proc_of m me) c.sepc runnable x y z)
unfolding usertrap trap_other usertrap_rest devintr killed
yield_timer h w v c m me timer alive registered idle nothing due =
    let (x, y, z, e) = clockintr-timed saved v.cpu me in
    let here =
      e
      ∙ ap (λ (q : Proc). timed q x y z)
          (update_self m.kernel.procs me (set_epc c.sepc (proc_of m me))) in
    let rings =
      ap signaltick here
      ∙ signaltick-rung (timed (set_epc c.sepc (proc_of m me)) x y z) registered idle nothing due in
    let ticked =
      put_proc (clockintr saved v.cpu me) me (signaltick (proc_of (clockintr saved v.cpu me) me)) in
    let now =
      update_self (clockintr saved v.cpu me).kernel.procs me
        (signaltick (proc_of (clockintr saved v.cpu me) me))
      ∙ rings in
    (
      record ticked { kernel = yield ticked.kernel me },
      rw (timer, now, alive) refl,
      x,
      y,
      z,
      unfold yield in
          update_self ticked.kernel.procs me _
          ∙ ap (λ (q : Proc). record q { state = runnable }) now,
    )
  where
    saved : Machine
    saved = put_proc m me (set_epc c.sepc (proc_of m me))

-- The process in user mode after the delivery of SIGALRM.
pub record IsRung (p q : Proc) (tf : Trapframe) (pc : ℕ) : Type 0 where
  pub at_handler :
      (tf' : Trapframe) × (q.trapframe ≡ some tf')
      × (tf'.epc ≡ p.signal_handler)
      × (tf'.a0 ≡ sigalrm)
      × (tf'.sp ≡ tf.sp)
  pub saved : q.signal_tf ≡ record tf { epc = pc }
  pub in_flight : q.signal_inflight ≡ true
  pub taken : q.pending_signal ≡ 0
  pub restarted : q.alarm_elapsed ≡ 0

resume-IsRung :
    (h : Hart) (m : Machine) (me : ℕ) (p : Proc) (tf : Trapframe) (pc : ℕ) (s : Procstate)
    (a b c : ℕ)
    → proc_of m me ≡ waiting p pc s a b c
    → p.trapframe ≡ some tf
    → p.signal_registered ≡ true
    → p.signal_inflight ≡ false
    → (m' : Machine) × (usertrap_resume h m me ≡ user m') × IsRung p (proc_of m' me) tf pc
unfolding usertrap_resume usertrapret
resume-IsRung h m me p tf pc s a b c e has registered idle =
    let there =
      ap signalcheck e
      ∙ delivered (waiting p pc s a b c) (record tf { epc = pc }) (rw has refl) registered idle
          (λ z. absurd (omega (arith, z))) in
    (
      put_proc m me (usertrapret h (signalcheck (proc_of m me))),
      refl,
      rw (update_self m.kernel.procs me, there)
          (record {
            at_handler = (_, refl, refl, refl, refl);
            saved = refl;
            in_flight = refl;
            taken = refl;
            restarted = refl;
          }),
    )

-- A process in user mode, not killed, has a handler, no signal in flight or pending, and its alarm is
-- one tick from due. A timer interrupt makes it give up the CPU. When it runs again - the other
-- processes may have changed only its state and times - usertrap returns to user mode at the
-- handler, with SIGALRM in a0 and the interrupted stack pointer; the interrupted registers and
-- program counter are saved, the signal is in flight and no longer pending, and the count of the
-- alarm starts again at 0.
pub usertrap-alarm :
    (h : Hart) (w : World) (v : Devices) (c : Cause) (m : Machine) (me : ℕ) (tf : Trapframe)
    → c.scause ≡ timer_interrupt
    → (proc_of m me).trapframe ≡ some tf
    → (proc_of m me).killed ≡ false
    → (proc_of m me).signal_registered ≡ true
    → (proc_of m me).signal_inflight ≡ false
    → (proc_of m me).pending_signal ≡ 0
    → suc (proc_of m me).alarm_elapsed ≡ (proc_of m me).alarm_interval
    → (m1 : Machine) × (usertrap h w v c m me ≡ yields m1)
      × ((m2 : Machine) (s : Procstate) (x y z : ℕ)
          → proc_of m2 me ≡ record (timed (proc_of m1 me) x y z) { state = s }
          → (m3 : Machine) × (usertrap_resume h m2 me ≡ user m3)
            × IsRung (proc_of m me) (proc_of m3 me) tf c.sepc)
usertrap-alarm h w v c m me tf timer has alive registered idle nothing due =
    let (m1, out, x, y, z, p1) = yield_timer h w v c m me timer alive registered idle nothing due in
    (
      m1,
      out,
      λ m2 s x' y' z' e.
          resume-IsRung h m2 me (proc_of m me) tf c.sepc s x' y' z'
            (e ∙ ap (λ (q : Proc). record (timed q x' y' z') { state = s }) p1) has registered idle,
    )
