-- ===== src/Kernel/Trap/Unknown.antt =====
-- A system call with a number that the table does not have. (kernel/syscall.c, kernel/trap.c)
use g20_os_lab_project.Common.{
  ℕ, ◌+◌, ◌%◌, ◌^◌, ◌≡◌, ◌≢◌, refl, ap, ◌∙◌, false, none, arith, update_self, update_ne,
}
use g20_os_lab_project.Kernel.Types.{Proc}
use g20_os_lab_project.Kernel.Signal.{signalcheck}
use g20_os_lab_project.Kernel.Sched.{killed}
use g20_os_lab_project.Kernel.Machine.{Machine, World, proc_of, put_proc, minus_word, value}
use g20_os_lab_project.Kernel.Trap.{
  Devices, Cause, Hart, user, usertrap, trap_call, after_call, usertrap_rest, usertrap_resume,
  usertrapret, set_epc, set_a0, syscall, run_handler, handler, call_number,
}

signalcheck_none : (p : Proc) → p.pending_signal ≡ 0 → signalcheck p ≡ p
unfolding signalcheck
signalcheck_none p nothing = ground arith

syscall-none :
    (w : World) (m : Machine) (me : ℕ)
    → handler (call_number (proc_of m me)) ≡ none
    → syscall w m me ≡ value minus_word (put_proc m me (set_a0 minus_word (proc_of m me)))
unfolding syscall
syscall-none w m me unknown = ap (run_handler w m me) unknown

back_alive :
    (h : Hart) (m : Machine) (me : ℕ)
    → (proc_of m me).killed ≡ false
    → after_call h me (value minus_word m)
      ≡ user (put_proc m me (usertrapret h (signalcheck (proc_of m me))))
unfolding after_call usertrap_rest usertrap_resume killed
back_alive h m me alive = rw alive refl

call_alive :
    (h : Hart) (w : World) (m : Machine) (me sepc : ℕ)
    → (proc_of m me).killed ≡ false
    → trap_call h w m me sepc
      ≡ after_call h me
          (syscall w (put_proc m me (set_epc ((sepc + 4) % 2 ^ 64) (proc_of m me))) me)
unfolding trap_call killed
call_alive h w m me sepc alive = rw alive refl

usertrap_call :
    (h : Hart) (w : World) (v : Devices) (c : Cause) (m : Machine) (me : ℕ)
    → c.scause ≡ 8
    → usertrap h w v c m me
      ≡ trap_call h w (put_proc m me (set_epc c.sepc (proc_of m me))) me c.sepc
unfolding usertrap
usertrap_call h w v c m me call = rw call refl

-- A system call of a process that is not killed and has no signal pending, with a number that has no
-- handler: usertrap returns to user mode after the instruction, with -1 in a0. Nothing else of the
-- process changes but what usertrapret writes, and no other process changes, and neither does the time.
pub usertrap-handler-none :
    (h : Hart) (w : World) (v : Devices) (c : Cause) (m : Machine) (me : ℕ)
    → c.scause ≡ 8
    → (proc_of m me).killed ≡ false
    → (proc_of m me).pending_signal ≡ 0
    → handler (call_number (proc_of m me)) ≡ none
    → (m' : Machine) × (usertrap h w v c m me ≡ user m')
      × (proc_of m' me
          ≡ usertrapret h (set_a0 minus_word (set_epc ((c.sepc + 4) % 2 ^ 64) (proc_of m me))))
      × ((j : ℕ) → j ≢ me → proc_of m' j ≡ proc_of m j)
      × (m'.ticks ≡ m.ticks)
usertrap-handler-none h w v c m me call alive nothing unknown = (
  last,
  usertrap_call h w v c m me call
      ∙ call_alive h w saved me c.sepc (ap (λ (q : Proc). q.killed) saved_me ∙ alive)
      ∙ ap (after_call h me) (
          syscall-none w called me (ap (λ (q : Proc). handler (call_number q)) called_me ∙ unknown))
      ∙ back_alive h done me (ap (λ (q : Proc). q.killed) done_me ∙ alive),
  update_self done.kernel.procs me _
      ∙ ap (usertrapret h) (ap signalcheck done_me ∙ signalcheck_none _ nothing),
  λ j ne. untouched j ne,
  refl,
)
  where
    saved : Machine
    saved = put_proc m me (set_epc c.sepc (proc_of m me))

    saved_me : proc_of saved me ≡ set_epc c.sepc (proc_of m me)
    saved_me = update_self m.kernel.procs me _

    called : Machine
    called = put_proc saved me (set_epc ((c.sepc + 4) % 2 ^ 64) (proc_of saved me))

    called_me : proc_of called me ≡ set_epc ((c.sepc + 4) % 2 ^ 64) (proc_of m me)
    called_me = update_self saved.kernel.procs me _ ∙ ap (set_epc ((c.sepc + 4) % 2 ^ 64)) saved_me

    done : Machine
    done = put_proc called me (set_a0 minus_word (proc_of called me))

    done_me : proc_of done me ≡ set_a0 minus_word (set_epc ((c.sepc + 4) % 2 ^ 64) (proc_of m me))
    done_me = update_self called.kernel.procs me _ ∙ ap (set_a0 minus_word) called_me

    last : Machine
    last = put_proc done me (usertrapret h (signalcheck (proc_of done me)))

    untouched : (j : ℕ) → j ≢ me → proc_of last j ≡ proc_of m j
    untouched j ne =
        update_ne done.kernel.procs me j _ ne
        ∙ update_ne called.kernel.procs me j _ ne
        ∙ update_ne saved.kernel.procs me j _ ne
        ∙ update_ne m.kernel.procs me j _ ne
