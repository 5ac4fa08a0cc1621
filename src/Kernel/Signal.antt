-- ===== src/Kernel/Signal.antt =====
-- Signals and alarms: setupsignal, sigalarm, sigreturn, sigsend, signaltick and signalcheck of
-- kernel/proc.c (lines 970 to 1059 and 1121 to 1151), with what sys_sigreturn (sysproc.c) and syscall
-- (syscall.c) make of the result of sigreturn.
pub mod Delivery
use g20_os_lab_project.Common.{
  ℕ, ◌+◌, ◌-◌, ◌*◌, ◌%◌, ◌^◌, ◌/◌, suc, Bool, true, false, not, ltb, leb, ◌==◌, ◌&&◌, ◌||◌,
  if◌then◌else◌, Option, none, some, ℤ, pos, negsuc, minus_one, to_int32,
}
use g20_os_lab_project.Kernel.Types.{
  Kernel, Proc, Procstate, Trapframe, zero_trapframe, sigalrm, runnable,
}
use g20_os_lab_project.Kernel.Table.{find_proc, set_proc, is_unused, is_sleeping, is_pid}

-- The trapframe page; the code reads it only where there is one.
abbrev pub trapframe_of : Proc → Trapframe
trapframe_of p = elim p.trapframe [ none ↦ zero_trapframe | some tf ↦ tf ]

-- `none` is -1. `p` is not null where setupsignal is called, and `signum` is not negative.
unfoldable pub setupsignal : Proc → ℕ → Option Proc
setupsignal p signum =
    if not p.signal_registered || p.signal_inflight || signum == 0
    then none
    else some (record p {
      signal_tf = trapframe_of p;
      signal_inflight = true;
      active_signal = signum;
      pending_signal = 0;
      trapframe = some (record (trapframe_of p) { epc = p.signal_handler; a0 = signum });
    })

-- The body of sigalarm for a `ticks` that is not negative.
pub set_alarm : Proc → ℕ → ℕ → ℤ × Proc
set_alarm p ticks handler = if not (handler == 0) && leb p.sz handler then (minus_one, p) else (
  pos 0,
  let registered = not (ticks == 0 && handler == 0) in
      let idle = not registered && not p.signal_inflight in
      record p {
        alarm_interval = ticks;
        alarm_elapsed = 0;
        signal_handler = handler;
        signal_registered = registered;
        pending_signal = if registered then p.pending_signal else 0;
        active_signal = if idle then 0 else p.active_signal;
        signal_tf = if idle then zero_trapframe else p.signal_tf;
      },
)

pub sigalarm : Proc → ℤ → ℕ → ℤ × Proc
unfolding set_alarm
sigalarm p (negsuc n) handler = (minus_one, p)
sigalarm p (pos ticks) handler = set_alarm p ticks handler

-- The 64-bit word of an `int`.
pub to_uint64 : ℤ → ℕ
to_uint64 (pos n) = n % 2 ^ 64
to_uint64 (negsuc n) = (2 ^ 64 - suc n) % 2 ^ 64

unfoldable pub sigreturn : Proc → ℤ × Proc
sigreturn p =
    if p.signal_inflight
    then (
      to_int32 p.signal_tf.a0,
      record p {
        trapframe = some p.signal_tf;
        signal_inflight = false;
        active_signal = 0;
        signal_tf = zero_trapframe;
      },
    )
    else (minus_one, p)

-- `p->trapframe->a0 = syscalls[num]();` with the result of a system call.
pub set_return : ℤ → Proc → Proc
unfolding to_uint64
set_return r p = record p { trapframe = some (record (trapframe_of p) { a0 = to_uint64 r }) }

-- The system call sigreturn, as syscall() runs it.
pub sys_sigreturn : Proc → Proc
unfolding sigreturn set_return
sys_sigreturn p = let (r, p') = sigreturn p in set_return r p'

-- sigsend once the process is found.
unfoldable pub post_signal : Proc → ℕ → Option Proc
post_signal p signum =
    if not p.signal_registered || not (p.pending_signal == 0)
    then none
    else some (record p {
      pending_signal = signum;
      state = if is_sleeping p.state then runnable else p.state;
    })

abbrev pub is_live_pid : ℤ → ℕ → Proc → Bool
is_live_pid pid i p = is_pid p.pid pid && not (is_unused p.state)

abbrev pub posted_at : Kernel → ℕ → Option Proc → ℤ × Kernel
posted_at k i none = (minus_one, k)
posted_at k i (some p) = (pos 0, set_proc k i p)

-- What sigsend does with the entry that its loop found.
unfoldable pub send_to : Kernel → ℕ → Option ℕ → ℤ × Kernel
unfolding post_signal
send_to k signum none = (minus_one, k)
send_to k signum (some i) = posted_at k i (post_signal (k.procs i) signum)

unfoldable pub sigsend : Kernel → ℤ → ℤ → ℤ × Kernel
unfolding send_to
sigsend k pid (negsuc n) = (minus_one, k)
sigsend k pid (pos signum) =
    if signum == 0 then (minus_one, k) else send_to k signum (find_proc (is_live_pid pid) k)

-- One timer tick of a process.
unfoldable pub signaltick : Proc → Proc
signaltick p =
    if ltb 0 p.alarm_interval && p.signal_registered && not p.signal_inflight
    then if leb p.alarm_interval (p.alarm_elapsed + 1)
      then record p {
        alarm_elapsed = 0;
        pending_signal = if p.pending_signal == 0 then sigalrm else p.pending_signal;
      }
      else record p { alarm_elapsed = p.alarm_elapsed + 1 }
    else p

-- Where setupsignal fails, the process is killed.
unfoldable pub signalcheck : Proc → Proc
unfolding setupsignal
signalcheck p =
    if not (p.pending_signal == 0) && p.signal_registered && not p.signal_inflight
    then elim (setupsignal p p.pending_signal) [ none ↦ record p { killed = true } | some q ↦ q ]
    else p
