-- ===== src/Kernel/Signal/Delivery.antt =====
-- What the delivery of a signal and the return from its handler do. (kernel/proc.c)
use g20_os_lab_project.Common.{
  to_int32, ℕ, zero, suc, ◌-◌, ◌%◌, ◌^◌, ◌≤◌, ◌<◌, ◌≡◌, ◌≢◌, ◌⊎◌, ◌↔◌, inl, inr, refl, true, false,
  ◌==◌, ◌&&◌, if◌then◌else◌, some, ℤ, pos, minus_one, arith, ==_of_ne, lt→ltb, ge→ltb,
}
use native.Mathlib.Decide.{dec_lt}
use g20_os_lab_project.Kernel.Types.{Kernel, Proc, Trapframe, sigalrm, runnable, nproc}
use g20_os_lab_project.Kernel.Table.{set_proc, is_sleeping, Found, find_proc-first}
use g20_os_lab_project.Kernel.Signal.{
  to_uint64, sys_sigreturn, post_signal, is_live_pid, sigsend, send_to, signaltick, signalcheck,
}

pub delivered :
    (p : Proc) (tf : Trapframe)
    → p.trapframe ≡ some tf
    → p.signal_registered ≡ true
    → p.signal_inflight ≡ false
    → p.pending_signal ≢ 0
    → signalcheck p ≡ record p {
      signal_tf = tf;
      signal_inflight = true;
      active_signal = p.pending_signal;
      pending_signal = 0;
      trapframe = some (record tf { epc = p.signal_handler; a0 = p.pending_signal });
    }
unfolding signalcheck
delivered p tf has registered idle pending =
    rw (registered, idle, ==_of_ne p.pending_signal 0 pending, has)

-- A pending signal of a process with a trapframe and a handler and without a signal in flight is
-- delivered by signalcheck: the process goes on at the handler with the signal's number in a0,
-- the signal is in flight and no longer pending. Whatever trapframe the handler leaves, sigreturn
-- brings back every register as it was at the delivery but a0, which comes back as the sign
-- extension of its low 32 bits; no signal is in flight or active.
pub sys_sigreturn-signalcheck :
    (p : Proc) (tf handler_tf : Trapframe)
    → p.trapframe ≡ some tf
    → p.signal_registered ≡ true
    → p.signal_inflight ≡ false
    → p.pending_signal ≢ 0
    → let q = signalcheck p in
      let r = sys_sigreturn (record q { trapframe = some handler_tf }) in
      (q.trapframe ≡ some (record tf { epc = p.signal_handler; a0 = p.pending_signal }))
      × (q.signal_inflight ≡ true)
      × (q.pending_signal ≡ 0)
      × (r.trapframe ≡ some (record tf { a0 = to_uint64 (to_int32 tf.a0) }))
      × (r.signal_inflight ≡ false)
      × (r.active_signal ≡ 0)
sys_sigreturn-signalcheck p tf handler_tf has registered idle pending =
    rw (delivered p tf has registered idle pending)
      (unfold sys_sigreturn in (refl, refl, refl, refl, refl, refl))

-- A 64-bit word comes back from its conversion to `int` and back unchanged exactly if it is below
-- 2^31 or at least 2^64 - 2^31.
pub to_uint64-to_int32 :
    (x : ℕ) → x < 2 ^ 64 → (to_uint64 (to_int32 x) ≡ x) ↔ ((x < 2 ^ 31) ⊎ (2 ^ 64 - 2 ^ 31 ≤ x))
unfolding to_int32 to_uint64
to_uint64-to_int32 x h = elim (dec_lt (x % 2 ^ 32) (2 ^ 31)) [
  | yes p ↦ rw (lt→ltb (x % 2 ^ 32) (2 ^ 31) p) (
    λ e. inl (omega arith),
    λ c. elim c [ inl low ↦ omega arith | inr high ↦ absurd (omega arith) ],
  )
  | no p ↦ rw (ge→ltb (x % 2 ^ 32) (2 ^ 31) (omega arith)) (
    λ e. inr (omega arith),
    λ c. elim c [ inl low ↦ absurd (omega arith) | inr high ↦ omega arith ],
  )
]

-- While a signal is in flight no other is delivered and the alarm does not count.
pub inflight_blocks :
    (p : Proc) → p.signal_inflight ≡ true → (signalcheck p ≡ p) × (signaltick p ≡ p)
unfolding signalcheck signaltick
inflight_blocks p h = (ground arith, ground arith)

-- signalcheck never changes whether a process is killed.
pub signalcheck-killed : (p : Proc) → (signalcheck p).killed ≡ p.killed
unfolding signalcheck
signalcheck-killed p = ground arith

-- `n` timer ticks.
abbrev pub ticks : ℕ → Proc → Proc
ticks zero p = p
ticks (suc n) p = signaltick (ticks n p)

count_one :
    (p : Proc) (n : ℕ)
    → p.signal_registered ≡ true
    → p.signal_inflight ≡ false
    → suc n < p.alarm_interval
    → signaltick (record p { alarm_elapsed = n }) ≡ record p { alarm_elapsed = suc n }
unfolding signaltick
count_one p n registered idle h = ground arith

go_off :
    (p : Proc) (n : ℕ)
    → p.signal_registered ≡ true
    → p.signal_inflight ≡ false
    → suc n ≡ p.alarm_interval
    → signaltick (record p { alarm_elapsed = n }) ≡ record p {
      alarm_elapsed = 0;
      pending_signal = if p.pending_signal == 0 then sigalrm else p.pending_signal;
    }
unfolding signaltick
go_off p n registered idle h = ground arith

counting :
    (n : ℕ) (p : Proc)
    → p.signal_registered ≡ true
    → p.signal_inflight ≡ false
    → p.alarm_elapsed ≡ 0
    → n < p.alarm_interval
    → ticks n p ≡ record p { alarm_elapsed = n }
counting zero p registered idle start h = λ i. record p { alarm_elapsed = start i }
counting (suc n) p registered idle start h =
    rw (counting n p registered idle start (omega arith)) (count_one p n registered idle h)

-- For a process with a handler, no signal in flight and a count of 0, whose alarm interval is `n
-- + 1`: in `n` ticks the count goes to `n` and nothing else changes; after one tick more the
-- count is 0 again, and SIGALRM is pending unless another signal was.
pub ticks_alarm :
    (p : Proc) (n : ℕ)
    → p.signal_registered ≡ true
    → p.signal_inflight ≡ false
    → p.alarm_elapsed ≡ 0
    → suc n ≡ p.alarm_interval
    → (ticks n p ≡ record p { alarm_elapsed = n })
      × (ticks (suc n) p ≡ record p {
        alarm_elapsed = 0;
        pending_signal = if p.pending_signal == 0 then sigalrm else p.pending_signal;
      })
ticks_alarm p n registered idle start e = (
  counting n p registered idle start (omega arith),
  rw (counting n p registered idle start (omega arith)) (go_off p n registered idle (omega arith)),
)

-- sigsend from a live process number: it goes to the first entry of the table with that number. It
-- succeeds exactly if that process has a handler and no signal pending; then the signal is pending
-- and the process is made runnable if it slept. All else stays.
pub sigsend_lem :
    (k : Kernel) (pid : ℤ) (signum i : ℕ)
    → 0 < signum
    → Found (is_live_pid pid) k.procs 0 nproc i
    → sigsend k pid (pos signum) ≡ (
        if (k.procs i).signal_registered && ((k.procs i).pending_signal == 0)
        then (
          pos 0,
          set_proc k i (record (k.procs i) {
            pending_signal = signum;
            state = if is_sleeping (k.procs i).state then runnable else (k.procs i).state;
          }),
        )
        else (minus_one, k))
unfolding sigsend send_to post_signal
sigsend_lem k pid signum i h f =
    rw
      (
        ==_of_ne signum 0 (omega arith),
        find_proc-first (is_live_pid pid) k i f.below f.passes (λ l p. f.first l (omega arith) p),
      )
      (ground arith)
