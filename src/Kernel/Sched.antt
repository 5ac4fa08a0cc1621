-- ===== src/Kernel/Sched.antt =====
-- States of processes: sleep, wakeup, yield, the choice of scheduler(), kkill, killed and setkilled,
-- update_time and getpinfo of kernel/proc.c.
use g20_os_lab_project.Common.{
  ℕ, ◌+◌, ◌%◌, ◌^◌, Bool, true, false, not, ltb, ◌==◌, ◌&&◌, if◌then◌else◌, Option, none, some, ℤ,
  pos, minus_one, ◌≡◌, refl, ◌<◌, ◌≢◌, Bool-cases, inl, inr, lt→ltb, ==_of_ne, arith,
}
use g20_os_lab_project.Kernel.Types.{
  Kernel, Proc, Procstate, sleeping, runnable, running, Channel, no_chan, nproc,
}
use g20_os_lab_project.Kernel.Table.{
  each_proc, find_proc, set_proc, is_sleeping, same_chan, is_pid, Found, find_proc-Found,
}

-- The process `me` goes to sleep on a channel; sched() gives up the CPU.
unfoldable pub sleep_on : Kernel → ℕ → Channel → Kernel
sleep_on k me chan = set_proc k me (record (k.procs me) { chan = chan; state = sleeping })

-- What sleep() does once the process runs again.
unfoldable pub tidy_up : Kernel → ℕ → Kernel
tidy_up k me = set_proc k me (record (k.procs me) { chan = no_chan })

-- The body of the loop of wakeup, called by the process `me`.
unfoldable pub wake_one : ℕ → Channel → ℕ → Proc → Proc
wake_one me chan j p =
    if not (j == me) && (is_sleeping p.state && same_chan p.chan chan)
    then record p { state = runnable }
    else p

unfoldable pub wakeup : Kernel → ℕ → Channel → Kernel
unfolding wake_one
wakeup k me chan = each_proc (wake_one me chan) k

unfoldable pub yield : Kernel → ℕ → Kernel
yield k me = set_proc k me (record (k.procs me) { state = runnable })

abbrev pub is_runnable : Procstate → Bool
is_runnable runnable = true
is_runnable _ = false

-- The round of scheduler()'s loop at entry `i`: a runnable process is made the running one.
unfoldable pub schedule_entry : Kernel → ℕ → Kernel
schedule_entry k i =
    if is_runnable (k.procs i).state
    then set_proc k i (record (k.procs i) { state = running })
    else k

unfoldable pub setkilled : Proc → Proc
setkilled p = record p { killed = true }

unfoldable pub killed : Proc → Bool
killed p = p.killed

-- kkill at the entry that its loop found.
unfoldable pub kill_at : Kernel → Option ℕ → ℤ × Kernel
kill_at k none = (minus_one, k)
kill_at k (some i) = (
  pos 0,
  set_proc k i (record (k.procs i) {
    killed = true;
    state = if is_sleeping (k.procs i).state then runnable else (k.procs i).state;
  }),
)

unfoldable pub kkill : Kernel → ℤ → ℤ × Kernel
unfolding kill_at
kkill k pid = kill_at k (find_proc (λ i p. is_pid p.pid pid) k)

-- The times are 32-bit unsigned.
abbrev pub inc32 : ℕ → ℕ
inc32 x = (x + 1) % 2 ^ 32

unfoldable pub time_one : ℕ → Proc → Proc
time_one i p = elim p.state [
  | running ↦ record p { rtime = inc32 p.rtime }
  | sleeping ↦ record p { stime = inc32 p.stime }
  | runnable ↦ record p { retime = inc32 p.retime }
  | _ ↦ p
]

unfoldable pub update_time : Kernel → Kernel
unfolding time_one
update_time k = each_proc time_one k

-- What getpinfo writes for entry `i` of the table.
pub record PinfoEntry : Type 0 where
  pub pid : ℕ
  pub state : Procstate
  pub runtime : ℕ
  pub waittime : ℕ

unfoldable pub getpinfo : Kernel → ℕ → PinfoEntry
getpinfo k i = record {
  pid = (k.procs i).pid;
  state = (k.procs i).state;
  runtime = (k.procs i).rtime;
  waittime = (k.procs i).retime;
}

-- kkill of a number that the table has: its first entry is killed, and runs if it slept.
pub kkill-Found :
    (k : Kernel) (pid : ℤ) (i : ℕ)
    → Found (λ j p. is_pid p.pid pid) k.procs 0 nproc i
    → kkill k pid ≡ (
      pos 0,
      set_proc k i (record (k.procs i) {
        killed = true;
        state = if is_sleeping (k.procs i).state then runnable else (k.procs i).state;
      }),
    )
unfolding kkill kill_at
kkill-Found k pid i f = rw (find_proc-Found (λ j p. is_pid p.pid pid) k i f) refl

-- After wakeup no process of the table but the caller sleeps on the channel, and the others are as
-- they were or were made runnable.
pub wakeup-wakes :
    (k : Kernel) (me : ℕ) (chan : Channel) (j : ℕ)
    → j < nproc
    → j ≢ me
    → let p = (wakeup k me chan).procs j in (is_sleeping p.state && same_chan p.chan chan) ≡ false
unfolding wakeup wake_one
wakeup-wakes k me chan j h ne =
    elim (Bool-cases (is_sleeping (k.procs j).state && same_chan (k.procs j).chan chan)) [
      | inl asleep ↦ rw (lt→ltb j nproc h, ==_of_ne j me ne, asleep) refl
      | inr awake ↦ rw (lt→ltb j nproc h, ==_of_ne j me ne, awake) awake
    ]

pub wakeup_self : (k : Kernel) (me : ℕ) (chan : Channel) → (wakeup k me chan).procs me ≡ k.procs me
unfolding wakeup wake_one
wakeup_self k me chan = ground arith

-- wakeup changes nothing but states.
pub wakeup-procs :
    (k : Kernel) (me : ℕ) (chan : Channel) (j : ℕ)
    → (s : Procstate) × ((wakeup k me chan).procs j ≡ record (k.procs j) { state = s })
unfolding wakeup wake_one
wakeup-procs k me chan j =
    elim (Bool-cases (
      ltb j nproc
      && (not (j == me) && (is_sleeping (k.procs j).state && same_chan (k.procs j).chan chan)))) [
        | inl wakes ↦ (runnable, ground (arith, wakes))
        | inr stays ↦ ((k.procs j).state, ground (arith, stays))
      ]
