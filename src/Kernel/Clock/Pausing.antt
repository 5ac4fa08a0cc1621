-- ===== src/Kernel/Clock/Pausing.antt =====
-- How long sys_pause of kernel/sysproc.c sleeps, counted in timer interrupts (kernel/trap.c).
use g20_os_lab_project.Common.{
  ℕ, zero, suc, ◌+◌, ◌%◌, ◌^◌, ◌<◌, ◌≡◌, refl, ◌∙◌, ap, true, false, pos, arith, lt→ltb, ge→ltb,
  update_self,
}
use g20_os_lab_project.Kernel.Types.{Kernel, Proc}
use g20_os_lab_project.Kernel.Sched.{
  update_time, time_one, wakeup-procs, sleep_on, tidy_up, killed, inc32,
}
use g20_os_lab_project.Kernel.Machine.{
  Machine, ticks_chan, Return, value, blocked, exiting, proc_of, minus_word,
}
use g20_os_lab_project.Kernel.Clock.{clockintr, elapsed, pause_loop, pause_resume, pause}

time_one-killed : (j : ℕ) (p : Proc) → (time_one j p).killed ≡ p.killed
unfolding time_one
time_one-killed j p = ground arith

update_time-killed : (k : Kernel) (j : ℕ) → ((update_time k).procs j).killed ≡ (k.procs j).killed
unfolding update_time
update_time-killed k j = ground (arith, time_one-killed j (k.procs j))

-- A timer interrupt kills nobody and saves nobody.
pub clockintr-killed :
    (m : Machine) (cpu other j : ℕ)
    → (proc_of (clockintr m cpu other) j).killed ≡ (proc_of m j).killed
unfolding clockintr
clockintr-killed m cpu other j =
    let (s, e) = wakeup-procs (update_time m.kernel) other ticks_chan j in
    ground (arith, ap (λ (p : Proc). p.killed) e, update_time-killed m.kernel j)

-- The process sleeps in sys_pause since `ticks0`, and `j` ticks have passed.
record Waits (m : Machine) (me ticks0 j : ℕ) : Type 0 where
  alive : (proc_of m me).killed ≡ false
  passed : m.ticks ≡ (ticks0 + j) % 2 ^ 32

elapsed_lem :
    (ticks0 j : ℕ) → j < 2 ^ 32 → ticks0 < 2 ^ 32 → elapsed ((ticks0 + j) % 2 ^ 32) ticks0 ≡ j
elapsed_lem ticks0 j h k = omega arith

-- The machine after a tick and the return of sleep().
abbrev after_tick : Machine → (other me : ℕ) → Machine
after_tick m other me = let m' = clockintr m 0 other in record m' { kernel = tidy_up m'.kernel me }

abbrev asleep : Machine → ℕ → Machine
asleep m me = record m { kernel = sleep_on m.kernel me ticks_chan }

tidy_up-killed : (k : Kernel) (me : ℕ) → ((tidy_up k me).procs me).killed ≡ (k.procs me).killed
unfolding tidy_up
tidy_up-killed k me = ap (λ (p : Proc). p.killed) (update_self k.procs me _)

sleep_on-killed :
    (k : Kernel) (me : ℕ) → ((sleep_on k me ticks_chan).procs me).killed ≡ (k.procs me).killed
unfolding sleep_on
sleep_on-killed k me = ap (λ (p : Proc). p.killed) (update_self k.procs me _)

after_tick-Waits :
    (m : Machine) (other me ticks0 j : ℕ)
    → Waits m me ticks0 j
    → Waits (after_tick m other me) me ticks0 (suc j)
after_tick-Waits m other me ticks0 j w = record {
  alive = tidy_up-killed (clockintr m 0 other).kernel me ∙ clockintr-killed m 0 other me ∙ w.alive;
  passed = unfold clockintr in omega (arith, w.passed);
}

sleep-Waits :
    (m : Machine) (me ticks0 j : ℕ) → Waits m me ticks0 j → Waits (asleep m me) me ticks0 j
sleep-Waits m me ticks0 j w = record {
  alive = sleep_on-killed m.kernel me ∙ w.alive;
  passed = w.passed;
}

pause_resume_early :
    (m : Machine) (other me ticks0 j n : ℕ)
    → Waits m me ticks0 j
    → suc j < n
    → n < 2 ^ 32
    → ticks0 < 2 ^ 32
    → pause_resume (clockintr m 0 other) me ticks0 n ≡ blocked (asleep (after_tick m other me) me)
unfolding pause_resume pause_loop killed
pause_resume_early m other me ticks0 j n w more small start =
    let w' = after_tick-Waits m other me ticks0 j w in
    rw (w'.passed, elapsed_lem ticks0 (suc j) (omega arith) start, lt→ltb (suc j) n more, w'.alive)
      refl

pause_resume_due :
    (m : Machine) (other me ticks0 j n : ℕ)
    → Waits m me ticks0 j
    → suc j ≡ n
    → n < 2 ^ 32
    → ticks0 < 2 ^ 32
    → pause_resume (clockintr m 0 other) me ticks0 n ≡ value 0 (after_tick m other me)
unfolding pause_resume pause_loop
pause_resume_due m other me ticks0 j n w due small start =
    let w' = after_tick-Waits m other me ticks0 j w in
    rw (w'.passed, elapsed_lem ticks0 (suc j) (omega arith) start, ge→ltb (suc j) n (omega arith))
      refl

-- A call of sys_pause that sleeps, and at most `fuel` timer interrupts on the first CPU; the process
-- runs again after each.
pub pause_ticks : (fuel : ℕ) → Machine → (other me ticks0 n : ℕ) → Return
pause_ticks zero m other me ticks0 n = blocked m
pause_ticks (suc fuel) m other me ticks0 n = elim (pause_resume (clockintr m 0 other) me ticks0 n) [
  | value r m' ↦ value r m'
  | blocked m' ↦ pause_ticks fuel m' other me ticks0 n
  | exiting m' status ↦ exiting m' status
]

pause_ticks_early :
    (fuel : ℕ) (m : Machine) (other me ticks0 j n : ℕ)
    → Waits m me ticks0 j
    → j + fuel < n
    → n < 2 ^ 32
    → ticks0 < 2 ^ 32
    → (m' : Machine) × (pause_ticks fuel m other me ticks0 n ≡ blocked m')
unfolding pause_ticks
pause_ticks_early zero m other me ticks0 j n w h small start = (m, refl)
pause_ticks_early (suc fuel) m other me ticks0 j n w h small start =
    rw (pause_resume_early m other me ticks0 j n w (omega arith) small start, pause_ticks)
      (pause_ticks_early fuel (asleep (after_tick m other me) me) other me ticks0 (suc j) n
        (sleep-Waits (after_tick m other me) me ticks0 (suc j)
          (after_tick-Waits m other me ticks0 j w))
        (omega arith) small start)

pause_ticks_due :
    (fuel : ℕ) (m : Machine) (other me ticks0 j n : ℕ)
    → Waits m me ticks0 j
    → j + suc fuel ≡ n
    → n < 2 ^ 32
    → ticks0 < 2 ^ 32
    → (m' : Machine) × (pause_ticks (suc fuel) m other me ticks0 n ≡ value 0 m')
      × (m'.ticks ≡ (ticks0 + n) % 2 ^ 32)
unfolding pause_ticks
pause_ticks_due zero m other me ticks0 j n w h small start =
    rw (pause_resume_due m other me ticks0 j n w (omega arith) small start, pause_ticks)
      (
        after_tick m other me,
        refl,
        (after_tick-Waits m other me ticks0 j w).passed
            ∙ ap (λ (t : ℕ). (ticks0 + t) % 2 ^ 32) (omega arith),
      )
pause_ticks_due (suc fuel) m other me ticks0 j n w h small start =
    rw (pause_resume_early m other me ticks0 j n w (omega arith) small start, pause_ticks)
      (pause_ticks_due fuel (asleep (after_tick m other me) me) other me ticks0 (suc j) n
        (sleep-Waits (after_tick m other me) me ticks0 (suc j)
          (after_tick-Waits m other me ticks0 j w))
        (omega arith) small start)

-- A process that is not killed and calls sys_pause with `n + 1`, an `int`, goes to sleep. If it runs
-- again after each timer interrupt of the first CPU, it still sleeps after any number of interrupts
-- up to `n`, and the one after that ends the call: it returns 0, and `ticks` has grown by `n + 1`,
-- modulo 2^32. It does so also where `ticks` wraps round in between.
pub pause_lem :
    (m : Machine) (other me n : ℕ)
    → (proc_of m me).killed ≡ false
    → m.ticks < 2 ^ 32
    → suc n < 2 ^ 31
    → (m0 : Machine) × (pause m me (pos (suc n)) ≡ blocked m0)
      × ((j : ℕ)
          → j < suc n
          → (m' : Machine) × (pause_ticks j m0 other me m.ticks (suc n) ≡ blocked m'))
      × ((m' : Machine) × (pause_ticks (suc n) m0 other me m.ticks (suc n) ≡ value 0 m')
          × (m'.ticks ≡ (m.ticks + suc n) % 2 ^ 32))
pause_lem m other me n alive start small = (
  asleep m me,
  unfold pause pause_loop killed in rw (elapsed_self, lt→ltb 0 (suc n) (omega arith), alive) refl,
  λ j h.
      pause_ticks_early j (asleep m me) other me m.ticks 0 (suc n) waits (omega arith) (omega arith)
        start,
  pause_ticks_due n (asleep m me) other me m.ticks 0 (suc n) waits (omega arith) (omega arith)
      start,
)
  where
    elapsed_self : elapsed m.ticks m.ticks ≡ 0
    elapsed_self = omega arith

    waits : Waits (asleep m me) me m.ticks 0
    waits = sleep-Waits m me m.ticks 0 (record { alive = alive; passed = omega arith })

-- A process that is killed before its time is up returns from sys_pause with -1.
pub pause_killed :
    (m : Machine) (other me ticks0 j n : ℕ)
    → (proc_of m me).killed ≡ true
    → m.ticks ≡ (ticks0 + j) % 2 ^ 32
    → suc j < n
    → n < 2 ^ 32
    → ticks0 < 2 ^ 32
    → (m' : Machine) × (pause_resume (clockintr m 0 other) me ticks0 n ≡ value minus_word m')
unfolding pause_resume pause_loop killed
pause_killed m other me ticks0 j n dead passed more small start = (
  after_tick m other me,
  rw
      (
        passed',
        elapsed_lem ticks0 (suc j) (omega arith) start,
        lt→ltb (suc j) n more,
        tidy_up-killed (clockintr m 0 other).kernel me ∙ clockintr-killed m 0 other me ∙ dead,
      )
      refl,
)
  where
    now : (clockintr m 0 other).ticks ≡ inc32 m.ticks
    now = unfold clockintr in refl

    passed' : (clockintr m 0 other).ticks ≡ (ticks0 + suc j) % 2 ^ 32
    passed' = omega (arith, passed, now)
