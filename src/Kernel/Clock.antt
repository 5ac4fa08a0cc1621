-- ===== src/Kernel/Clock.antt =====
-- Time: clockintr of kernel/trap.c, and sys_pause and sys_uptime of kernel/sysproc.c. sys_pause is cut
-- where it sleeps; after a wakeup it tests again.
pub mod Pausing
use g20_os_lab_project.Common.{
  ℕ, ◌+◌, ◌-◌, ◌%◌, ◌^◌, ◌==◌, ltb, if◌then◌else◌, ℤ, pos, negsuc, Bool, pos_part,
}
use g20_os_lab_project.Kernel.Sched.{sleep_on, tidy_up, wakeup, update_time, killed, inc32}
use g20_os_lab_project.Kernel.Machine.{
  Machine, ticks_chan, Return, value, blocked, proc_of, minus_word,
}

-- On the first CPU, while the process `me` runs there.
unfoldable pub clockintr : Machine → (cpu me : ℕ) → Machine
clockintr m cpu me =
    if cpu == 0
    then record { kernel = wakeup (update_time m.kernel) me ticks_chan; ticks = inc32 m.ticks }
    else m

-- The ticks since `ticks0`, in 32-bit arithmetic.
abbrev pub elapsed : ℕ → ℕ → ℕ
elapsed now ticks0 = (now + 2 ^ 32 - ticks0) % 2 ^ 32

-- The while loop, up to the next sleep.
unfoldable pub pause_loop : Machine → (me ticks0 n : ℕ) → Return
pause_loop m me ticks0 n =
    if ltb (elapsed m.ticks ticks0) n
    then if killed (proc_of m me)
      then value minus_word m
      else blocked (record m { kernel = sleep_on m.kernel me ticks_chan })
    else value 0 m

unfoldable pub pause_resume : Machine → (me ticks0 n : ℕ) → Return
unfolding pause_loop
pause_resume m me ticks0 n = pause_loop (record m { kernel = tidy_up m.kernel me }) me ticks0 n

-- `pos_part` is the `if(n < 0) n = 0`.
unfoldable pub pause : Machine → (me : ℕ) → ℤ → Return
unfolding pause_loop
pause m me n = pause_loop m me m.ticks (pos_part n)

abbrev pub uptime : Machine → ℕ
uptime m = m.ticks
