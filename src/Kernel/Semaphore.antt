-- ===== src/Kernel/Semaphore.antt =====
-- Kernel semaphores: ksem_init, ksem_wait and ksem_post of kernel/proc.c. ksem_wait is cut where it
-- sleeps: ksem_wait runs up to the first sleep, ksem_resume from a wakeup up to the next.
pub mod Counting
use g20_os_lab_project.Common.{
  ℕ, ◌+◌, ◌-◌, Bool, true, false, ltb, ◌==◌, if◌then◌else◌, update, ℤ, pos, negsuc, minus_one,
}
use g20_os_lab_project.Kernel.Types.{Kernel, Proc, Ksem, Outcome, returns, sleeps, sem_chan, nsem}
use g20_os_lab_project.Kernel.Sched.{sleep_on, tidy_up, wakeup}

abbrev pub set_sem : Kernel → ℕ → Ksem → Kernel
set_sem k i s = record k { semtable = update k.semtable i s }

unfoldable pub ksem_init : Kernel → (me : ℕ) → ℤ → ℤ → ℤ × Kernel
ksem_init k me (pos i) (pos value) =
    if ltb i nsem
    then (pos 0, wakeup (set_sem k i (record { used = true; value = value })) me (sem_chan i))
    else (minus_one, k)
ksem_init k me _ _ = (minus_one, k)

-- The test of the while loop, and what follows it.
unfoldable pub sem_loop : Kernel → (me i : ℕ) → Outcome
sem_loop k me i =
    if (k.semtable i).value == 0
    then sleeps (sleep_on k me (sem_chan i))
    else returns (pos 0) (set_sem k i (record (k.semtable i) { value = (k.semtable i).value - 1 }))

unfoldable pub sem_enter : Kernel → (me i : ℕ) → Outcome
unfolding sem_loop
sem_enter k me i = if (k.semtable i).used then sem_loop k me i else returns minus_one k

unfoldable pub ksem_wait : Kernel → (me : ℕ) → ℤ → Outcome
unfolding sem_enter
ksem_wait k me (pos i) = if ltb i nsem then sem_enter k me i else returns minus_one k
ksem_wait k me (negsuc n) = returns minus_one k

-- After a wakeup: the semaphore is checked again.
unfoldable pub ksem_resume : Kernel → (me i : ℕ) → Outcome
unfolding sem_enter
ksem_resume k me i = sem_enter (tidy_up k me) me i

unfoldable pub ksem_post : Kernel → (me : ℕ) → ℤ → ℤ × Kernel
ksem_post k me (pos i) =
    if ltb i nsem
    then if (k.semtable i).used
      then (
        pos 0,
        wakeup (set_sem k i (record (k.semtable i) { value = (k.semtable i).value + 1 })) me
            (sem_chan i),
      )
      else (minus_one, k)
    else (minus_one, k)
ksem_post k me (negsuc n) = (minus_one, k)
