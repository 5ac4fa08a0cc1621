-- ===== src/Kernel/Semaphore/Counting.antt =====
-- Runs of calls on one kernel semaphore: every unit is accounted for and no wakeup is lost.
-- (kernel/proc.c)
use g20_os_lab_project.Common.{
  ℕ, ◌+◌, ◌-◌, ◌<◌, ◌≡◌, ◌≢◌, refl, ap, sym, subst, ◌∙◌, Bool, true, false, ◌&&◌, pos, arith,
  update_self, update_ne, lt→ltb, ==_of_ne,
}
use native.Mathlib.Decide.{ℕ_discrete}
use g20_os_lab_project.Kernel.Types.{
  Kernel, Proc, Ksem, Outcome, returns, sleeps, sem_chan, no_chan, nsem, nproc,
}
use g20_os_lab_project.Kernel.Table.{is_sleeping, same_chan}
use g20_os_lab_project.Kernel.Sched.{sleep_on, tidy_up, wakeup, wakeup-wakes, wakeup_self}
use g20_os_lab_project.Kernel.Semaphore.{
  set_sem, sem_loop, sem_enter, ksem_wait, ksem_resume, ksem_post,
}

-- The process `j` sleeps on the semaphore `i`.
abbrev pub waits_on : ℕ → Proc → Bool
waits_on i p = is_sleeping p.state && same_chan p.chan (sem_chan i)

-- One step of a run: the units it posts and takes, and the kernel after it. A call is made by a
-- process that does not sleep. `other` is any step that leaves the semaphore alone and puts no process to
-- sleep on it: a call of another kind, or a kkill or a signal that wakes a process.
pub data Step (i : ℕ) (k : Kernel) : (posts takes : ℕ) → Kernel → Type 0 where
  posted :
      (me : ℕ) (k' : Kernel)
      → waits_on i (k.procs me) ≡ false
      → ksem_post k me (pos i) ≡ (pos 0, k')
      → Step i k 1 0 k'
  taken : (me : ℕ) (k' : Kernel) → ksem_wait k me (pos i) ≡ returns (pos 0) k' → Step i k 0 1 k'
  slept : (me : ℕ) (k' : Kernel) → ksem_wait k me (pos i) ≡ sleeps k' → Step i k 0 0 k'
  resumed_taken : (me : ℕ) (k' : Kernel) → ksem_resume k me i ≡ returns (pos 0) k' → Step i k 0 1 k'
  resumed_slept : (me : ℕ) (k' : Kernel) → ksem_resume k me i ≡ sleeps k' → Step i k 0 0 k'
  other :
      (k' : Kernel)
      → k'.semtable i ≡ k.semtable i
      → ((j : ℕ) → waits_on i (k'.procs j) ≡ true → waits_on i (k.procs j) ≡ true)
      → Step i k 0 0 k'

pub data Run (i : ℕ) (k : Kernel) : (posts takes : ℕ) → Kernel → Type 0 where
  start : Run i k 0 0 k
  then_step :
      (p t p' t' : ℕ) (k1 k2 : Kernel)
      → Run i k p t k1
      → Step i k1 p' t' k2
      → Run i k (p + p') (t + t') k2

-- Whoever waits for the semaphore finds nothing to take.
abbrev pub NoLostWakeup : ℕ → Kernel → Type 0
NoLostWakeup i k = (j : ℕ) → j < nproc → waits_on i (k.procs j) ≡ true → (k.semtable i).value ≡ 0

record Kept (i posts takes : ℕ) (k k' : Kernel) : Type 0 where
  in_use : (k'.semtable i).used ≡ true
  units : (k'.semtable i).value + takes ≡ (k.semtable i).value + posts
  wakes : NoLostWakeup i k → NoLostWakeup i k'

Kept-trans :
    {i p t p' t' : ℕ} {k k1 k2 : Kernel}
    → Kept i p t k k1
    → Kept i p' t' k1 k2
    → Kept i (p + p') (t + t') k k2
Kept-trans a b = record {
  in_use = b.in_use;
  units = omega (arith, a.units, b.units);
  wakes = λ h. b.wakes (a.wakes h);
}

tidy_up-Kept :
    (i : ℕ) (k : Kernel) (me : ℕ) → (k.semtable i).used ≡ true → Kept i 0 0 k (tidy_up k me)
unfolding tidy_up
tidy_up-Kept i k me used = record {
  in_use = used;
  units = refl;
  wakes = λ h j q w. elim (ℕ_discrete j me) [
    | yes same ↦ absurd (ground (arith, same, w))
    | no ne ↦
        h j q (rw (sym (update_ne k.procs me j (record (k.procs me) { chan = no_chan }) ne)) w)
  ];
}

unwoken :
    (k : Kernel) (me i : ℕ)
    → waits_on i (k.procs me) ≡ false
    → (j : ℕ) → j < nproc
    → waits_on i ((wakeup k me (sem_chan i)).procs j) ≡ false
unwoken k me i awake j q = elim (ℕ_discrete j me) [
  | yes same ↦ rw (same, wakeup_self k me (sem_chan i)) awake
  | no ne ↦ wakeup-wakes k me (sem_chan i) j q ne
]

ksem_post-Kept :
    (i : ℕ) (k : Kernel) (me : ℕ)
    → i < nsem
    → (k.semtable i).used ≡ true
    → waits_on i (k.procs me) ≡ false
    → Kept i 1 0 k (ksem_post k me (pos i)).1
unfolding ksem_post wakeup
ksem_post-Kept i k me h used awake =
    rw (lt→ltb i nsem h, used)
      record {
        in_use =
            rw (update_self k.semtable i (record { used = true; value = (k.semtable i).value + 1 }))
              refl;
        units =
            rw (update_self k.semtable i (record { used = true; value = (k.semtable i).value + 1 }))
              (omega arith);
        wakes = λ all j q w.
            absurd (ground (arith, w, unwoken (set_sem k i posted_sem) me i awake j q));
      }
  where
    posted_sem : Ksem
    posted_sem = record { used = true; value = (k.semtable i).value + 1 }

enter_zero :
    (i : ℕ) (k : Kernel) (me : ℕ)
    → (k.semtable i).used ≡ true
    → (k.semtable i).value ≡ 0
    → sem_enter k me i ≡ sleeps (sleep_on k me (sem_chan i))
unfolding sem_enter sem_loop
enter_zero i k me used zero_value = rw (used, zero_value) refl

enter_more :
    (i : ℕ) (k : Kernel) (me : ℕ)
    → (k.semtable i).used ≡ true
    → (k.semtable i).value ≢ 0
    → sem_enter k me i
      ≡ returns (pos 0) (set_sem k i (record { used = true; value = (k.semtable i).value - 1 }))
unfolding sem_enter sem_loop
enter_more i k me used more = rw (used, ==_of_ne (k.semtable i).value 0 more) refl

kernel_of : Outcome → Kernel
kernel_of (returns r k) = k
kernel_of (sleeps k) = k

sem_enter-taken :
    (i : ℕ) (k : Kernel) (me : ℕ) (k' : Kernel)
    → (k.semtable i).used ≡ true
    → sem_enter k me i ≡ returns (pos 0) k'
    → Kept i 0 1 k k'
unfolding kernel_of
sem_enter-taken i k me k' used e = elim (ℕ_discrete (k.semtable i).value 0) [
  | yes none_left ↦ absurd (ground (arith, sym (enter_zero i k me used none_left) ∙ e))
  | no more ↦ subst (Kept i 0 1 k) (ap kernel_of (sym (enter_more i k me used more) ∙ e)) record {
    in_use =
        rw (update_self k.semtable i (record { used = true; value = (k.semtable i).value - 1 }))
          refl;
    units =
        rw (update_self k.semtable i (record { used = true; value = (k.semtable i).value - 1 }))
          (omega (arith, more));
    wakes = λ all j q w. absurd (more (all j q w));
  }
]

sem_enter-slept :
    (i : ℕ) (k : Kernel) (me : ℕ) (k' : Kernel)
    → (k.semtable i).used ≡ true
    → sem_enter k me i ≡ sleeps k'
    → Kept i 0 0 k k'
unfolding kernel_of sleep_on
sem_enter-slept i k me k' used e = elim (ℕ_discrete (k.semtable i).value 0) [
  | yes none_left ↦
      subst (Kept i 0 0 k) (ap kernel_of (sym (enter_zero i k me used none_left) ∙ e))
        record { in_use = used; units = refl; wakes = λ all j q w. none_left }
  | no more ↦ absurd (ground (arith, sym (enter_more i k me used more) ∙ e))
]

ksem_wait-valid :
    (i : ℕ) (k : Kernel) (me : ℕ) → i < nsem → ksem_wait k me (pos i) ≡ sem_enter k me i
unfolding ksem_wait
ksem_wait-valid i k me h = rw (lt→ltb i nsem h) refl

step-Kept :
    {i p t : ℕ} {k k' : Kernel}
    → i < nsem
    → (k.semtable i).used ≡ true
    → Step i k p t k'
    → Kept i p t k k'
unfolding ksem_resume tidy_up
step-Kept {i = i} {k = k} h used (posted me k' awake e) =
    subst (Kept i 1 0 k) (ap (λ r. r.1) e) (ksem_post-Kept i k me h used awake)
step-Kept {i = i} {k = k} h used (taken me k' e) =
    sem_enter-taken i k me k' used (sym (ksem_wait-valid i k me h) ∙ e)
step-Kept {i = i} {k = k} h used (slept me k' e) =
    sem_enter-slept i k me k' used (sym (ksem_wait-valid i k me h) ∙ e)
step-Kept {i = i} {k = k} h used (resumed_taken me k' e) =
    Kept-trans (tidy_up-Kept i k me used) (sem_enter-taken i (tidy_up k me) me k' used e)
step-Kept {i = i} {k = k} h used (resumed_slept me k' e) =
    Kept-trans (tidy_up-Kept i k me used) (sem_enter-slept i (tidy_up k me) me k' used e)
step-Kept h used (other k' same fewer) = record {
  in_use = rw same used;
  units = rw same refl;
  wakes = λ all j q w. rw same (all j q (fewer j w));
}

Run-Kept :
    {i : ℕ} {k : Kernel} {p t : ℕ} {k' : Kernel}
    → i < nsem
    → (k.semtable i).used ≡ true
    → Run i k p t k'
    → Kept i p t k k'
Run-Kept h used start = record { in_use = used; units = refl; wakes = λ all. all }
Run-Kept h used (then_step p t p' t' k1 k2 run step) =
    let before = Run-Kept h used run in Kept-trans before (step-Kept h before.in_use step)

-- In every run of posts, waits, resumed waits and other steps on a semaphore that is in use,
-- interleaved in any order: what it holds at the end and what was taken add up to what it held
-- and what was posted.
pub Run-units :
    (i p t : ℕ) (k k' : Kernel)
    → i < nsem
    → (k.semtable i).used ≡ true
    → Run i k p t k'
    → (k'.semtable i).value + t ≡ (k.semtable i).value + p
Run-units i p t k k' h used run = (Run-Kept h used run).units

-- If at the start of a run on a semaphore in use no process of the table sleeps on it while it
-- holds a unit, then so it is at the end, for posts, waits, resumed waits and other steps in any
-- order.
pub Run-NoLostWakeup :
    (i p t : ℕ) (k k' : Kernel)
    → i < nsem
    → (k.semtable i).used ≡ true
    → Run i k p t k'
    → NoLostWakeup i k
    → NoLostWakeup i k'
Run-NoLostWakeup i p t k k' h used run start_ok = (Run-Kept h used run).wakes start_ok
