-- ===== src/Kernel/Pids/Keeping.antt =====
-- Calls that make no process: every entry in use afterwards was in use with the same number.
use g20_os_lab_project.Common.{
  ℕ, ◌≡◌, refl, ap, ◌∙◌, true, false, arith, update_self, update_ne, ltb, some, Bool-cases, inl,
  inr, for_range-inv,
}
use native.Mathlib.Decide.{ℕ_discrete}
use g20_os_lab_project.Kernel.Types.{
  Kernel, Proc, Procstate, unused, used, sleeping, runnable, running, zombie, nproc, Channel,
  proc_chan,
}
use g20_os_lab_project.Kernel.Table.{set_proc, is_unused}
use g20_os_lab_project.Kernel.Sched.{
  wakeup, wake_one, schedule_entry, is_runnable, update_time, time_one, wakeup_self,
}
use g20_os_lab_project.Kernel.Alloc.{freeproc}
use g20_os_lab_project.Kernel.Family.{reparent, reparent_one, has_parent}

-- An entry after a call against the entry before it.
abbrev pub SameEntry : Proc → Proc → Type 0
SameEntry before after =
    is_unused after.state ≡ false → (is_unused before.state ≡ false) × (after.pid ≡ before.pid)

pub record KeepsPids (k k' : Kernel) : Type 0 where
  pub next : k'.next_pid ≡ k.next_pid
  pub entry : (j : ℕ) → SameEntry (k.procs j) (k'.procs j)

pub KeepsPids-refl : (k : Kernel) → KeepsPids k k
KeepsPids-refl k = record { next = refl; entry = λ j h. (h, refl) }

pub KeepsPids-trans : {k l m : Kernel} → KeepsPids k l → KeepsPids l m → KeepsPids k m
KeepsPids-trans a b = record {
  next = b.next ∙ a.next;
  entry = λ j h.
      let (busy, same) = b.entry j h in
      let (busy', same') = a.entry j busy in (busy', same ∙ same');
}

pub set_proc-KeepsPids :
    (k : Kernel) (i : ℕ) (p : Proc) → SameEntry (k.procs i) p → KeepsPids k (set_proc k i p)
set_proc-KeepsPids k i p same = record {
  next = refl;
  entry = λ j. elim (ℕ_discrete j i) [
    | yes e ↦ rw e (rw (update_self k.procs i p) same)
    | no ne ↦ rw (update_ne k.procs i j p ne) (λ h. (h, refl))
  ];
}

pub freeproc-KeepsPids : (k : Kernel) (i : ℕ) → KeepsPids k (set_proc k i (freeproc (k.procs i)))
unfolding freeproc
freeproc-KeepsPids k i = set_proc-KeepsPids k i _ (λ h. absurd (cc))

wake_one-SameEntry :
    (me : ℕ) (chan : Channel) (j : ℕ) (p : Proc) → SameEntry p (wake_one me chan j p)
unfolding wake_one
wake_one-SameEntry me chan j p = woken p.state refl
  where
    woken : (s : Procstate) → p.state ≡ s → SameEntry p (wake_one me chan j p)
    woken unused e h = ground (arith, e, h)
    woken used e h = ground (arith, e, h)
    woken sleeping e h = ground (arith, e, h)
    woken runnable e h = ground (arith, e, h)
    woken running e h = ground (arith, e, h)
    woken zombie e h = ground (arith, e, h)

pub wakeup-KeepsPids : (k : Kernel) (me : ℕ) (chan : Channel) → KeepsPids k (wakeup k me chan)
unfolding wakeup
wakeup-KeepsPids k me chan = record {
  next = refl;
  entry = λ j. elim (Bool-cases (ltb j nproc)) [
    | inl inside ↦ rw inside (wake_one-SameEntry me chan j (k.procs j))
    | inr outside ↦ rw outside (λ h. (h, refl))
  ];
}

time_one-SameEntry : (j : ℕ) (p : Proc) → SameEntry p (time_one j p)
unfolding time_one
time_one-SameEntry j p h = ground (arith, h)

pub update_time-KeepsPids : (k : Kernel) → KeepsPids k (update_time k)
unfolding update_time
update_time-KeepsPids k = record {
  next = refl;
  entry = λ j. elim (Bool-cases (ltb j nproc)) [
    | inl inside ↦ rw inside (time_one-SameEntry j (k.procs j))
    | inr outside ↦ rw outside (λ h. (h, refl))
  ];
}

reparent_one-KeepsPids : (me : ℕ) (k : Kernel) (i : ℕ) → KeepsPids k (reparent_one me k i)
unfolding reparent_one
reparent_one-KeepsPids me k i = elim (Bool-cases (has_parent me (k.procs i))) [
  | inl child ↦ rw child (
      KeepsPids-trans
        (set_proc-KeepsPids k i (record (k.procs i) { parent = some k.init_proc }) (λ h. (h, refl)))
        (wakeup-KeepsPids _ me (proc_chan k.init_proc)))
  | inr other ↦ rw other (KeepsPids-refl k)
]

pub reparent-KeepsPids : (k : Kernel) (me : ℕ) → KeepsPids k (reparent k me)
unfolding reparent
reparent-KeepsPids k me =
    for_range-inv (KeepsPids k) (reparent_one me) 0 nproc k
      (λ l i h a. KeepsPids-trans a (reparent_one-KeepsPids me l i)) (KeepsPids-refl k)

-- reparent leaves the state of its caller.
pub reparent-state : (k : Kernel) (me : ℕ) → ((reparent k me).procs me).state ≡ (k.procs me).state
unfolding reparent
reparent-state k me =
    for_range-inv (λ l. (l.procs me).state ≡ (k.procs me).state) (reparent_one me) 0 nproc k
      (λ l i h same. one l i ∙ same) refl
  where
    one : (l : Kernel) (i : ℕ) → ((reparent_one me l i).procs me).state ≡ (l.procs me).state
    one l i =
        unfold reparent_one in
        elim (Bool-cases (has_parent me (l.procs i))) [
          | inr other ↦ rw other refl
          | inl child ↦ rw child (
              ap (λ (p : Proc). p.state)
                (wakeup_self (set_proc l i (record (l.procs i) { parent = some l.init_proc })) me
                  (proc_chan l.init_proc))
              ∙ (elim (ℕ_discrete me i) [
                | yes e ↦ rw e (ap (λ (p : Proc). p.state) (update_self l.procs i _))
                | no ne ↦ ap (λ (p : Proc). p.state) (update_ne l.procs i me _ ne)
              ]))
        ]

pub schedule_entry-KeepsPids : (k : Kernel) (i : ℕ) → KeepsPids k (schedule_entry k i)
unfolding schedule_entry
schedule_entry-KeepsPids k i = elim (Bool-cases (is_runnable (k.procs i).state)) [
  | inl ready ↦ rw ready (
      set_proc-KeepsPids k i (record (k.procs i) { state = running })
        (λ h. (busy (k.procs i).state ready, refl)))
  | inr other ↦ rw other (KeepsPids-refl k)
]
  where
    busy : (s : Procstate) → is_runnable s ≡ true → is_unused s ≡ false
    busy runnable h = refl
    busy unused h = absurd (cc)
    busy used h = absurd (cc)
    busy sleeping h = absurd (cc)
    busy running h = absurd (cc)
    busy zombie h = absurd (cc)
