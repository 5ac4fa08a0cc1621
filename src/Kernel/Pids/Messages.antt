-- ===== src/Kernel/Pids/Messages.antt =====
-- The calls on other processes of kernel/proc.c, semaphores, signals and mailboxes keep the numbers.
use g20_os_lab_project.Common.{
  ℕ, ◌+◌, ◌≡◌, refl, Bool, true, false, ltb, Option, none, some, ℤ, pos, negsuc, if◌then◌else◌,
  ◌==◌, ◌||◌, not, Bool-cases, inl, inr,
}
use g20_os_lab_project.Kernel.Types.{
  Kernel, Procstate, unused, used, sleeping, runnable, running, zombie, nsem, sem_chan, msg_chan,
}
use g20_os_lab_project.Kernel.Table.{is_unused, is_sleeping, find_proc}
use g20_os_lab_project.Kernel.Sched.{tidy_up, wakeup, yield, kkill, kill_at}
use g20_os_lab_project.Kernel.Priority.{priority_valid, setpriority, set_at}
use g20_os_lab_project.Kernel.Semaphore.{
  set_sem, ksem_init, sem_loop, sem_enter, ksem_wait, ksem_post,
}
use g20_os_lab_project.Kernel.Signal.{post_signal, send_to, sigsend}
use g20_os_lab_project.Kernel.Mailbox.{Copied, send_at, msgsend, msgrecv}
use g20_os_lab_project.Kernel.Pids.{IsInUse, kernel_of}
use g20_os_lab_project.Kernel.Pids.Calls.{sleep_on-KeepsPids}
use g20_os_lab_project.Kernel.Pids.Keeping.{
  KeepsPids, KeepsPids-refl, KeepsPids-trans, set_proc-KeepsPids, wakeup-KeepsPids,
}

-- To wake a sleeping process up does not bring a free entry into use.
woken_unused :
    (s : Procstate)
    → is_unused (if is_sleeping s then runnable else s) ≡ false
    → is_unused s ≡ false
woken_unused unused h = h
woken_unused used h = refl
woken_unused sleeping h = refl
woken_unused runnable h = refl
woken_unused running h = refl
woken_unused zombie h = refl

pub kkill-KeepsPids : (k : Kernel) (pid : ℤ) → KeepsPids k (kkill k pid).1
unfolding kkill
kkill-KeepsPids k pid = go (find_proc _ k)
  where
    go : (o : Option ℕ) → KeepsPids k (kill_at k o).1
    go none = unfold kill_at in KeepsPids-refl k
    go (some i) =
        unfold kill_at in set_proc-KeepsPids k i _ (λ h. (woken_unused (k.procs i).state h, refl))

pub setpriority-KeepsPids :
    (k : Kernel) (pid priority : ℤ) → KeepsPids k (setpriority k pid priority).1
unfolding setpriority
setpriority-KeepsPids k pid priority = elim (Bool-cases (priority_valid priority)) [
  | inl valid ↦ rw valid (go _ (find_proc _ k))
  | inr invalid ↦ rw invalid (KeepsPids-refl k)
]
  where
    go : (p : ℕ) (o : Option ℕ) → KeepsPids k (set_at k p o).1
    go p none = unfold set_at in KeepsPids-refl k
    go p (some i) = unfold set_at in set_proc-KeepsPids k i _ (λ h. (h, refl))

-- A write to a semaphore, and a wakeup.
sem_woken :
    (k : Kernel) (me i value : ℕ) (on : Bool)
    → KeepsPids k (wakeup (set_sem k i (record { used = on; value = value })) me (sem_chan i))
sem_woken k me i value on =
    KeepsPids-trans (record { next = refl; entry = λ j h. (h, refl) })
      (wakeup-KeepsPids (set_sem k i (record { used = on; value = value })) me (sem_chan i))

pub ksem_init-KeepsPids :
    (k : Kernel) (me : ℕ) (semid value : ℤ) → KeepsPids k (ksem_init k me semid value).1
unfolding ksem_init
ksem_init-KeepsPids k me (negsuc n) value = KeepsPids-refl k
ksem_init-KeepsPids k me (pos i) (negsuc n) = KeepsPids-refl k
ksem_init-KeepsPids k me (pos i) (pos value) = elim (Bool-cases (ltb i nsem)) [
  | inl inside ↦ rw inside (sem_woken k me i value true)
  | inr outside ↦ rw outside (KeepsPids-refl k)
]

pub ksem_post-KeepsPids : (k : Kernel) (me : ℕ) (semid : ℤ) → KeepsPids k (ksem_post k me semid).1
unfolding ksem_post
ksem_post-KeepsPids k me (negsuc n) = KeepsPids-refl k
ksem_post-KeepsPids k me (pos i) = elim (Bool-cases (ltb i nsem)) [
  | inr outside ↦ rw outside (KeepsPids-refl k)
  | inl inside ↦ elim (Bool-cases (k.semtable i).used) [
    | inl known ↦ rw (inside, known) (sem_woken k me i ((k.semtable i).value + 1) true)
    | inr unknown ↦ rw (inside, unknown) (KeepsPids-refl k)
  ]
]

pub ksem_wait-KeepsPids :
    (k : Kernel) (me : ℕ) (semid : ℤ)
    → IsInUse k me
    → KeepsPids k (kernel_of (ksem_wait k me semid))
unfolding ksem_wait sem_enter sem_loop
ksem_wait-KeepsPids k me (negsuc n) busy = KeepsPids-refl k
ksem_wait-KeepsPids k me (pos i) busy = elim (Bool-cases (ltb i nsem)) [
  | inr outside ↦ rw outside (KeepsPids-refl k)
  | inl inside ↦ elim (Bool-cases (k.semtable i).used) [
    | inr unknown ↦ rw (inside, unknown) (KeepsPids-refl k)
    | inl known ↦ elim (Bool-cases ((k.semtable i).value == 0)) [
      | inl empty ↦ rw (inside, known, empty) (sleep_on-KeepsPids k me (sem_chan i) busy)
      | inr some_left ↦
          rw (inside, known, some_left) (record { next = refl; entry = λ j h. (h, refl) })
    ]
  ]
]

pub sigsend-KeepsPids : (k : Kernel) (pid signum : ℤ) → KeepsPids k (sigsend k pid signum).1
unfolding sigsend
sigsend-KeepsPids k pid (negsuc n) = KeepsPids-refl k
sigsend-KeepsPids k pid (pos signum) = elim (Bool-cases (signum == 0)) [
  | inl nothing ↦ rw nothing (KeepsPids-refl k)
  | inr real ↦ rw real (go (find_proc _ k))
]
  where
    go : (o : Option ℕ) → KeepsPids k (send_to k signum o).1
    go none = unfold send_to in KeepsPids-refl k
    go (some i) =
        unfold send_to post_signal in
        elim (Bool-cases
          (not (k.procs i).signal_registered || not ((k.procs i).pending_signal == 0))) [
            | inl refused ↦ rw refused (KeepsPids-refl k)
            | inr posted ↦
                rw posted (set_proc-KeepsPids k i _ (λ h. (woken_unused (k.procs i).state h, refl)))
          ]

pub msgsend-KeepsPids :
    (k : Kernel) (me : ℕ) (pid : ℤ) (copied : Copied) → KeepsPids k (msgsend k me pid copied).1
unfolding msgsend
msgsend-KeepsPids k me pid copied = go (find_proc _ k)
  where
    go : (o : Option ℕ) → KeepsPids k (send_at k me copied o).1
    go none = unfold send_at in KeepsPids-refl k
    go (some i) =
        unfold send_at in
        elim (Bool-cases (k.procs i).msg_flag) [
          | inl full ↦ rw full (KeepsPids-refl k)
          | inr free ↦ elim (Bool-cases copied.success) [
            | inr bad ↦ rw (free, bad) (set_proc-KeepsPids k i _ (λ h. (h, refl)))
            | inl good ↦
                rw (free, good)
                  (KeepsPids-trans (set_proc-KeepsPids k i _ (λ h. (h, refl)))
                    (wakeup-KeepsPids _ me (msg_chan i)))
          ]
        ]

pub msgrecv-KeepsPids :
    (k : Kernel) (me : ℕ) (ok : Bool) → IsInUse k me → KeepsPids k (kernel_of (msgrecv k me ok).0)
unfolding msgrecv
msgrecv-KeepsPids k me ok busy = elim (Bool-cases (k.procs me).msg_flag) [
  | inr empty ↦ rw empty (sleep_on-KeepsPids k me (msg_chan me) busy)
  | inl full ↦ elim (Bool-cases ok) [
    | inl good ↦ rw (full, good) (set_proc-KeepsPids k me _ (λ h. (h, refl)))
    | inr bad ↦ rw (full, bad) (KeepsPids-refl k)
  ]
]

pub yield-KeepsPids : (k : Kernel) (me : ℕ) → IsInUse k me → KeepsPids k (yield k me)
unfolding yield
yield-KeepsPids k me busy = set_proc-KeepsPids k me _ (λ h. (busy, refl))

pub tidy_up-KeepsPids : (k : Kernel) (me : ℕ) → KeepsPids k (tidy_up k me)
unfolding tidy_up
tidy_up-KeepsPids k me = set_proc-KeepsPids k me _ (λ h. (h, refl))
