-- ===== src/Kernel/Family/Threads.antt =====
-- Which of the waiting calls of kernel/proc.c see a child, and what kclone makes.
use g20_os_lab_project.Common.{
  ℕ, ◌<◌, ◌≡◌, ◌≢◌, refl, ap, ◌∙◌, Bool, true, false, if◌then◌else◌, Option, none, some, ℤ, pos,
  minus_one, arith, update_self, update_ne, inl, inr, ◌==◌, ◌||◌, ==_of_ne,
}
use g20_os_lab_project.Kernel.Types.{Kernel, Proc, Procstate, returns, unused, nproc}
use g20_os_lab_project.Kernel.Table.{find_proc, set_proc, Found, find_proc-Found, find_proc_lem}
use g20_os_lab_project.Kernel.Alloc.{freeproc}
use g20_os_lab_project.Kernel.Family.{
  is_child, is_zombie_child, is_zombie_thread_of, wait_on, join_found, kjoin, reap, kwait, waitx,
}

no_passing :
    (test : ℕ → Proc → Bool) (k : Kernel)
    → ((j : ℕ) → j < nproc → test j (k.procs j) ≡ false)
    → find_proc test k ≡ none
no_passing test k all = elim (find_proc_lem test k) [
  | inl (e, rest) ↦ e
  | inr (j, e, f) ↦ absurd (ground (arith, all j f.below, f.passes))
]

-- Where the caller is the parent of no process of the table but threads, zombies or not, kwait
-- and waitx both return -1, change nothing and write nothing.
pub kwait_threads :
    (k : Kernel) (me addr : ℕ) (copy_ok : Bool)
    → ((j : ℕ) → j < nproc → is_child me j (k.procs j) ≡ false)
    → (kwait k me addr copy_ok ≡ (returns minus_one k, none))
      × (waitx k me copy_ok ≡ (returns minus_one k, none))
unfolding kwait waitx reap wait_on
kwait_threads k me addr copy_ok all =
    rw
      (no_passing (is_zombie_child me) k (λ j h. rw (all j h) refl), no_passing (is_child me) k all)
      (ground arith, ground arith)

-- Where the table has a zombie child and no address is given or copyout succeeds, kwait returns the
-- number of the first one, writes its exit status if an address is given, and leaves its slot unused, with the number
-- 0 and no parent.
pub kwait_zombie :
    (k : Kernel) (me addr i : ℕ) (copy_ok : Bool)
    → Found (is_zombie_child me) k.procs 0 nproc i
    → (addr == 0 || copy_ok) ≡ true
    → (k' : Kernel) × (kwait k me addr copy_ok
        ≡ (returns (pos (k.procs i).pid) k', if addr == 0 then none else some (k.procs i).xstate))
      × ((k'.procs i).state ≡ unused)
      × ((k'.procs i).pid ≡ 0)
      × ((k'.procs i).parent ≡ none)
unfolding kwait reap freeproc
kwait_zombie k me addr i copy_ok f copied = (
  set_proc k i (freeproc (k.procs i)),
  rw (find_proc-Found (is_zombie_child me) k i f) (ground (arith, copied)),
  freed Procstate Proc.state unused refl,
  freed ℕ Proc.pid 0 refl,
  freed (Option ℕ) Proc.parent none refl,
)
  where
    freed :
        (A : Type 0) (field : Proc → A) (v : A)
        → field (freeproc (k.procs i)) ≡ v
        → field ((set_proc k i (freeproc (k.procs i))).procs i) ≡ v
    freed A field v e = ap field (update_self k.procs i (freeproc (k.procs i))) ∙ e

-- Where an address is given and copyout fails, kwait returns -1 and frees nothing.
pub kwait_uncopied :
    (k : Kernel) (me addr i : ℕ)
    → Found (is_zombie_child me) k.procs 0 nproc i
    → addr ≢ 0
    → kwait k me addr false ≡ (returns minus_one k, none)
unfolding kwait reap
kwait_uncopied k me addr i f real =
    rw (find_proc-Found (is_zombie_child me) k i f, ==_of_ne addr 0 real) refl

-- kjoin of a thread of the caller that is a zombie returns its number and frees its slot; no
-- other slot changes.
pub kjoin_zombie :
    (k : Kernel) (me i : ℕ) (tid : ℤ)
    → Found (is_zombie_thread_of me tid) k.procs 0 nproc i
    → (k' : Kernel) × (kjoin k me tid ≡ returns tid k')
      × ((k'.procs i).state ≡ unused)
      × ((j : ℕ) → j ≢ i → k'.procs j ≡ k.procs j)
unfolding kjoin join_found freeproc
kjoin_zombie k me i tid f = (
  set_proc k i (freeproc (k.procs i)),
  rw (find_proc-Found (is_zombie_thread_of me tid) k i f) refl,
  ap Proc.state (update_self k.procs i (freeproc (k.procs i))),
  λ j ne. update_ne k.procs i j (freeproc (k.procs i)) ne,
)
