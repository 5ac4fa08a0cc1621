-- ===== src/Kernel/Family/Waiting.antt =====
-- A process that ends and the parent that waits for it: kexit and kwait of kernel/proc.c together.
use g20_os_lab_project.Common.{
  ℕ, ◌<◌, ◌≡◌, ◌≢◌, refl, ap, ◌∙◌, sym, subst, true, false, not, ◌&&◌, ◌⊎◌, Bool, minus_one, ◌==◌,
  if◌then◌else◌, none, some, ℤ, pos, arith, update_self, update_ne, for_range-inv, Bool-cases, inl,
  inr, ==_of_ne, ==_self, ltb,
}
use native.Mathlib.Decide.{ℕ_discrete}
use g20_os_lab_project.Kernel.Types.{
  Kernel, Proc, unused, zombie, nproc, Channel, proc_chan, returns,
}
use g20_os_lab_project.Kernel.Table.{set_proc, is_sleeping, same_chan, Found}
use g20_os_lab_project.Kernel.Sched.{wakeup, wake_one, wakeup_self, wakeup-wakes}
use g20_os_lab_project.Kernel.Family.{
  has_parent, is_zombie_child, reparent, reparent_one, kexit_resume, kwait, chan_of, end_with,
}
use g20_os_lab_project.Kernel.Family.Birth.{reparent_self}
use g20_os_lab_project.Kernel.Family.Threads.{kwait_zombie, kwait_uncopied}

-- What reparent and wakeup do to an entry, as far as a waiting parent `p` can tell: the channel stays,
-- and it does not become a zombie child of `p`.
record NoNewZombie (p j : ℕ) (before after : Proc) : Type 0 where
  chan : after.chan ≡ before.chan
  zombie_child : is_zombie_child p j after ≡ true → is_zombie_child p j before ≡ true

NoNewZombie-trans :
    (p j : ℕ) {a b c : Proc} → NoNewZombie p j a b → NoNewZombie p j b c → NoNewZombie p j a c
NoNewZombie-trans p j x y = record {
  chan = y.chan ∙ x.chan;
  zombie_child = λ h. x.zombie_child (y.zombie_child h);
}

wake_one-NoNewZombie :
    (p me : ℕ) (chan : Channel) (j : ℕ) (q : Proc) → NoNewZombie p j q (wake_one me chan j q)
unfolding wake_one
wake_one-NoNewZombie p me chan j q =
    elim (Bool-cases (not (j == me) && (is_sleeping q.state && same_chan q.chan chan))) [
      | inl wakes ↦ rw wakes (record { chan = refl; zombie_child = λ h. ground (arith, h) })
      | inr stays ↦ rw stays (record { chan = refl; zombie_child = λ h. h })
    ]

wakeup-NoNewZombie :
    (k : Kernel) (p me : ℕ) (chan : Channel) (j : ℕ)
    → NoNewZombie p j (k.procs j) ((wakeup k me chan).procs j)
unfolding wakeup
wakeup-NoNewZombie k p me chan j = elim (Bool-cases (ltb j nproc)) [
  | inl inside ↦ rw inside (wake_one-NoNewZombie p me chan j (k.procs j))
  | inr outside ↦ rw outside (record { chan = refl; zombie_child = λ h. h })
]

-- What every round of reparent keeps.
record Reparented (p : ℕ) (k l : Kernel) : Type 0 where
  init : l.init_proc ≡ k.init_proc
  entries : (j : ℕ) → NoNewZombie p j (k.procs j) (l.procs j)

reparent_one-Reparented :
    (p me i : ℕ) (k l : Kernel)
    → p ≢ k.init_proc
    → Reparented p k l
    → Reparented p k (reparent_one me l i)
unfolding reparent_one
reparent_one-Reparented p me i k l ne r = elim (Bool-cases (has_parent me (l.procs i))) [
  | inr other ↦ rw other r
  | inl child ↦ rw child (record {
    init = unfold wakeup in r.init;
    entries = λ j.
        NoNewZombie-trans p j (r.entries j) (
          NoNewZombie-trans p j (given j)
            (wakeup-NoNewZombie moved p me (proc_chan l.init_proc) j));
  })
]
  where
    orphan : Proc
    orphan = record (l.procs i) { parent = some l.init_proc }

    moved : Kernel
    moved = set_proc l i orphan

    not_p : (l.init_proc == p) ≡ false
    not_p = ==_of_ne l.init_proc p (λ e. ne (sym e ∙ r.init))

    given : (j : ℕ) → NoNewZombie p j (l.procs j) (moved.procs j)
    given j = elim (ℕ_discrete j i) [
      | no far ↦
          rw (update_ne l.procs i j orphan far) (record { chan = refl; zombie_child = λ h. h })
      | yes e ↦ rw e (
          rw (update_self l.procs i orphan)
            (record { chan = refl; zombie_child = λ h. let no_way = rw not_p at h in absurd (cc) }))
    ]

reparent-Reparented : (p me : ℕ) (k : Kernel) → p ≢ k.init_proc → Reparented p k (reparent k me)
unfolding reparent
reparent-Reparented p me k ne =
    for_range-inv (Reparented p k) (reparent_one me) 0 nproc k
      (λ l i h r. reparent_one-Reparented p me i k l ne r)
      (record { init = refl; entries = λ j. record { chan = refl; zombie_child = λ h. h } })

-- A child `c` of `p`, not a thread, ends with a status, from where its files are closed; `p` is not
-- init, and before `c` in the table `p` has no zombie child. Then `p` does not sleep on in its wait:
-- it is not asleep on its own channel. And kwait of `p` with the address 0, or where copyout succeeds,
-- returns the number of `c`, copies out its exit status if the address is not 0, and frees its slot;
-- with another address, where copyout fails, it returns -1, copies nothing and changes nothing.
pub kwait-kexit :
    (k : Kernel) (p c addr : ℕ) (status : ℤ) (copy_ok : Bool)
    → c < nproc
    → p < nproc
    → c ≢ p
    → p ≢ k.init_proc
    → (k.procs c).parent ≡ some p
    → (k.procs c).is_thread ≡ false
    → ((l : ℕ) → l < c → is_zombie_child p l (k.procs l) ≡ false)
    → let k' = kexit_resume k c status in
      ((is_sleeping (k'.procs p).state && same_chan (k'.procs p).chan (proc_chan p)) ≡ false)
      × ((((addr ≡ 0) ⊎ (copy_ok ≡ true))
            × ((k'' : Kernel) × (kwait k' p addr copy_ok
                  ≡ (returns (pos (k.procs c).pid) k'', if addr == 0 then none else some status))
                × ((k''.procs c).state ≡ unused)))
          ⊎ ((addr ≢ 0)
              × (copy_ok ≡ false)
              × (kwait k' p addr copy_ok ≡ (returns minus_one k', none))))
unfolding kexit_resume end_with
kwait-kexit k p c addr status copy_ok small small_p ne p_not_init child no_thread none_before = (
  ap (λ (q : Proc). is_sleeping q.state && same_chan q.chan (proc_chan p))
        (update_ne woken.procs c p _ (λ e. ne (sym e)))
      ∙ rw to_parent (wakeup-wakes orphaned c (proc_chan p) p small_p (λ e. ne (sym e))),
  elim (ℕ_discrete addr 0) [
    | yes zero_addr ↦
        inl (inl zero_addr, waited (kwait_zombie ended p addr c copy_ok found (ground arith)))
    | no real ↦ elim (Bool-cases copy_ok) [
      | inl good ↦ inl (inr good, waited (kwait_zombie ended p addr c copy_ok found (ground arith)))
      | inr bad ↦ inr (real, bad, rw bad (kwait_uncopied ended p addr c found real))
    ]
  ],
)
  where
    closed_c : Proc
    closed_c = record (k.procs c) { cwd = none }

    closed : Kernel
    closed = set_proc k c closed_c

    closed_here : closed.procs c ≡ closed_c
    closed_here = update_self k.procs c closed_c

    orphaned : Kernel
    orphaned = reparent closed c

    own : has_parent c (closed.procs c) ≡ false
    own = rw (closed_here, child) (==_of_ne p c (λ e. ne (sym e)))

    orphaned_here : orphaned.procs c ≡ closed_c
    orphaned_here = reparent_self closed c own ∙ closed_here

    to_parent : chan_of (orphaned.procs c).parent ≡ proc_chan p
    to_parent = ap (λ (q : Proc). chan_of q.parent) orphaned_here ∙ ap chan_of child

    woken : Kernel
    woken = wakeup orphaned c (chan_of (orphaned.procs c).parent)

    woken_here : woken.procs c ≡ closed_c
    woken_here = wakeup_self orphaned c (chan_of (orphaned.procs c).parent) ∙ orphaned_here

    ended : Kernel
    ended = end_with c status woken

    ended_here : ended.procs c ≡ record closed_c { xstate = status; state = zombie }
    ended_here =
        update_self woken.procs c _
        ∙ ap (λ (q : Proc). record q { xstate = status; state = zombie }) woken_here

    quiet : (l : ℕ) → l < c → is_zombie_child p l (ended.procs l) ≡ false
    quiet l below = elim (Bool-cases (is_zombie_child p l (ended.procs l))) [
      | inr none_here ↦ none_here
      | inl some_here ↦
          let far : l ≢ c = λ e. omega (arith, e) in
          let in_woken =
            subst (λ (q : Proc). is_zombie_child p l q ≡ true) (update_ne woken.procs c l _ far)
              some_here in
          let in_orphaned =
            (wakeup-NoNewZombie orphaned p c (chan_of (orphaned.procs c).parent) l).zombie_child
              in_woken in
          let in_closed =
            ((reparent-Reparented p c closed p_not_init).entries l).zombie_child in_orphaned in
          let in_k =
            subst (λ (q : Proc). is_zombie_child p l q ≡ true) (update_ne k.procs c l _ far)
              in_closed in
          let no_way = none_before l below in absurd (cc)
    ]

    found : Found (is_zombie_child p) ended.procs 0 nproc c
    found = record {
      from = omega arith;
      below = omega (arith, small);
      passes = rw (ended_here, child, no_thread, ==_self p) refl;
      first = λ l a b. quiet l b;
    }

    waited :
        (k'' : Kernel) × (kwait ended p addr copy_ok ≡ (
          returns (pos (ended.procs c).pid) k'',
          if addr == 0 then none else some (ended.procs c).xstate,
        ))
          × ((k''.procs c).state ≡ unused)
          × ((k''.procs c).pid ≡ 0)
          × ((k''.procs c).parent ≡ none)
        → (k'' : Kernel) × (kwait ended p addr copy_ok
            ≡ (returns (pos (k.procs c).pid) k'', if addr == 0 then none else some status))
          × ((k''.procs c).state ≡ unused)
    waited (k'', e, free, no_pid, no_parent) = (k'', e ∙ (rw ended_here refl), free)
