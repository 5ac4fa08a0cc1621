-- ===== src/Sim/Mlfq/Boost.antt =====
-- The periodic boost of the multilevel feedback queue. (mlfq.c)
use g20_os_lab_project.Common.{
  ℕ, zero, suc, ◌+◌, ◌≤◌, ◌<◌, ◌≡◌, ◌≢◌, refl, sym, ap, subst, ap₂, ◌∙◌, ltb, if◌then◌else◌, update,
  List, [], ◌∷◌, ◌++◌, length, length-append, append_assoc, append-nil, count, count-append, arith,
  lt→ltb, update_ne, update_self,
}
use native.Mathlib.Decide.{ℕ_discrete}
use g20_os_lab_project.Sim.Types.{ProcessRuntime, Procs}
use g20_os_lab_project.Sim.ReadyQueue.{ReadyQueue, queue_pop, contents, max_processes}
use g20_os_lab_project.Sim.ReadyQueue.Contents.{
  contents-nil, length-contents, queue_push-contents, queue_pop-front,
}
use g20_os_lab_project.Sim.Mlfq.{MlfqState, boost_one, boost_level, mlfq_boost}
use g20_os_lab_project.Sim.Mlfq.Levels.{mlfq_queued, length-mlfq_queued}

-- A process that was put back on level 0.
abbrev pub at_top : ProcessRuntime → ProcessRuntime
at_top p = record p { queue_level = 0 }

-- What a boost has moved from a level to the top.
record Boosted (level : ℕ) (s s' : MlfqState × Procs) (moved : List ℕ) : Type 0 where
  top : contents (s'.0.queues 0) ≡ contents (s.0.queues 0) ++ moved
  drained : contents (s.0.queues level) ≡ moved ++ contents (s'.0.queues level)
  others : (j : ℕ) → j ≢ 0 → j ≢ level → s'.0.queues j ≡ s.0.queues j
  levels : (a : ℕ) → s'.1 a ≡ (if ltb 0 (count a moved) then at_top (s.1 a) else s.1 a)

Boosted-trans :
    {level : ℕ} {s t u : MlfqState × Procs} {xs ys : List ℕ}
    → Boosted level s t xs
    → Boosted level t u ys
    → Boosted level s u (xs ++ ys)
Boosted-trans {level} {s} {t} {u} {xs} {ys} b c = record {
  top = c.top ∙ ap (λ l. l ++ ys) b.top ∙ append_assoc (contents (s.0.queues 0)) xs ys;
  drained =
      b.drained
      ∙ ap (λ l. xs ++ l) c.drained
      ∙ sym (append_assoc xs ys (contents (u.0.queues level)));
  others = λ j p q. c.others j p q ∙ b.others j p q;
  levels = λ a. ground (arith, b.levels a, c.levels a, count-append a xs ys);
}

-- A change of one process, told by counting in the list of that process alone.
update-count :
    {A : Type 0} (f : ℕ → A) (g : A → A) (pid a : ℕ)
    → update f pid (g (f pid)) a ≡ (if ltb 0 (count a (pid ∷ [])) then g (f a) else f a)
update-count f g pid a = elim (ℕ_discrete a pid) [
  | yes e ↦ rw e (ground arith)
  | no ne ↦ ground arith
]

-- One round of the emptying loop moves the front of the level to the end of level 0.
boost_one-Boosted :
    (level : ℕ) (m : MlfqState) (procs : Procs)
    → level ≢ 0
    → 0 < (m.queues level).size
    → (m.queues 0).size < max_processes
    → Boosted level (m, procs) (boost_one level (m, procs)) ((m.queues level).items 0 ∷ [])
unfolding boost_one
boost_one-Boosted level m procs ne more room =
    rw ((queue_pop-front (m.queues level) more).0, boost_one)
      (record {
        top =
            rw (update_ne m.queues level 0 (queue_pop (m.queues level)).1 (λ e. ne (sym e)))
              (queue_push-contents (m.queues 0) ((m.queues level).items 0) room);
        drained =
            rw
              (
                update_ne popped 0 level _ ne,
                update_self m.queues level (queue_pop (m.queues level)).1,
              )
              (queue_pop-front (m.queues level) more).1;
        others = λ j p q. update_ne popped 0 j _ p ∙ update_ne m.queues level j _ q;
        levels = update-count procs at_top ((m.queues level).items 0);
      })
  where
    popped : ℕ → ReadyQueue
    popped = update m.queues level (queue_pop (m.queues level)).1

Boosted-nil : (level : ℕ) (s : MlfqState × Procs) → Boosted level s s []
Boosted-nil level s = record {
  top = sym (append-nil (contents (s.0.queues 0)));
  drained = refl;
  others = λ j p q. refl;
  levels = λ a. refl;
}

-- The emptying loop: with fuel for every entry, it ends with the level empty and its entries, in
-- order, behind those of level 0.
boost_level-Boosted :
    (fuel level : ℕ) (m : MlfqState) (procs : Procs)
    → level ≢ 0
    → (m.queues level).size ≡ fuel
    → (m.queues 0).size + fuel ≤ max_processes
    → let s' = boost_level fuel level (m, procs) in
      Boosted level (m, procs) s' (contents (m.queues level)) × ((s'.0.queues level).size ≡ 0)
unfolding boost_level
boost_level-Boosted zero level m procs ne full room =
    (rw (contents-nil (m.queues level) full) (Boosted-nil level (m, procs)), full)
boost_level-Boosted (suc fuel) level m procs ne full room =
    let t = boost_one level (m, procs) in
    let one = boost_one-Boosted level m procs ne (omega arith) (omega arith) in
    let rest =
      boost_level-Boosted fuel level t.0 t.1 ne
        (omega (
          arith,
          ap length one.drained,
          length-contents (m.queues level),
          length-contents (t.0.queues level),
        ))
        (omega (
          arith,
          ap length one.top,
          length-append (contents (m.queues 0)) ((m.queues level).items 0 ∷ []),
          length-contents (m.queues 0),
          length-contents (t.0.queues 0),
        )) in
    rw (lt→ltb 0 (m.queues level).size (omega arith), boost_level)
      (
        subst (Boosted level (m, procs) (boost_level fuel level t)) (sym one.drained)
            (Boosted-trans one rest.0),
        rest.1,
      )

module _ {m : MlfqState} {procs : Procs} {s u : MlfqState × Procs}
    (one : Boosted 1 (m, procs) s (contents (m.queues 1)))
    (two : Boosted 2 s u (contents (s.0.queues 2))) where
  same_two : s.0.queues 2 ≡ m.queues 2
  same_two = one.others 2 (omega arith) (omega arith)

  two_boosts-top : contents (u.0.queues 0) ≡ mlfq_queued m
  two_boosts-top =
      two.top
      ∙ ap₂ (λ x y. x ++ contents y) one.top same_two
      ∙ append_assoc (contents (m.queues 0)) (contents (m.queues 1)) (contents (m.queues 2))

  two_boosts-queued :
      (s.0.queues 1).size ≡ 0 → (u.0.queues 2).size ≡ 0 → mlfq_queued u.0 ≡ mlfq_queued m
  two_boosts-queued h k =
      ap₂ (λ x y. contents (u.0.queues 0) ++ (x ++ y)) nil_one (contents-nil (u.0.queues 2) k)
      ∙ append-nil (contents (u.0.queues 0))
      ∙ two_boosts-top
    where
      nil_one : contents (u.0.queues 1) ≡ []
      nil_one =
          ap contents (two.others 1 (omega arith) (omega arith)) ∙ contents-nil (s.0.queues 1) h

  two_boosts-levels :
      (a : ℕ)
      → u.1 a ≡ (
          if ltb 0 (count a (contents (m.queues 1) ++ contents (m.queues 2)))
          then at_top (procs a)
          else procs a)
  two_boosts-levels a = ground (
    arith,
    one.levels a,
    two.levels a,
    ap (λ q. count a (contents q)) same_two,
    count-append a (contents (m.queues 1)) (contents (m.queues 2)),
  )

-- With at most 128 processes waiting in all, a boost moves everything to level 0 in order (level
-- 0, then level 1, then level 2), empties the other levels, records its tick, puts every process
-- that waited on level 1 or 2 at level 0, and leaves all other processes alone.
pub mlfq_boost_lem :
    (now : ℕ) (m : MlfqState) (procs : Procs)
    → length (mlfq_queued m) ≤ max_processes
    → let (m', procs') = mlfq_boost now m procs in
      (contents (m'.queues 0) ≡ mlfq_queued m)
      × (mlfq_queued m' ≡ mlfq_queued m)
      × (m'.last_boost_tick ≡ now)
      × ((a : ℕ)
          → procs' a ≡ (
              if ltb 0 (count a (contents (m.queues 1) ++ contents (m.queues 2)))
              then at_top (procs a)
              else procs a))
unfolding mlfq_boost
mlfq_boost_lem now m procs room =
    let one =
      boost_level-Boosted (m.queues 1).size 1 m procs (omega arith) refl
        (omega (arith, length-mlfq_queued m)) in
    let s = boost_level (m.queues 1).size 1 (m, procs) in
    let two = boost_level-Boosted (s.0.queues 2).size 2 s.0 s.1 (omega arith) refl (
      omega (
        arith,
        length-mlfq_queued m,
        ap length one.0.top,
        ap (λ (q : ReadyQueue). q.size) (one.0.others 2 (omega arith) (omega arith)),
        length-append (contents (m.queues 0)) (contents (m.queues 1)),
        length-contents (m.queues 0),
        length-contents (m.queues 1),
        length-contents (s.0.queues 0),
      )) in
    (
      two_boosts-top one.0 two.0,
      two_boosts-queued one.0 two.0 one.1 two.1,
      refl,
      two_boosts-levels one.0 two.0,
    )
