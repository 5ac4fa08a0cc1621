-- ===== src/Kernel/Log/Panics.antt =====
-- No operation of the file system finds the log full. (kernel/log.c)
use g20_os_lab_project.Common.{
  ℕ, ◌-◌, ◌≤◌, ◌≡◌, inl, inr, refl, ap, ◌∙◌, sym, subst, arith, Bool, true, false, some, List, [],
  length, Bool-cases, ◌==◌, ==→eq, zero, suc, ◌⊎◌, ◌∷◌,
}
use g20_os_lab_project.Sim.Parser.Bursts.{some_injective}
use g20_os_lab_project.Kernel.Sched.{wakeup}
use g20_os_lab_project.Kernel.Log.{
  LogState, Logged, end_op, end_commit, log_write, logblocks, log_chan,
}
use g20_os_lab_project.Kernel.Log.Noting.{Noted, log_write-Noted}
use g20_os_lab_project.Kernel.Log.Room.{
  Spend, total, first, later, Leave, leave_first, Leave_lem, HasNoDuplicates, HasRoom, LogRun,
  start, begin, begin_waits, write, write_known, finish, committed, elsewhere,
}
use g20_os_lab_project.Kernel.Log.Reserving.{
  begin-HasRoom, waits-HasRoom, Noted-HasNoDuplicates, spending, size_bound, write-HasRoom,
  known-HasRoom,
}

-- An operation ends without a panic, and commits exactly if it is the last one.
end_op-HasRoom :
    (t : Logged) (ks ls : List ℕ) (me : ℕ)
    → HasRoom t.log ks
    → Leave ks ls
    → (t' : Logged) × (last : Bool) × (end_op t me ≡ some (t', last))
      × HasRoom t'.log ls
      × (last ≡ (length ls == 0))
unfolding end_op
end_op-HasRoom t ks ls me v s =
    let (sum, len, all) = Leave_lem s v.budgets in
    elim (Bool-cases t.log.committing) [
      | inl c ↦ absurd (omega (arith, v.quiet c, v.count, len))
      | inr calm ↦ elim (Bool-cases (t.log.outstanding - 1 == 0)) [
        | inl zero_left ↦ (
          record t {
            log = record t.log { outstanding = t.log.outstanding - 1; committing = true };
          },
          true,
          rw (calm, zero_left) refl,
          record {
            count = omega (arith, v.count, len);
            budgets = all;
            room = omega (arith, v.room, sum);
            quiet = λ e. ==→eq (t.log.outstanding - 1) 0 zero_left;
            distinct = v.distinct;
          },
          sym zero_left ∙ ap (λ (n : ℕ). n == 0) (omega (arith, v.count, len)),
        )
        | inr others ↦ (
          record t {
            kernel = wakeup t.kernel me log_chan;
            log = record t.log { outstanding = t.log.outstanding - 1 };
          },
          false,
          rw (calm, others) refl,
          record {
            count = omega (arith, v.count, len);
            budgets = all;
            room = omega (arith, v.room, sum);
            quiet = λ e. absurd (true_false (sym e ∙ calm));
            distinct = v.distinct;
          },
          sym others ∙ ap (λ (n : ℕ). n == 0) (omega (arith, v.count, len)),
        )
      ]
    ]
  where
    true_false : true ≡ false → ⊥
    true_false e = cc

finish-HasRoom :
    (t t' : Logged) (ks ls : List ℕ) (last : Bool) (me : ℕ)
    → HasRoom t.log ks
    → Leave ks ls
    → end_op t me ≡ some (t', last)
    → HasRoom t'.log ls
finish-HasRoom t t' ks ls last me v s e =
    let (t0, last0, e0, w, which) = end_op-HasRoom t ks ls me v s in
    subst (λ (x : Logged × Bool). HasRoom x.0.log ls)
      (some_injective (t0, last0) (t', last) (sym e0 ∙ e)) w

committed-HasRoom :
    (t : Logged) (ks : List ℕ) (me : ℕ) → HasRoom t.log ks → HasRoom (end_commit t me).log ks
unfolding end_commit
committed-HasRoom t ks me v = record {
  count = v.count;
  budgets = v.budgets;
  room = omega (arith, v.room);
  quiet = λ e. absurd (false_true e);
  distinct = λ i j low high. absurd (omega (arith, high));
}
  where
    false_true : false ≡ true → ⊥
    false_true e = cc

LogRun-HasRoom : {s t : Logged} {ks : List ℕ} → HasRoom s.log [] → LogRun s t ks → HasRoom t.log ks
LogRun-HasRoom v start = v
LogRun-HasRoom v (begin {t} {ks} me r awake) = begin-HasRoom t ks me (LogRun-HasRoom v r) awake
LogRun-HasRoom v (begin_waits {t} {ks} me r asleep) =
    waits-HasRoom t ks me (LogRun-HasRoom v r) asleep
LogRun-HasRoom v (write {t} {ks} {ls} {l} {fresh} b r s e) =
    write-HasRoom t.log ks ls b l fresh (LogRun-HasRoom v r) s e
LogRun-HasRoom v (write_known {t} {ks} {ls} {l} b r s e) =
    known-HasRoom t.log ks b l (LogRun-HasRoom v r) e
LogRun-HasRoom v (finish {t} {t'} {ks} {ls} {last} me r s e) =
    finish-HasRoom t t' ks ls last me (LogRun-HasRoom v r) s e
LogRun-HasRoom v (committed {t} {ks} me r c) = committed-HasRoom t ks me (LogRun-HasRoom v r)
LogRun-HasRoom v (elsewhere k r) = LogRun-HasRoom v r

-- One of the operations has blocks left, or none has.
some_Spend : (ks : List ℕ) → (total ks ≡ 0) ⊎ ((ls : List ℕ) × Spend ks ls)
some_Spend [] = inl refl
some_Spend (suc k ∷ ks) = inr (k ∷ ks, first)
some_Spend (zero ∷ ks) = elim (some_Spend ks) [
  | inl used_up ↦ inl (omega (arith, used_up))
  | inr (ls, s) ↦ inr (zero ∷ ls, later s)
]

-- From a log that has no operations and a header of at most 30 blocks, none of them twice: operations
-- begin, wait, write and end in any order, each with at most 10 new blocks, and commits end.
-- Whatever came before, where some operation has not used up its 10 blocks a block is written without
-- a panic: the header has at most 30 blocks, none of them twice, it keeps its entries, and the block
-- is in it; the block is pinned exactly if it was not yet there. And where there is any operation, even
-- if all have used up their blocks, it ends without a panic, and the commit is left to it exactly if it
-- is the only one.
pub log_write-LogRun :
    {s t : Logged} {ks : List ℕ} (b me : ℕ)
    → HasRoom s.log []
    → LogRun s t ks
    → ((total ks ≡ 0)
        ⊎ ((l' : LogState) × (fresh : Bool) × (log_write t.log b ≡ some (l', fresh))
            × Noted t.log b l' fresh
            × HasNoDuplicates l'.lh
            × (l'.lh.n ≤ logblocks)))
      × ((ks ≡ [])
          ⊎ ((t' : Logged) × (last : Bool) × (end_op t me ≡ some (t', last))
              × (last ≡ (length ks == 1))))
log_write-LogRun {s} {t} {ks} b me v r = (
  elim (some_Spend ks) [ inl used_up ↦ inl used_up | inr (ls, s1) ↦ inr (written ls s1) ],
  ends ks w,
)
  where
    w : HasRoom t.log ks
    w = LogRun-HasRoom v r

    written :
        (ls : List ℕ)
        → Spend ks ls
        → (l' : LogState) × (fresh : Bool) × (log_write t.log b ≡ some (l', fresh))
          × Noted t.log b l' fresh
          × HasNoDuplicates l'.lh
          × (l'.lh.n ≤ logblocks)
    written ls s1 =
        let (room, inside) = spending t.log ks ls w s1 in
        let (l', fresh, e, noted) = log_write-Noted t.log b room inside in
        (
          l',
          fresh,
          e,
          noted,
          Noted-HasNoDuplicates t.log b l' fresh w.distinct noted,
          omega (arith, size_bound noted, room),
        )

    one : (m : ℕ) → (m == 0) ≡ (suc m == 1)
    one m = ground arith

    ends :
        (ks : List ℕ)
        → HasRoom t.log ks
        → (ks ≡ [])
          ⊎ ((t' : Logged) × (last : Bool) × (end_op t me ≡ some (t', last))
              × (last ≡ (length ks == 1)))
    ends [] w = inl refl
    ends (k ∷ ks) w =
        let (t', last, e, w', which) = end_op-HasRoom t (k ∷ ks) ks me w leave_first in
        inr (t', last, e, which ∙ one (length ks))
