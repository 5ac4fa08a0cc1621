-- ===== src/Kernel/Log/Reserving.antt =====
-- Beginning an operation and writing keep the room of the log. (kernel/log.c)
use g20_os_lab_project.Common.{
  ℕ, ◌+◌, ◌*◌, ◌≤◌, ◌<◌, ◌≡◌, ◌≢◌, ◌⊎◌, inl, inr, refl, ap, ◌∙◌, sym, subst, arith, Bool, true,
  false, some, none, List, ◌∷◌, Bool-cases, ◌||◌, ltb, leb, ltb→ge,
}
use native.Mathlib.Decide.{ℕ_discrete}
use g20_os_lab_project.Sim.Parser.Bursts.{some_injective}
use g20_os_lab_project.Kernel.Log.{LogState, Logged, begin_op, log_write, logblocks, maxopblocks}
use g20_os_lab_project.Kernel.Log.Noting.{Noted, log_write-Noted}
use g20_os_lab_project.Kernel.Log.Room.{
  Spend, busy, Spend_lem, total_bound, HasNoDuplicates, HasRoom,
}

or_false : (a b : Bool) → (a || b) ≡ false → (a ≡ false) × (b ≡ false)
or_false true b e = absurd (cc)
or_false false b e = (refl, e)

pub begin-HasRoom :
    (t : Logged) (ks : List ℕ) (me : ℕ)
    → HasRoom t.log ks
    → (begin_op t me).asleep ≡ false
    → HasRoom (begin_op t me).log (maxopblocks ∷ ks)
unfolding begin_op
begin-HasRoom t ks me v awake =
    elim (Bool-cases
      (t.log.committing || ltb logblocks (t.log.lh.n + (t.log.outstanding + 1) * maxopblocks))) [
        | inl sleeps ↦ absurd (true_false (rw sleeps at awake))
        | inr enters ↦
            let (calm, fits) = or_false t.log.committing _ enters in
            rw enters (record {
              count = omega (arith, v.count);
              budgets = busy (omega arith) v.budgets;
              room = omega (arith, ltb→ge logblocks _ fits, total_bound ks v.budgets, v.count);
              quiet = λ e. absurd (true_false (sym e ∙ calm));
              distinct = v.distinct;
            })
      ]
  where
    true_false : true ≡ false → ⊥
    true_false e = cc

pub waits-HasRoom :
    (t : Logged) (ks : List ℕ) (me : ℕ)
    → HasRoom t.log ks
    → (begin_op t me).asleep ≡ true
    → HasRoom (begin_op t me).log ks
unfolding begin_op
waits-HasRoom t ks me v asleep =
    elim (Bool-cases
      (t.log.committing || ltb logblocks (t.log.lh.n + (t.log.outstanding + 1) * maxopblocks))) [
        | inl sleeps ↦ rw sleeps (record {
          count = v.count;
          budgets = v.budgets;
          room = v.room;
          quiet = v.quiet;
          distinct = v.distinct;
        })
        | inr enters ↦ absurd (true_false (sym (rw enters at asleep)))
      ]
  where
    true_false : true ≡ false → ⊥
    true_false e = cc

pub Noted-HasNoDuplicates :
    (l : LogState) (b : ℕ) (l' : LogState) (fresh : Bool)
    → HasNoDuplicates l.lh
    → Noted l b l' fresh
    → HasNoDuplicates l'.lh
Noted-HasNoDuplicates l b l' fresh v w i j low high e = elim w.size [
  | inr (known, same, at) ↦
      v i j low (omega (arith, high, same))
        (sym (w.kept i (omega (arith, low, high, same))) ∙ e ∙ w.kept j (omega (arith, high, same)))
  | inl (new, one_more, end, absent) ↦ elim (ℕ_discrete j l.lh.n) [
    | yes last ↦
        absent i (omega (arith, low, last))
          (sym (w.kept i (omega (arith, low, last))) ∙ e ∙ ap l'.lh.block last ∙ end)
    | no inside ↦ v i j low (omega (arith, high, one_more, inside)) (
        sym (w.kept i (omega (arith, low, high, one_more)))
        ∙ e
        ∙ w.kept j (omega (arith, high, one_more, inside)))
  ]
]

-- What an operation that has blocks left may rely on.
pub spending :
    (l : LogState) (ks ls : List ℕ)
    → HasRoom l ks
    → Spend ks ls
    → (l.lh.n < logblocks) × (0 < l.outstanding)
spending l ks ls v s =
    let (sum, len, some_op, all) = Spend_lem s v.budgets in
    (omega (arith, v.room, sum), omega (arith, v.count, some_op))

pub size_bound :
    {l l' : LogState} {b : ℕ} {fresh : Bool} → Noted l b l' fresh → l'.lh.n ≤ l.lh.n + 1
size_bound {l} {l'} w = elim w.size [
  | inl (new, more, end, absent) ↦ omega (arith, more)
  | inr (known, same, rest) ↦ omega (arith, same)
]

guarded :
    (l : LogState) (b : ℕ) (l' : LogState) (fresh : Bool)
    → log_write l b ≡ some (l', fresh)
    → (l.lh.n < logblocks) × (0 < l.outstanding)
unfolding log_write
guarded l b l' fresh e = elim (Bool-cases (leb logblocks l.lh.n || ltb l.outstanding 1)) [
  | inl panics ↦ absurd (none_some (rw panics at e))
  | inr goes ↦
      let (n, o) = or_false (leb logblocks l.lh.n) (ltb l.outstanding 1) goes in
      (ground arith, ground arith)
]
  where
    none_some : {a : LogState × Bool} → none ≡ some a → ⊥
    none_some e = cc

-- log_write is a function: what it gave is noted.
written_entry :
    (l : LogState) (b : ℕ) (l' : LogState) (fresh : Bool)
    → log_write l b ≡ some (l', fresh)
    → Noted l b l' fresh
written_entry l b l' fresh e =
    let (room, inside) = guarded l b l' fresh e in
    let (l0, fresh0, e0, w) = log_write-Noted l b room inside in
    subst (λ (x : LogState × Bool). Noted l b x.0 x.1)
      (some_injective (l0, fresh0) (l', fresh) (sym e0 ∙ e)) w

pub write-HasRoom :
    (l : LogState) (ks ls : List ℕ) (b : ℕ) (l' : LogState) (fresh : Bool)
    → HasRoom l ks
    → Spend ks ls
    → log_write l b ≡ some (l', fresh)
    → HasRoom l' ls
write-HasRoom l ks ls b l' fresh v s e =
    let w = written_entry l b l' fresh e in
    let (sum, len, some_op, all) = Spend_lem s v.budgets in
    record {
      count = w.outstanding ∙ v.count ∙ len;
      budgets = all;
      room = omega (arith, size_bound w, v.room, sum);
      quiet = λ c. w.outstanding ∙ v.quiet (sym w.committing ∙ c);
      distinct = Noted-HasNoDuplicates l b l' fresh v.distinct w;
    }

pub known-HasRoom :
    (l : LogState) (ks : List ℕ) (b : ℕ) (l' : LogState)
    → HasRoom l ks
    → log_write l b ≡ some (l', false)
    → HasRoom l' ks
known-HasRoom l ks b l' v e = record {
  count = w.outstanding ∙ v.count;
  budgets = v.budgets;
  room = omega (arith, v.room, same_size w.size);
  quiet = λ c. w.outstanding ∙ v.quiet (sym w.committing ∙ c);
  distinct = Noted-HasNoDuplicates l b l' false v.distinct w;
}
  where
    w : Noted l b l' false
    w = written_entry l b l' false e

    same_size :
        ((false ≡ true)
            × (l'.lh.n ≡ l.lh.n + 1)
            × (l'.lh.block l.lh.n ≡ b)
            × ((i : ℕ) → i < l.lh.n → l.lh.block i ≢ b))
          ⊎ ((false ≡ false) × (l'.lh.n ≡ l.lh.n) × ((i : ℕ) × (i < l.lh.n) × (l.lh.block i ≡ b)))
        → l'.lh.n ≡ l.lh.n
    same_size (inl (new, more, end, absent)) = absurd (cc)
    same_size (inr (known, same, at)) = same
