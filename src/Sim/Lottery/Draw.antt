-- ===== src/Sim/Lottery/Draw.antt =====
-- Who wins a draw. (lottery.c)
use g20_os_lab_project.Common.{
  bit, count, ℕ, zero, suc, ◌+◌, ◌%◌, ◌^◌, ◌≤◌, ◌<◌, ◌≡◌, inl, inr, refl, ap, ◌∙◌, ltb, ◌==◌, none,
  some, List, [], ◌∷◌, arith, length, pos, Bool-cases, ltb→lt, ltb→ge, ==_of_ne,
}
use g20_os_lab_project.Sim.Types.{Procs}
use g20_os_lab_project.Sim.ReadyQueue.{max_processes, contents, slice}
use g20_os_lab_project.Sim.ReadyQueue.Contents.{
  queue_push-count, length-contents, taken, queue_remove_at-count, Removed, queue_remove_at-Removed,
}
use g20_os_lab_project.Sim.Lottery.{
  lottery_enqueue, LotteryState, next_random, total_tickets, find_winner, winner_or_last, draw,
  lottery_pick_next,
}

-- The tickets of a list of processes.
abbrev pub tickets_of : Procs → List ℕ → ℕ
tickets_of procs [] = 0
tickets_of procs (p ∷ l) = (procs p).spec.tickets + tickets_of procs l

pub total_tickets-slice :
    (procs : Procs) (items : ℕ → ℕ) (i n : ℕ)
    → total_tickets procs items i n ≡ tickets_of procs (slice items i n)
unfolding total_tickets
total_tickets-slice procs items i zero = refl
total_tickets-slice procs items i (suc n) =
    ap (λ t. (procs (items i)).spec.tickets + t) (total_tickets-slice procs items (i + 1) n)

-- A target below the total is found: the tickets before the winner do not pass it, with those of
-- the winner they do.
find_winner-found :
    (procs : Procs) (items : ℕ → ℕ) (target i n running : ℕ)
    → running ≤ target
    → target < running + tickets_of procs (slice items i n)
    → (k : ℕ) × (find_winner procs items target i n running ≡ some (i + k))
      × (k < n)
      × (running + tickets_of procs (slice items i k) ≤ target)
      × (target
          < running + tickets_of procs (slice items i k) + (procs (items (i + k))).spec.tickets)
unfolding find_winner
find_winner-found procs items target i zero running low high = absurd (omega arith)
find_winner-found procs items target i (suc n) running low high =
    elim (Bool-cases (ltb target (running + (procs (items i)).spec.tickets))) [
      | inl hit ↦
          rw hit (
            0,
            ap some here,
            omega arith,
            omega arith,
            omega (arith, ap ticket here, ltb→lt _ _ hit),
          )
      | inr miss ↦ rw miss (
          let (k, found, inside, before, after) =
            find_winner-found procs items target (i + 1) n
              (running + (procs (items i)).spec.tickets) (ltb→ge _ _ miss) (omega arith) in
          (
            suc k,
            found ∙ ap some (shift k),
            omega arith,
            omega arith,
            omega (arith, ap ticket (shift k)),
          ))
    ]
  where
    here : i ≡ i + 0
    here = omega arith

    shift : (k : ℕ) → i + 1 + k ≡ i + suc k
    shift k = omega arith

    ticket : ℕ → ℕ
    ticket x = (procs (items x)).spec.tickets

-- A draw, from tickets that sum to less than 2^31: the winner is the waiting process that holds
-- ticket number (next random number mod total), counting tickets from the front of the queue.
-- Exactly its entry leaves the queue, and the generator moves on by one step.
pub record Drawn (l l' : LotteryState) (procs : Procs) (pid : ℕ) : Type 0 where
  pub index : ℕ
  pub removed : Removed l.ready l'.ready index pid
  pub rng : l'.rng_state ≡ next_random l.rng_state
  pub from :
      tickets_of procs removed.before
      ≤ next_random l.rng_state % tickets_of procs (contents l.ready)
  pub below :
      next_random l.rng_state % tickets_of procs (contents l.ready)
      < tickets_of procs removed.before + (procs pid).spec.tickets

draw-Drawn :
    (l : LotteryState) (procs : Procs) (total : ℕ)
    → total ≡ tickets_of procs (contents l.ready)
    → 0 < total
    → (pid : ℕ) × ((draw l procs total).0 ≡ some pid) × Drawn l (draw l procs total).1 procs pid
unfolding draw winner_or_last
draw-Drawn l procs total e h =
    let (k, found, inside, before, after) =
      find_winner-found procs l.ready.items (next_random l.rng_state % total) 0 l.ready.size 0
        (omega arith) (omega (arith, e)) in
    let (q, removed, r, pre) = queue_remove_at-Removed l.ready (0 + k) (omega arith) in
    rw (found, removed)
      (
        l.ready.items (0 + k),
        refl,
        record {
          index = 0 + k;
          removed = r;
          rng = refl;
          from =
              omega (arith, ap (tickets_of procs) pre, e, ap rem e, ap tickets_below (zero_plus k));
          below =
              omega (arith, ap (tickets_of procs) pre, e, ap rem e, ap tickets_below (zero_plus k));
        },
      )
  where
    rem : ℕ → ℕ
    rem t = next_random l.rng_state % t

    zero_plus : (k : ℕ) → 0 + k ≡ k
    zero_plus k = omega arith

    tickets_below : ℕ → ℕ
    tickets_below x = tickets_of procs (slice l.ready.items 0 x)

-- Where the tickets of the waiting processes sum to a positive number below 2^31, somebody is
-- picked: the process that holds the ticket of number (next random number mod sum), counting
-- tickets from the front of the queue. Exactly its entry leaves the queue, and the generator
-- moves on by one step.
pub lottery_pick_next_lem :
    (l : LotteryState) (procs : Procs)
    → tickets_of procs (contents l.ready) < 2 ^ 31
    → 0 < tickets_of procs (contents l.ready)
    → (pid : ℕ) × ((lottery_pick_next l procs).0 ≡ some pid)
      × Drawn l (lottery_pick_next l procs).1 procs pid
unfolding lottery_pick_next
lottery_pick_next_lem l procs fits h =
    let e = total_tickets-slice procs l.ready.items 0 l.ready.size in
    rw (==_of_ne (total_tickets procs l.ready.items 0 l.ready.size) 0 (omega (arith, e)))
      (draw-Drawn l procs _ e (omega (arith, e)))

-- Without tickets nobody is picked, and nothing changes.
pub lottery_pick_next-none :
    (l : LotteryState) (procs : Procs)
    → tickets_of procs (contents l.ready) ≡ 0
    → lottery_pick_next l procs ≡ (none, l)
unfolding lottery_pick_next
lottery_pick_next-none l procs h = rw (total_tickets-slice procs l.ready.items 0 l.ready.size ∙ h)

-- A pick takes out what it returns, and nothing else.
pub lottery_pick_next-count :
    (l : LotteryState) (procs : Procs) (a : ℕ)
    → count a (contents l.ready)
      ≡ count a (contents (lottery_pick_next l procs).1.ready)
        + taken a (lottery_pick_next l procs).0
unfolding lottery_pick_next draw
lottery_pick_next-count l procs a =
    let total = total_tickets procs l.ready.items 0 l.ready.size in
    let winner =
      find_winner procs l.ready.items (next_random l.rng_state % total) 0 l.ready.size 0 in
    elim (Bool-cases (total == 0)) [
      | inl none_left ↦ rw none_left (omega arith)
      | inr some_left ↦
          rw some_left (queue_remove_at-count l.ready (pos (winner_or_last winner l.ready.size)) a)
    ]

pub lottery_enqueue-count :
    (l : LotteryState) (pid a : ℕ)
    → length (contents l.ready) < max_processes
    → count a (contents (lottery_enqueue l pid).ready) ≡ count a (contents l.ready) + bit (pid == a)
unfolding lottery_enqueue
lottery_enqueue-count l pid a h =
    queue_push-count l.ready pid a (omega (arith, length-contents l.ready))
