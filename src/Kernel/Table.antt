-- ===== src/Kernel/Table.antt =====
-- Loops over the process table: `for(p = proc; p < &proc[NPROC]; p++)` of kernel/proc.c.
use g20_os_lab_project.Common.{
  ℕ, zero, suc, ◌+◌, ◌≤◌, ◌<◌, ◌≡◌, ◌≢◌, ◌⊎◌, inl, inr, refl, Bool, true, false, ltb, if◌then◌else◌,
  update, Option, none, some, arith, Bool-cases, ◌==◌, ℤ, pos, negsuc, update_self, update_ne,
}
use native.Mathlib.Decide.{ℕ_discrete, dec_lt}
use g20_os_lab_project.Kernel.Types.{
  Kernel, Proc, Procstate, unused, sleeping, zombie, nproc, Channel, no_chan, proc_chan, msg_chan,
  sem_chan, other_chan,
}

-- A loop whose body changes only the entry that it looks at.
abbrev pub each_proc : (ℕ → Proc → Proc) → Kernel → Kernel
each_proc body k = record k { procs = λ j. if ltb j nproc then body j (k.procs j) else k.procs j }

-- A loop that stops at the first entry that passes the test: from entry `i`, with `n` rounds left.
pub find_from : (ℕ → Proc → Bool) → (ℕ → Proc) → ℕ → ℕ → Option ℕ
find_from test procs i zero = none
find_from test procs i (suc n) =
    let rest = find_from test procs (i + 1) n in if test i (procs i) then some i else rest

pub find_proc : (ℕ → Proc → Bool) → Kernel → Option ℕ
find_proc test k = find_from test k.procs 0 nproc

-- `*p = v` for the entry `i` of the table.
abbrev pub set_proc : Kernel → ℕ → Proc → Kernel
set_proc k i p = record k { procs = update k.procs i p }

abbrev pub is_unused : Procstate → Bool
is_unused unused = true
is_unused _ = false

abbrev pub is_sleeping : Procstate → Bool
is_sleeping sleeping = true
is_sleeping _ = false

abbrev pub is_zombie : Procstate → Bool
is_zombie zombie = true
is_zombie _ = false

abbrev pub same_chan : Channel → Channel → Bool
same_chan no_chan no_chan = true
same_chan (proc_chan i) (proc_chan j) = i == j
same_chan (msg_chan i) (msg_chan j) = i == j
same_chan (sem_chan i) (sem_chan j) = i == j
same_chan (other_chan i) (other_chan j) = i == j
same_chan _ _ = false

-- A process number against an `int`.
abbrev pub is_pid : ℕ → ℤ → Bool
is_pid n (pos m) = n == m
is_pid n (negsuc m) = false

-- What a search from `i` over `n` entries gives: the first entry that passes.
pub record Found (test : ℕ → Proc → Bool) (procs : ℕ → Proc) (i n j : ℕ) : Type 0 where
  pub from : i ≤ j
  pub below : j < i + n
  pub passes : test j (procs j) ≡ true
  pub first : (l : ℕ) → i ≤ l → l < j → test l (procs l) ≡ false

find_from_lem :
    (test : ℕ → Proc → Bool) (procs : ℕ → Proc) (n i : ℕ)
    → ((find_from test procs i n ≡ none) × ((l : ℕ) → i ≤ l → l < i + n → test l (procs l) ≡ false))
      ⊎ ((j : ℕ) × (find_from test procs i n ≡ some j) × Found test procs i n j)
unfolding find_from
find_from_lem test procs zero i = inl (refl, λ l p q. absurd (omega arith))
find_from_lem test procs (suc n) i = elim (Bool-cases (test i (procs i))) [
  | inl hit ↦ rw hit (
      inr (
        i,
        refl,
        record {
          from = omega arith;
          below = omega arith;
          passes = hit;
          first = λ l p q. absurd (omega arith);
        },
      ))
  | inr miss ↦ rw miss (elim (find_from_lem test procs n (i + 1)) [
    | inl (none_left, all) ↦ inl (
      none_left,
      λ l p q. elim (ℕ_discrete l i) [
        | yes e ↦ rw e miss
        | no ne ↦ all l (omega arith) (omega arith)
      ],
    )
    | inr (j, found, f) ↦ inr (
      j,
      found,
      record {
        from = omega (arith, f.from);
        below = omega (arith, f.below);
        passes = f.passes;
        first = λ l p q. elim (ℕ_discrete l i) [
          | yes e ↦ rw e miss
          | no ne ↦ f.first l (omega arith) q
        ];
      },
    )
  ])
]

-- A search over the table finds its first entry that passes, or there is none.
pub find_proc_lem :
    (test : ℕ → Proc → Bool) (k : Kernel)
    → ((find_proc test k ≡ none) × ((l : ℕ) → l < nproc → test l (k.procs l) ≡ false))
      ⊎ ((j : ℕ) × (find_proc test k ≡ some j) × Found test k.procs 0 nproc j)
unfolding find_proc
find_proc_lem test k = elim (find_from_lem test k.procs nproc 0) [
  | inl (e, all) ↦ inl (e, λ l h. all l (omega arith) (omega arith))
  | inr r ↦ inr r
]

-- A search whose first passing entry is known.
pub find_proc-first :
    (test : ℕ → Proc → Bool) (k : Kernel) (j : ℕ)
    → j < nproc
    → test j (k.procs j) ≡ true
    → ((l : ℕ) → l < j → test l (k.procs l) ≡ false)
    → find_proc test k ≡ some j
find_proc-first test k j h hit before = elim (find_proc_lem test k) [
  | inl (e, all) ↦ absurd (ground (arith, all j h, hit))
  | inr (l, found, f) ↦ elim (ℕ_discrete l j) [
    | yes e ↦ rw (found, e)
    | no ne ↦ absurd (apart l f ne)
  ]
]
  where
    apart : (l : ℕ) → Found test k.procs 0 nproc l → l ≢ j → ⊥
    apart l f ne = elim (dec_lt l j) [
      | yes p ↦ ground (arith, before l p, f.passes)
      | no p ↦ ground (arith, f.first j (omega arith) (omega arith), hit)
    ]

-- A new value of the entry that a search found, if it passes too, is found again.
pub find_proc-set_proc :
    (test : ℕ → Proc → Bool) (k : Kernel) (i : ℕ) (p : Proc)
    → Found test k.procs 0 nproc i
    → test i p ≡ true
    → find_proc test (set_proc k i p) ≡ some i
find_proc-set_proc test k i p f passes =
    find_proc-first test (set_proc k i p) i f.below (rw (update_self k.procs i p) passes)
      (λ l h. rw (update_ne k.procs i l p (omega arith)) (f.first l (omega arith) h))

-- The search that Found describes.
pub find_proc-Found :
    (test : ℕ → Proc → Bool) (k : Kernel) (i : ℕ)
    → Found test k.procs 0 nproc i
    → find_proc test k ≡ some i
find_proc-Found test k i f =
    find_proc-first test k i f.below f.passes (λ l p. f.first l (omega arith) p)
