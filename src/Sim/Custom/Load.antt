-- ===== src/Sim/Custom/Load.antt =====
-- The least and the most loaded CPU. (custom.c)
use g20_os_lab_project.Common.{
  ℕ, zero, suc, ◌+◌, ◌-◌, ◌≤◌, ◌<◌, ◌≡◌, inl, inr, subst, Bool, true, false, ltb, arith, Bool-cases,
  ltb→lt, ltb→ge,
}
use native.Mathlib.Decide.{ℕ_discrete}
use g20_os_lab_project.Sim.ReadyQueue.{ReadyQueue}
use g20_os_lab_project.Sim.Custom.{loaded_from, least_loaded_cpu, most_loaded_cpu}

-- A comparison of queue sizes that decides a preorder.
record Compares (better : ℕ → ℕ → Bool) (R : ℕ → ℕ → Type 0) : Type 0 where
  refl_R : (a : ℕ) → R a a
  trans_R : (a b c : ℕ) → R a b → R b c → R a c
  better_R : (a b : ℕ) → better a b ≡ true → R a b
  worse_R : (a b : ℕ) → better a b ≡ false → R b a

shorter : Compares (λ a b. ltb a b) (λ a b. a ≤ b)
shorter = record {
  refl_R = λ a. omega arith;
  trans_R = λ a b c p q. omega arith;
  better_R = λ a b p. omega (arith, ltb→lt a b p);
  worse_R = λ a b p. ltb→ge a b p;
}

longer : Compares (λ a b. ltb b a) (λ a b. b ≤ a)
longer = record {
  refl_R = λ a. omega arith;
  trans_R = λ a b c p q. omega arith;
  better_R = λ a b p. omega (arith, ltb→lt b a p);
  worse_R = λ a b p. ltb→ge b a p;
}

module _ {better : ℕ → ℕ → Bool} {R : ℕ → ℕ → Type 0} (order : Compares better R)
    (queues : ℕ → ReadyQueue) where
  open order use {refl_R, trans_R, better_R, worse_R}

  record IsExtreme (n c : ℕ) : Type 0 where
    inside : c < n
    extreme : (d : ℕ) → d < n → R (queues c).size (queues d).size

  extend :
      (n c best : ℕ)
      → IsExtreme n c
      → best < n + 1
      → R (queues best).size (queues c).size
      → R (queues best).size (queues n).size
      → IsExtreme (n + 1) best
  extend n c best e h old new = record {
    inside = h;
    extreme = λ d p. elim (ℕ_discrete d n) [
      | yes q ↦ rw q new
      | no q ↦ trans_R _ _ _ old (e.extreme d (omega arith))
    ];
  }

  loaded_from-IsExtreme :
      (n cpu best : ℕ)
      → IsExtreme cpu best
      → IsExtreme (cpu + n) (loaded_from better queues n cpu best (queues best).size)
  unfolding loaded_from
  loaded_from-IsExtreme zero cpu best e = subst (λ k. IsExtreme k best) (omega arith) e
  loaded_from-IsExtreme (suc n) cpu best e =
      let shift : cpu + 1 + n ≡ cpu + suc n = omega arith in
      elim (Bool-cases (better (queues cpu).size (queues best).size)) [
        | inl win ↦
            rw (win, ← shift)
              (loaded_from-IsExtreme n (cpu + 1) cpu
                (extend cpu best cpu e (omega arith) (better_R _ _ win) (refl_R _)))
        | inr lose ↦
            rw (lose, ← shift)
              (loaded_from-IsExtreme n (cpu + 1) best
                (extend cpu best best e (omega (arith, e.inside)) (refl_R _) (worse_R _ _ lose)))
      ]

  first_cpu : IsExtreme 1 0
  first_cpu = record {
    inside = omega arith;
    extreme = λ d p. let e : d ≡ 0 = omega arith in rw e (refl_R _);
  }

-- The least loaded CPU is a CPU of the machine, and no CPU has a shorter queue.
pub least_loaded_cpu_lem :
    (queues : ℕ → ReadyQueue) (cpu_count cpu : ℕ)
    → 0 < cpu_count
    → cpu < cpu_count
    → (least_loaded_cpu queues cpu_count < cpu_count)
      × ((queues (least_loaded_cpu queues cpu_count)).size ≤ (queues cpu).size)
unfolding least_loaded_cpu
least_loaded_cpu_lem queues cpu_count cpu h k =
    let e = loaded_from-IsExtreme shorter queues (cpu_count - 1) 1 0 (first_cpu shorter queues) in
    (omega (arith, e.inside), e.extreme cpu (omega arith))

-- The most loaded CPU is a CPU of the machine, and no CPU has a longer queue.
pub most_loaded_cpu_lem :
    (queues : ℕ → ReadyQueue) (cpu_count cpu : ℕ)
    → 0 < cpu_count
    → cpu < cpu_count
    → (most_loaded_cpu queues cpu_count < cpu_count)
      × ((queues cpu).size ≤ (queues (most_loaded_cpu queues cpu_count)).size)
unfolding most_loaded_cpu
most_loaded_cpu_lem queues cpu_count cpu h k =
    let e = loaded_from-IsExtreme longer queues (cpu_count - 1) 1 0 (first_cpu longer queues) in
    (omega (arith, e.inside), e.extreme cpu (omega arith))
