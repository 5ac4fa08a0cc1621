-- ===== src/Sim/Scan/Best.antt =====
-- The scan finds an entry that no other entry beats. (edf.c, custom.c)
use g20_os_lab_project.Common.{
  ℕ, zero, suc, ◌+◌, ◌≤◌, ◌<◌, ◌≡◌, ◌⊎◌, inl, inr, refl, true, false, ℤ, ◌<ℤ◌, none, some, arith,
  All, subst, Bool-cases,
}
use native.Mathlib.Decide.{ℕ_discrete}
use g20_os_lab_project.Sim.Scan.{improves, scan, scan_all}
use g20_os_lab_project.Sim.ReadyQueue.{slice}

-- `p` comes before `a`, or level with it: a smaller key, or the same key and no larger tie.
abbrev pub NotAfter : (ℕ → ℤ) → (ℕ → ℕ) → ℕ → ℕ → Type 0
NotAfter key tie p a = (key p <ℤ key a) ⊎ ((key p ≡ key a) × (tie p ≤ tie a))

pub All-slice :
    (P : ℕ → Type 0) (f : ℕ → ℕ) (i n : ℕ) → ((j : ℕ) → j < i + n → P (f j)) → All P (slice f i n)
All-slice P f i zero h = tt
All-slice P f i (suc n) h = (h i (omega arith), All-slice P f (i + 1) n (λ j p. h j (omega arith)))

module _ (key : ℕ → ℤ) (tie : ℕ → ℕ) (items : ℕ → ℕ) where
  -- `b` is a best index below `i`.
  record IsBest (i b : ℕ) : Type 0 where
    inside : b < i
    least : (j : ℕ) → j < i → NotAfter key tie (items b) (items j)

  NotAfter-trans : (p q r : ℕ) → NotAfter key tie p q → NotAfter key tie q r → NotAfter key tie p r
  NotAfter-trans p q r h k = ground arith

  -- An entry that does not improve on the best does not come before it, and one that does comes
  -- no later.
  worse-NotAfter :
      (p b : ℕ)
      → improves key tie items p (some b) (key (items b)) ≡ false
      → NotAfter key tie (items b) p
  unfolding improves
  worse-NotAfter p b h = ground arith

  better-NotAfter :
      (p b : ℕ)
      → improves key tie items p (some b) (key (items b)) ≡ true
      → NotAfter key tie p (items b)
  unfolding improves
  better-NotAfter p b h = ground arith

  keep : (i b : ℕ) → IsBest i b → NotAfter key tie (items b) (items i) → IsBest (i + 1) b
  keep i b best h = record {
    inside = omega arith;
    least = λ j p. elim (ℕ_discrete j i) [ yes e ↦ rw e h | no ne ↦ best.least j (omega arith) ];
  }

  replace : (i b : ℕ) → IsBest i b → NotAfter key tie (items i) (items b) → IsBest (i + 1) i
  replace i b best h = record {
    inside = omega arith;
    least = λ j p. elim (ℕ_discrete j i) [
      | yes e ↦ rw e (inr (refl, omega arith))
      | no ne ↦ NotAfter-trans (items i) (items b) (items j) h (best.least j (omega arith))
    ];
  }

  scan-IsBest :
      (n i b : ℕ)
      → IsBest i b
      → (c : ℕ) × (scan key tie items n i (some b) (key (items b)) ≡ some c) × IsBest (i + n) c
  unfolding scan
  scan-IsBest zero i b best = (b, refl, subst (λ k. IsBest k b) (omega arith) best)
  scan-IsBest (suc n) i b best =
      let shift : i + 1 + n ≡ i + suc n = omega arith in
      elim (Bool-cases (improves key tie items (items i) (some b) (key (items b)))) [
        | inl better ↦
            rw (better, ← shift)
              (scan-IsBest n (i + 1) i (replace i b best (better-NotAfter (items i) b better)))
        | inr worse ↦
            rw (worse, ← shift)
              (scan-IsBest n (i + 1) b (keep i b best (worse-NotAfter (items i) b worse)))
      ]

  -- A scan of a nonempty queue finds an entry that no entry of the queue beats.
  pub scan_all-found :
      (size : ℕ)
      → 0 < size
      → (b : ℕ) × (scan_all key tie items size ≡ some b)
        × (b < size)
        × All (NotAfter key tie (items b)) (slice items 0 size)
  unfolding scan_all scan improves
  scan_all-found zero h = absurd (omega arith)
  scan_all-found (suc n) h =
      let (b, found, best) = scan-IsBest n 1 0 first in
      (
        b,
        found,
        omega (arith, best.inside),
        All-slice (NotAfter key tie (items b)) items 0 (suc n) (λ j p. best.least j (omega arith)),
      )
    where
      first : IsBest 1 0
      first = record {
        inside = omega arith;
        least = λ j p. let e : j ≡ 0 = omega arith in rw e (inr (refl, omega arith));
      }

  pub scan_all-none : scan_all key tie items 0 ≡ none
  unfolding scan_all scan
  scan_all-none = refl
