-- ===== src/Sim/Scan.antt =====
-- The loop that looks for the best entry of a ready queue, as edf_pick_next (edf.c) and
-- custom_pick_next (custom.c) both write it: over a key, and a second number that breaks ties.
pub mod Best
use g20_os_lab_project.Common.{
  ℕ, zero, suc, ◌+◌, Bool, true, ltb, ◌||◌, ◌&&◌, ltb_ℤ, eqb_ℤ, ℤ, pos, minus_one, if◌then◌else◌,
  Option, none, some, int_max,
}

module _ (key : ℕ → ℤ) (tie : ℕ → ℕ) (items : ℕ → ℕ) where
  -- The loop's test: `best_index < 0`, or a smaller key, or the same key and a smaller tie.
  pub improves : ℕ → Option ℕ → ℤ → Bool
  improves pid none best_key = true
  improves pid (some best) best_key =
      ltb_ℤ (key pid) best_key || (eqb_ℤ (key pid) best_key && ltb (tie pid) (tie (items best)))

  -- `for (; i < count; i++)` with `n` rounds left; the best index is `none` for -1.
  pub scan : ℕ → ℕ → Option ℕ → ℤ → Option ℕ
  scan zero i best best_key = best
  scan (suc n) i best best_key =
      let better = improves (items i) best best_key in
      scan n (i + 1) (if better then some i else best) (if better then key (items i) else best_key)

  pub scan_all : ℕ → Option ℕ
  unfolding scan
  scan_all size = scan size 0 none (pos int_max)

-- The index as an `int`, -1 for none.
abbrev pub to_int : Option ℕ → ℤ
to_int none = minus_one
to_int (some i) = pos i
