-- ===== src/Sim/Parser/Tests.antt =====
-- Small texts on which the theorems on parser.c are tried.
use g20_os_lab_project.Common.{
  ℕ, ◌<◌, ◌≡◌, refl, Option, none, some, List, [], ◌∷◌, pos, to_int32, length, zero, suc, arith,
  ◌≤ℤ◌,
}
use g20_os_lab_project.Sim.Text.{
  tokens_from, tokens, digits, sign_and_digits, strtol, narrow, fgets_from, fgets_lines,
}
use g20_os_lab_project.Sim.Parser.{
  ParsedBurst, ParsedSpec, trim, burst_ok, bursts_from, parse_bursts, number, parse_fields,
  parse_line, lines_from, skip_header, parse_workload, no_bursts, no_processes,
}
use g20_os_lab_project.Sim.Parser.Valid.{AreSpecs, parse_workload-AreSpecs}

-- Three bursts, of 3, 2 and 1 ticks.
abbrev burst_text : List ℕ
burst_text = 67 ∷ 51 ∷ 58 ∷ 73 ∷ 50 ∷ 58 ∷ 67 ∷ 49 ∷ []

-- "pid,arrival" and a process.
abbrev pub workload_text : List ℕ
workload_text =
    112 ∷ 105 ∷ 100 ∷ 44 ∷ 97 ∷ 114 ∷ 114 ∷ 105 ∷ 118 ∷ 97 ∷ 108 ∷ 10 ∷ 49 ∷ 44 ∷ 48 ∷ 44 ∷ 67 ∷ 51
    ∷ 58 ∷ 73 ∷ 50 ∷ 58 ∷ 67 ∷ 49 ∷ 44 ∷ 50 ∷ 44 ∷ 53 ∷ 44 ∷ 52 ∷ 48 ∷ 44 ∷ 49 ∷ 10 ∷ []

-- A CPU burst of 2^32 ticks.
abbrev long_text : List ℕ
long_text = 67 ∷ 52 ∷ 50 ∷ 57 ∷ 52 ∷ 57 ∷ 54 ∷ 55 ∷ 50 ∷ 57 ∷ 54 ∷ []

abbrev bursts_of : Option ((ℕ → ParsedBurst) × ℕ) → (ℕ → ParsedBurst) × ℕ
bursts_of none = (no_bursts, 0)
bursts_of (some r) = r

abbrev pub specs_of : Option ((ℕ → ParsedSpec) × ℕ) → (ℕ → ParsedSpec) × ℕ
specs_of none = (no_processes, 0)
specs_of (some r) = r

parse_bursts_small : parse_bursts burst_text ≡ some (bursts_of (parse_bursts burst_text))
unfolding parse_bursts bursts_from burst_ok trim tokens tokens_from strtol sign_and_digits digits
    narrow to_int32
parse_bursts_small = refl

pub parse_workload_small :
    parse_workload (some workload_text) ≡ some (specs_of (parse_workload (some workload_text)))
unfolding parse_workload skip_header fgets_lines fgets_from lines_from parse_line parse_fields
    number parse_bursts bursts_from burst_ok trim tokens tokens_from strtol sign_and_digits digits
    narrow to_int32
parse_workload_small = refl

-- No duration of it is negative.
pub small_durations :
    (i j : ℕ)
    → i < (specs_of (parse_workload (some workload_text))).1
    → j < ((specs_of (parse_workload (some workload_text))).0 i).burst_count
    → pos 0 ≤ℤ (((specs_of (parse_workload (some workload_text))).0 i).bursts j).duration
unfolding parse_workload skip_header fgets_lines fgets_from lines_from parse_line parse_fields
    number parse_bursts bursts_from burst_ok trim tokens tokens_from strtol sign_and_digits digits
    narrow to_int32
small_durations zero zero hi hj = omega arith
small_durations zero (suc zero) hi hj = omega arith
small_durations zero (suc (suc zero)) hi hj = omega arith
small_durations zero (suc (suc (suc j))) hi hj = absurd (omega (arith, hj))
small_durations (suc i) j hi hj = absurd (omega (arith, hi))

parse_workload-AreSpecs_example :
    let r = specs_of (parse_workload (some workload_text)) in
    (0 < r.1)
    × (r.1 ≡ length (skip_header (fgets_lines 1024 workload_text)))
    × AreSpecs (skip_header (fgets_lines 1024 workload_text)) r
parse_workload-AreSpecs_example =
    parse_workload-AreSpecs workload_text (specs_of (parse_workload (some workload_text)))
      parse_workload_small

-- The check of a duration comes before its conversion to `int`: 2^32 passes it and becomes 0.
parse_bursts_long : ((bursts_of (parse_bursts long_text)).0 0).duration ≡ pos 0
unfolding parse_bursts bursts_from burst_ok trim tokens tokens_from strtol sign_and_digits digits
    narrow to_int32
parse_bursts_long = refl
