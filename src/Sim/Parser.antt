-- ===== src/Sim/Parser.antt =====
-- The workload parser: G20_Project2_2/src/core/parser.c. The file is its text, or `none` where fopen
-- fails. The result -1 is `none`.
pub mod Bursts
pub mod Valid
pub mod Tests
use g20_os_lab_project.Common.{
  ℕ, zero, suc, ◌+◌, ◌-◌, Bool, true, false, not, ltb, leb, ◌==◌, ◌&&◌, ◌||◌, if◌then◌else◌, update,
  Option, none, some, List, [], ◌∷◌, ℤ, pos, negsuc, ltb_ℤ, length,
}
use g20_os_lab_project.Sim.Types.{
  AlgorithmKind, mlfq, lottery, edf, custom, all, BurstType, cpu, io, max_bursts,
}
use g20_os_lab_project.Sim.ReadyQueue.{max_processes}
use g20_os_lab_project.Sim.Text.{
  is_space, to_upper, same_text, starts_with, tokens, strtol, narrow, fgets_lines,
}

abbrev pub drop_spaces : List ℕ → List ℕ
drop_spaces [] = []
drop_spaces (c ∷ text) = let rest = drop_spaces text in if is_space c then rest else c ∷ text

abbrev pub cut_spaces : List ℕ → List ℕ
cut_spaces [] = []
cut_spaces (c ∷ text) = elim (cut_spaces text) [
  | [] ↦ if is_space c then [] else c ∷ []
  | d ∷ rest ↦ c ∷ d ∷ rest
]

unfoldable pub trim : List ℕ → List ℕ
trim value = cut_spaces (drop_spaces value)

-- A burst as the parser writes it, an `int` for its duration.
pub record ParsedBurst : Type 0 where
  pub type : BurstType
  pub duration : ℤ

-- The burst that comes next, by its letter: 'C' or 'I'.
abbrev pub letter : BurstType → ℕ
letter cpu = 67
letter io = 73

abbrev pub other_type : BurstType → BurstType
other_type cpu = io
other_type io = cpu

-- The tests on a trimmed token in the loop of parse_bursts.
pub burst_ok : BurstType → (burst_count : ℕ) → List ℕ → Bool
burst_ok expected burst_count [] = false
burst_ok expected burst_count (c ∷ []) = false
burst_ok expected burst_count (c ∷ d ∷ text) =
    ltb_ℤ (pos 0) (strtol (d ∷ text))
    && (ltb burst_count max_bursts && (to_upper c == letter expected))

abbrev pub first : List ℕ → ℕ
first [] = 0
first (c ∷ text) = c

abbrev pub tail : List ℕ → List ℕ
tail [] = []
tail (c ∷ text) = text

-- The loop over the tokens: the bursts so far and their number.
pub bursts_from : List (List ℕ) → BurstType → (ℕ → ParsedBurst) → ℕ → Option ((ℕ → ParsedBurst) × ℕ)
unfolding burst_ok
bursts_from [] expected bursts burst_count = some (bursts, burst_count)
bursts_from (token ∷ more) expected bursts burst_count =
    let trimmed = trim token in
    let burst : ParsedBurst = record {
      type = if to_upper (first trimmed) == letter cpu then cpu else io;
      duration = narrow (strtol (tail trimmed));
    } in
    let rest =
      bursts_from more (other_type expected) (update bursts burst_count burst) (burst_count + 1) in
    if burst_ok expected burst_count trimmed then rest else none

abbrev pub no_bursts : ℕ → ParsedBurst
no_bursts i = record { type = cpu; duration = pos 0 }

-- `return burst_count > 0 ? 0 : -1;`
abbrev pub some_bursts : (ℕ → ParsedBurst) × ℕ → Option ((ℕ → ParsedBurst) × ℕ)
some_bursts (bursts, zero) = none
some_bursts (bursts, suc n) = some (bursts, suc n)

abbrev pub then_some {ℓ κ} : {A : Type ℓ} {B : Type κ} → Option A → (A → Option B) → Option B
then_some none f = none
then_some (some a) f = f a

pub parse_bursts : List ℕ → Option ((ℕ → ParsedBurst) × ℕ)
unfolding bursts_from
parse_bursts text =
    if leb 512 (length text)
    then none
    else then_some (bursts_from (tokens (λ c. c == 58) text) cpu no_bursts 0) some_bursts

-- `ProcessSpec` as the parser fills it, with every `int` signed.
pub record ParsedSpec : Type 0 where
  pub pid : ℤ
  pub arrival : ℤ
  pub base_priority : ℤ
  pub tickets : ℤ
  pub deadline : ℤ
  pub affinity : ℤ
  pub burst_count : ℕ
  pub bursts : ℕ → ParsedBurst

-- `(int)strtol(field, NULL, 10)` of a field, and `trim`.
pub number : List ℕ → ℤ
number field = narrow (strtol (trim field))

-- The part of the loop of parse_workload that the first seven tokens of a line decide.
pub parse_fields : (f0 f1 f2 f3 f4 f5 f6 : List ℕ) → Option ParsedSpec
unfolding number parse_bursts
parse_fields f0 f1 f2 f3 f4 f5 f6 =
    if not (ltb_ℤ (pos 0) (number f0)) || ltb_ℤ (number f1) (pos 0)
    then none
    else then_some (parse_bursts (trim f2)) (λ parsed. some (record {
      pid = number f0;
      arrival = number f1;
      base_priority = number f3;
      tickets = if ltb_ℤ (pos 0) (number f4) then number f4 else pos 1;
      deadline = number f5;
      affinity = number f6;
      burst_count = parsed.1;
      bursts = parsed.0;
    }))

-- A line with fewer than seven tokens is refused; what follows the seventh is not looked at.
pub parse_line : List (List ℕ) → Option ParsedSpec
unfolding parse_fields
parse_line (f0 ∷ f1 ∷ f2 ∷ f3 ∷ f4 ∷ f5 ∷ f6 ∷ more) = parse_fields f0 f1 f2 f3 f4 f5 f6
parse_line _ = none

-- The loop over the lines: the processes so far and their number.
pub lines_from : List (List ℕ) → (ℕ → ParsedSpec) → ℕ → Option ((ℕ → ParsedSpec) × ℕ)
unfolding parse_line
lines_from [] processes process_count = some (processes, process_count)
lines_from (line ∷ more) processes process_count =
    if leb max_processes process_count
    then none
    else then_some (parse_line (tokens (λ c. c == 44 || c == 10) line))
        (λ spec. lines_from more (update processes process_count spec) (process_count + 1))

-- The header line is skipped if it starts with "pid,".
pub skip_header : List (List ℕ) → List (List ℕ)
skip_header [] = []
skip_header (line ∷ more) =
    if starts_with (112 ∷ 105 ∷ 100 ∷ 44 ∷ []) line then more else line ∷ more

abbrev pub no_processes : ℕ → ParsedSpec
no_processes i = record {
  pid = pos 0;
  arrival = pos 0;
  base_priority = pos 0;
  tickets = pos 0;
  deadline = pos 0;
  affinity = pos 0;
  burst_count = 0;
  bursts = no_bursts;
}

abbrev pub some_processes : (ℕ → ParsedSpec) × ℕ → Option ((ℕ → ParsedSpec) × ℕ)
some_processes (processes, zero) = none
some_processes (processes, suc n) = some (processes, suc n)

pub parse_workload : Option (List ℕ) → Option ((ℕ → ParsedSpec) × ℕ)
unfolding lines_from skip_header
parse_workload none = none
parse_workload (some text) =
    then_some (lines_from (skip_header (fgets_lines 1024 text)) no_processes 0) some_processes

unfoldable pub algorithm_kind_name : AlgorithmKind → List ℕ
algorithm_kind_name mlfq = 109 ∷ 108 ∷ 102 ∷ 113 ∷ []
algorithm_kind_name lottery = 108 ∷ 111 ∷ 116 ∷ 116 ∷ 101 ∷ 114 ∷ 121 ∷ []
algorithm_kind_name edf = 101 ∷ 100 ∷ 102 ∷ []
algorithm_kind_name custom = 99 ∷ 117 ∷ 115 ∷ 116 ∷ 111 ∷ 109 ∷ []
algorithm_kind_name all = 97 ∷ 108 ∷ 108 ∷ []

pub parse_algorithm_kind : List ℕ → Option AlgorithmKind
parse_algorithm_kind value =
    if same_text value (109 ∷ 108 ∷ 102 ∷ 113 ∷ [])
    then some mlfq
    else if same_text value (108 ∷ 111 ∷ 116 ∷ 116 ∷ 101 ∷ 114 ∷ 121 ∷ [])
    then some lottery
    else if same_text value (101 ∷ 100 ∷ 102 ∷ [])
    then some edf
    else if same_text value (99 ∷ 117 ∷ 115 ∷ 116 ∷ 111 ∷ 109 ∷ [])
    then some custom
    else if same_text value (97 ∷ 108 ∷ 108 ∷ [])
    then some all
    else none
