-- ===== src/Sim/Args.antt =====
-- The command line of the simulator: parse_args of G20_Project2_2/src/main.c. The arguments are those
-- after the program's name; the result -1 is `none`.
pub mod Bounds
pub mod Tests
use g20_os_lab_project.Common.{
  ℕ, zero, suc, ◌+◌, ◌-◌, ◌%◌, ◌^◌, Bool, true, false, not, ltb, ◌&&◌, ◌||◌, ◌==◌, if◌then◌else◌,
  Option, none, some, List, [], ◌∷◌, ℤ, pos, ltb_ℤ, min,
}
use g20_os_lab_project.Sim.Types.{AlgorithmKind, mlfq, lottery, edf, custom, all, max_cpus}
use g20_os_lab_project.Sim.Text.{is_space, same_text, digits, strtol, narrow}
use g20_os_lab_project.Sim.Parser.{parse_algorithm_kind, then_some}

-- `SimulationConfig` as parse_args fills it, with every `int` signed.
pub record CommandLine : Type 0 where
  pub algorithm : AlgorithmKind
  pub cpu_count : ℤ
  pub seed : ℕ
  pub max_ticks : ℤ
  pub run_all : Bool
  pub input_path : List ℕ
  pub output_dir : List ℕ

abbrev pub is_all : AlgorithmKind → Bool
is_all all = true
is_all _ = false

abbrev pub default_config : CommandLine
default_config = record {
  algorithm = mlfq;
  cpu_count = pos 4;
  seed = 42;
  max_ticks = pos 512;
  run_all = false;
  input_path = [];
  output_dir = [];
}

abbrev pub max_path_len : ℕ
max_path_len = 512

-- The first `n` characters of a text.
abbrev pub first_chars : ℕ → List ℕ → List ℕ
first_chars zero text = []
first_chars (suc n) [] = []
first_chars (suc n) (c ∷ text) = c ∷ first_chars n text

-- What snprintf leaves in a path of MAX_PATH_LEN characters.
abbrev pub path_of : List ℕ → List ℕ
path_of text = first_chars (max_path_len - 1) text

-- A sign and the digits after it, as an unsigned long; a number that does not fit is not negated.
abbrev pub unsigned_digits : (negative : Bool) → ℕ → ℕ
unsigned_digits negative n =
    if not (ltb n (2 ^ 64)) then 2 ^ 64 - 1 else if negative then (2 ^ 64 - n) % 2 ^ 64 else n

-- `strtoul(text, NULL, 10)` of a 64-bit long.
pub strtoul : List ℕ → ℕ
strtoul [] = 0
strtoul (c ∷ text) =
    let rest = strtoul text in
    if is_space c
    then rest
    else if c == 45
    then unsigned_digits true (digits 0 text)
    else if c == 43
    then unsigned_digits false (digits 0 text)
    else unsigned_digits false (digits 0 (c ∷ text))

-- The names of the options.
abbrev pub flag_algo : List ℕ
flag_algo = 45 ∷ 45 ∷ 97 ∷ 108 ∷ 103 ∷ 111 ∷ []

abbrev pub flag_cpus : List ℕ
flag_cpus = 45 ∷ 45 ∷ 99 ∷ 112 ∷ 117 ∷ 115 ∷ []

abbrev pub flag_input : List ℕ
flag_input = 45 ∷ 45 ∷ 105 ∷ 110 ∷ 112 ∷ 117 ∷ 116 ∷ []

abbrev pub flag_output_dir : List ℕ
flag_output_dir = 45 ∷ 45 ∷ 111 ∷ 117 ∷ 116 ∷ 112 ∷ 117 ∷ 116 ∷ 45 ∷ 100 ∷ 105 ∷ 114 ∷ []

abbrev pub flag_seed : List ℕ
flag_seed = 45 ∷ 45 ∷ 115 ∷ 101 ∷ 101 ∷ 100 ∷ []

abbrev pub flag_max_ticks : List ℕ
flag_max_ticks = 45 ∷ 45 ∷ 109 ∷ 97 ∷ 120 ∷ 45 ∷ 116 ∷ 105 ∷ 99 ∷ 107 ∷ 115 ∷ []

-- One option with its value.
pub set_option : CommandLine → (flag value : List ℕ) → Option CommandLine
unfolding strtoul
set_option config flag value =
    if same_text flag flag_algo
    then then_some (parse_algorithm_kind value)
        (λ kind. some (record config { algorithm = kind; run_all = is_all kind }))
    else if same_text flag flag_cpus
    then some (record config { cpu_count = narrow (strtol value) })
    else if same_text flag flag_input
    then some (record config { input_path = path_of value })
    else if same_text flag flag_output_dir
    then some (record config { output_dir = path_of value })
    else if same_text flag flag_seed
    then some (record config { seed = strtoul value % 2 ^ 32 })
    else if same_text flag flag_max_ticks
    then some (record config { max_ticks = narrow (strtol value) })
    else none

-- The loop over the arguments. An option without a value is refused.
pub args_from : CommandLine → List (List ℕ) → Option CommandLine
unfolding set_option
args_from config [] = some config
args_from config (flag ∷ []) = none
args_from config (flag ∷ value ∷ more) =
    then_some (set_option config flag value) (λ next. args_from next more)

abbrev pub is_nil : List ℕ → Bool
is_nil [] = true
is_nil (c ∷ text) = false

-- The tests after the loop.
pub config_ok : CommandLine → Bool
config_ok config =
    ltb_ℤ (pos 0) config.cpu_count
    && (not (ltb_ℤ (pos max_cpus) config.cpu_count)
        && (not (is_nil config.input_path) && not (is_nil config.output_dir)))

pub parse_args : List (List ℕ) → Option CommandLine
unfolding args_from config_ok
parse_args args =
    then_some (args_from default_config args)
      (λ config. if config_ok config then some config else none)
