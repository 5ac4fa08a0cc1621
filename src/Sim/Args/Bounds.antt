-- ===== src/Sim/Args/Bounds.antt =====
-- What main.c guarantees of a command line that it accepts.
use g20_os_lab_project.Common.{
  ℕ, zero, suc, ◌-◌, ◌≤◌, ◌<◌, ◌≡◌, ◌%◌, ◌^◌, refl, subst, Bool, true, false, if◌then◌else◌, Option,
  none, some, List, [], ◌∷◌, ℤ, pos, ◌<ℤ◌, ◌≤ℤ◌, length, arith, Bool-cases, inl, inr,
}
use g20_os_lab_project.Sim.Types.{AlgorithmKind, max_cpus}
use g20_os_lab_project.Sim.Text.{same_text, strtol, narrow}
use g20_os_lab_project.Sim.Parser.{parse_algorithm_kind, then_some}
use g20_os_lab_project.Sim.Parser.Valid.{chained}
use g20_os_lab_project.Sim.Parser.Bursts.{some_injective}
use g20_os_lab_project.Sim.Args.{
  CommandLine, is_all, default_config, max_path_len, first_chars, path_of, strtoul, set_option,
  args_from, is_nil, config_ok, parse_args, flag_algo, flag_cpus, flag_input, flag_output_dir,
  flag_seed, flag_max_ticks,
}

first_chars-length : (n : ℕ) (text : List ℕ) → length (first_chars n text) ≤ n
first_chars-length zero text = omega arith
first_chars-length (suc n) [] = omega arith
first_chars-length (suc n) (c ∷ text) = omega (arith, first_chars-length n text)

-- What the loop over the arguments keeps.
pub record IsSettled (config : CommandLine) : Type 0 where
  pub seed : config.seed < 2 ^ 32
  pub input_path : length config.input_path < max_path_len
  pub output_dir : length config.output_dir < max_path_len
  pub run_all : config.run_all ≡ is_all config.algorithm

record Settles (o : Option CommandLine) : Type 0 where
  result : (config : CommandLine) → o ≡ some config → IsSettled config

refused-Settles : Settles none
refused-Settles = record { result = λ config h. absurd (ground (arith, h)) }

some-Settles : (config : CommandLine) → IsSettled config → Settles (some config)
some-Settles config s = record {
  result = λ other h. subst IsSettled (some_injective config other h) s;
}

Settles-if :
    (test : Bool) (o other : Option CommandLine)
    → Settles o
    → Settles other
    → Settles (if test then o else other)
Settles-if true o other h k = h
Settles-if false o other h k = k

kind-Settles :
    (config : CommandLine) (kind : Option AlgorithmKind)
    → IsSettled config
    → Settles (then_some kind (λ k. some (record config { algorithm = k; run_all = is_all k })))
kind-Settles config none s = refused-Settles
kind-Settles config (some kind) s =
    some-Settles _ (record {
      seed = s.seed;
      input_path = s.input_path;
      output_dir = s.output_dir;
      run_all = refl;
    })

set_option-Settles :
    (config : CommandLine) (flag value : List ℕ)
    → IsSettled config
    → Settles (set_option config flag value)
unfolding set_option
set_option-Settles config flag value s =
    Settles-if (same_text flag flag_algo) _ _ (kind-Settles config (parse_algorithm_kind value) s) (
      Settles-if (same_text flag flag_cpus) _ _
        (some-Settles _ (same (narrow (strtol value)) config.max_ticks))
        (Settles-if (same_text flag flag_input) _ _ (some-Settles _ input) (
          Settles-if (same_text flag flag_output_dir) _ _ (some-Settles _ output) (
            Settles-if (same_text flag flag_seed) _ _ (some-Settles _ seed) (
              Settles-if (same_text flag flag_max_ticks) _ _
                (some-Settles _ (same config.cpu_count (narrow (strtol value))))
                refused-Settles)))))
  where
    short : length (path_of value) < max_path_len
    short = omega (arith, first_chars-length (max_path_len - 1) value)

    same : (cpus ticks : ℤ) → IsSettled (record config { cpu_count = cpus; max_ticks = ticks })
    same cpus ticks = record {
      seed = s.seed;
      input_path = s.input_path;
      output_dir = s.output_dir;
      run_all = s.run_all;
    }

    input : IsSettled (record config { input_path = path_of value })
    input = record {
      seed = s.seed;
      input_path = short;
      output_dir = s.output_dir;
      run_all = s.run_all;
    }

    output : IsSettled (record config { output_dir = path_of value })
    output = record {
      seed = s.seed;
      input_path = s.input_path;
      output_dir = short;
      run_all = s.run_all;
    }

    seed : IsSettled (record config { seed = strtoul value % 2 ^ 32 })
    seed = record {
      seed = omega arith;
      input_path = s.input_path;
      output_dir = s.output_dir;
      run_all = s.run_all;
    }

args_from-IsSettled :
    (args : List (List ℕ)) (config final : CommandLine)
    → IsSettled config
    → args_from config args ≡ some final
    → IsSettled final
unfolding args_from
args_from-IsSettled [] config final s e = subst IsSettled (some_injective config final e) s
args_from-IsSettled (flag ∷ []) config final s e = absurd (ground (arith, e))
args_from-IsSettled (flag ∷ value ∷ more) config final s e =
    let (next, found, rest) = chained (set_option config flag value) _ final e in
    args_from-IsSettled more next final ((set_option-Settles config flag value s).result next found)
      rest

-- A command line that parse_args accepts names 1 to 8 CPUs, an input and an output path of 1 to 511
-- characters, and a seed of 32 bits; it asks for all algorithms exactly if the algorithm is `all`.
pub parse_args-IsSettled :
    (args : List (List ℕ)) (config : CommandLine)
    → parse_args args ≡ some config
    → IsSettled config
      × (pos 0 <ℤ config.cpu_count)
      × (config.cpu_count ≤ℤ pos max_cpus)
      × (0 < length config.input_path)
      × (0 < length config.output_dir)
unfolding parse_args config_ok
parse_args-IsSettled args config e =
    let (final, found, rest) = chained (args_from default_config args) _ config e in
    let (same, ok) = tested final config rest in
    subst
      (λ c.
        IsSettled c
        × (pos 0 <ℤ c.cpu_count)
        × (c.cpu_count ≤ℤ pos max_cpus)
        × (0 < length c.input_path)
        × (0 < length c.output_dir))
      same
      (
        args_from-IsSettled args default_config final at_start found,
        ground (arith, ok),
        ground (arith, ok),
        some_text final.input_path (ground (arith, ok)),
        some_text final.output_dir (ground (arith, ok)),
      )
  where
    at_start : IsSettled default_config
    at_start = record {
      seed = omega arith;
      input_path = omega arith;
      output_dir = omega arith;
      run_all = refl;
    }

    tested :
        (c d : CommandLine)
        → (if config_ok c then some c else none) ≡ some d
        → (c ≡ d) × (config_ok c ≡ true)
    tested c d h = elim (Bool-cases (config_ok c)) [
      | inl ok ↦ (some_injective c d (rw ok at h), ok)
      | inr bad ↦ absurd (ground (arith, rw bad at h))
    ]

    some_text : (text : List ℕ) → is_nil text ≡ false → 0 < length text
    some_text [] h = absurd (ground (arith, h))
    some_text (c ∷ text) h = omega arith
