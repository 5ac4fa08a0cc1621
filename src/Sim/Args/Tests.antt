-- ===== src/Sim/Args/Tests.antt =====
-- A command line on which the theorem on main.c is tried.
use g20_os_lab_project.Common.{
  ℕ, ◌≡◌, ◌<◌, refl, some, List, [], ◌∷◌, pos, ◌<ℤ◌, ◌≤ℤ◌, length, to_int32,
}
use g20_os_lab_project.Sim.Text.{digits, sign_and_digits, strtol, narrow}
use g20_os_lab_project.Sim.Args.{
  CommandLine, default_config, flag_cpus, flag_input, flag_output_dir, set_option, args_from,
  config_ok, parse_args,
}
use g20_os_lab_project.Sim.Args.Bounds.{IsSettled, parse_args-IsSettled}

abbrev pub arguments : List (List ℕ)
arguments = flag_cpus ∷ (50 ∷ []) ∷ flag_input ∷ (97 ∷ []) ∷ flag_output_dir ∷ (111 ∷ []) ∷ []

abbrev pub accepted : CommandLine
accepted = record default_config {
  cpu_count = pos 2;
  input_path = (97 ∷ []);
  output_dir = (111 ∷ []);
}

pub parse_args_small : parse_args arguments ≡ some accepted
unfolding parse_args args_from set_option config_ok strtol sign_and_digits digits narrow to_int32
parse_args_small = refl

parse_args-IsSettled_example :
    IsSettled accepted
    × (pos 0 <ℤ pos 2)
    × (pos 2 ≤ℤ pos 8)
    × (0 < length (accepted.input_path))
    × (0 < length (accepted.output_dir))
parse_args-IsSettled_example = parse_args-IsSettled arguments accepted parse_args_small
