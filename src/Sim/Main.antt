-- ===== src/Sim/Main.antt =====
-- The program: main of G20_Project2_2/src/main.c. The arguments are those after the program's name.
-- What goes to stdout and stderr is a text. Whether malloc gives the timeline of an algorithm its
-- memory is a parameter. free_result only gives memory back.
pub mod Outputs
pub mod Tests
use g20_os_lab_project.Common.{
  ℕ, zero, suc, Bool, true, false, if◌then◌else◌, Option, none, some, List, [], ◌∷◌, ◌++◌, ℤ,
  pos_part,
}
use g20_os_lab_project.Sim.Types.{
  AlgorithmKind, mlfq, lottery, edf, custom, Burst, ProcessSpec, Workload,
}
use g20_os_lab_project.Sim.Parser.{ParsedBurst, ParsedSpec, parse_workload, algorithm_kind_name}
use g20_os_lab_project.Sim.Args.{CommandLine, parse_args}
use g20_os_lab_project.Sim.Simulation.{SimulationConfig, SimulationResult, run_simulation}
use g20_os_lab_project.Sim.Report.Text.{codes, print_metrics, print_timeline}
use g20_os_lab_project.Sim.Report.Files.{
  Os, ensure_output_dir, write_result_files, write_comparison_csv,
}

-- The parser has made sure that these numbers are not negative. A duration that its narrowing made
-- negative is 0 here.
abbrev pub burst_of : ParsedBurst → Burst
burst_of b = record { type = b.type; duration = pos_part b.duration }

abbrev pub spec_of : ParsedSpec → ProcessSpec
spec_of p = record {
  pid = pos_part p.pid;
  arrival = pos_part p.arrival;
  base_priority = p.base_priority;
  tickets = pos_part p.tickets;
  deadline = p.deadline;
  affinity = p.affinity;
  burst_count = p.burst_count;
  bursts = λ i. burst_of (p.bursts i);
}

abbrev pub workload_of : (ℕ → ParsedSpec) × ℕ → Workload
workload_of (processes, n) = record { processes = λ i. spec_of (processes i); process_count = n }

-- A run of no ticks for a `max_ticks` below 1.
abbrev pub config_of : CommandLine → SimulationConfig
config_of c = record {
  cpu_count = pos_part c.cpu_count;
  seed = c.seed;
  max_ticks = pos_part c.max_ticks;
}

abbrev pub algorithms : List AlgorithmKind
algorithms = mlfq ∷ lottery ∷ edf ∷ custom ∷ []

unfoldable pub print_usage : (argv0 : List ℕ) → List ℕ
print_usage argv0 =
    codes "Usage: "
    ++ (argv0
        ++ (codes
              " --algo {mlfq,lottery,edf,custom,all} --cpus N --input <workload.csv> --output-dir <dir> [--seed N] [--max-ticks N]"
            ++ 10 ∷ []))

module _ (os : Os) (read : List ℕ → os.Disk → Option (List ℕ))
    (malloc_ok : AlgorithmKind → Bool) where
  open os use {Disk, fixed}

  -- What the process has done so far.
  pub record Session : Type 0 where
    pub disk : Disk
    pub out : List ℕ
    pub err : List ℕ

  -- The exit status, and the session at the end.
  abbrev pub Exit : Type 0
  Exit = ℕ × Session

  abbrev pub fail : List ℕ → Session → Exit
  fail message s = (1, record s { err = s.err ++ message })

  -- The metrics and the schedule on stdout.
  unfoldable pub print_result : SimulationResult → Session → Session
  print_result r s =
      let name = algorithm_kind_name r.metrics.algorithm in
      record s {
        out = (s.out ++ print_metrics fixed name r.metrics) ++ print_timeline name r.timeline;
      }

  -- The body of the loop for `all` once the simulation has a result: `next` is the rest.
  unfoldable pub report_one :
      CommandLine → SimulationResult → Session → (next : Session → Exit) → Exit
  unfolding print_result
  report_one c r s next =
      let (ok, d) = write_result_files os c.output_dir c.input_path r s.disk in
      if ok
      then next (print_result r (record s { disk = d }))
      else fail
          (codes "Failed to write result files for "
            ++ (algorithm_kind_name r.metrics.algorithm ++ 10 ∷ []))
          (record s { disk = d })

  unfoldable pub simulation_failed : AlgorithmKind → Session → Exit
  simulation_failed kind =
      fail (codes "Simulation failed for " ++ (algorithm_kind_name kind ++ 10 ∷ []))

  abbrev pub with_result :
      Option SimulationResult → AlgorithmKind → Session → (SimulationResult → Exit) → Exit
  with_result none kind s next = simulation_failed kind s
  with_result (some r) kind s next = next r

  unfoldable pub compare_all : CommandLine → List SimulationResult → Session → Exit
  compare_all c results s =
      let (ok, d) = write_comparison_csv os c.output_dir results s.disk in
      if ok
      then (0, record s { disk = d })
      else fail (codes "Failed to write comparison CSV" ++ 10 ∷ []) (record s { disk = d })

  -- The loop, with the results so far, and what follows it.
  unfoldable pub run_each :
      CommandLine → Workload → List AlgorithmKind → List SimulationResult → Session → Exit
  unfolding report_one simulation_failed compare_all
  run_each c w [] results s = compare_all c results s
  run_each c w (kind ∷ kinds) results s =
      with_result (run_simulation (malloc_ok kind) w (config_of c) kind) kind s
        (λ r. report_one c r s (run_each c w kinds (results ++ r ∷ [])))

  -- One algorithm: both writers come before the output.
  unfoldable pub report_single : CommandLine → SimulationResult → Session → Exit
  unfolding print_result
  report_single c r s =
      let (ok, d) = write_result_files os c.output_dir c.input_path r s.disk in
      let (ok', d') = write_comparison_csv os c.output_dir (r ∷ []) d in
      let failed = codes "Failed to write output files" ++ 10 ∷ [] in
      if ok
      then if ok'
        then (0, print_result r (record s { disk = d' }))
        else fail failed (record s { disk = d' })
      else fail failed (record s { disk = d })

  unfoldable pub run_single : CommandLine → Workload → Session → Exit
  unfolding report_single simulation_failed
  run_single c w s =
      with_result (run_simulation (malloc_ok c.algorithm) w (config_of c) c.algorithm) c.algorithm s
        (λ r. report_single c r s)

  -- With the workload read.
  unfoldable pub run_workload : CommandLine → Workload → Session → Exit
  unfolding run_each run_single
  run_workload c w s =
      let (ok, d) = ensure_output_dir os c.output_dir s.disk in
      if ok
      then if c.run_all
        then run_each c w algorithms [] (record s { disk = d })
        else run_single c w (record s { disk = d })
      else fail (codes "Failed to create output directory: " ++ (c.output_dir ++ 10 ∷ []))
          (record s { disk = d })

  unfoldable pub with_workload : CommandLine → Option ((ℕ → ParsedSpec) × ℕ) → Session → Exit
  unfolding run_workload
  with_workload c none s = fail (codes "Failed to parse workload: " ++ (c.input_path ++ 10 ∷ [])) s
  with_workload c (some parsed) s = run_workload c (workload_of parsed) s

  unfoldable pub with_config : (argv0 : List ℕ) → Option CommandLine → Session → Exit
  unfolding with_workload print_usage
  with_config argv0 none s = fail (print_usage argv0) s
  with_config argv0 (some c) s = with_workload c (parse_workload (read c.input_path s.disk)) s

  unfoldable pub main : (argv0 : List ℕ) → List (List ℕ) → Disk → Exit
  unfolding with_config
  main argv0 args d = with_config argv0 (parse_args args) (record { disk = d; out = []; err = [] })
