-- ===== src/Sim/Main/Outputs.antt =====
-- What a run of the program that ends well has done. (src/main.c)
use g20_os_lab_project.Common.{
  ℕ, ◌≡◌, refl, Bool, true, if◌then◌else◌, Option, none, some, List, [], ◌∷◌, ◌++◌, arith,
  Bool-cases, Option-cases, inl, inr, append_assoc, append-nil, ◌⊎◌, subst, ℤ, pos, negsuc,
  pos_part, ◌≤ℤ◌, ◌<◌,
}
use g20_os_lab_project.Sim.Types.{AlgorithmKind, Workload}
use g20_os_lab_project.Sim.Parser.{ParsedSpec, parse_workload}
use g20_os_lab_project.Sim.Args.{CommandLine, parse_args, path_of}
use g20_os_lab_project.Sim.Simulation.{SimulationResult, run_simulation}
use g20_os_lab_project.Sim.Report.Text.{codes, comparison_csv}
use g20_os_lab_project.Sim.Report.Files.{
  Os, ensure_output_dir, write_result_files, write_comparison_csv,
}
use g20_os_lab_project.Sim.Report.Files.Written.{WriteLaws, content-write}
use g20_os_lab_project.Sim.Main.{
  Session, Exit, algorithms, config_of, workload_of, report_one, simulation_failed, compare_all,
  run_each, report_single, run_single, run_workload, with_workload, with_config, main, print_result,
}

-- The algorithms that a command line asks for.
abbrev pub asked : CommandLine → List AlgorithmKind
asked c = if c.run_all then algorithms else c.algorithm ∷ []

-- Each result is that of the simulation of its algorithm.
abbrev pub AreResults :
    (malloc_ok : AlgorithmKind → Bool)
    → CommandLine
    → Workload
    → List AlgorithmKind
    → List SimulationResult
    → Type 0
AreResults malloc_ok c w [] [] = Unit
AreResults malloc_ok c w (kind ∷ kinds) (r ∷ rs) =
    (run_simulation (malloc_ok kind) w (config_of c) kind ≡ some r)
    × AreResults malloc_ok c w kinds rs
AreResults malloc_ok c w [] (r ∷ rs) = ⊥
AreResults malloc_ok c w (kind ∷ kinds) [] = ⊥

abbrev pub comparison_path : CommandLine → List ℕ
comparison_path c = path_of (c.output_dir ++ codes "/comparison.csv")

-- No burst of the parsed workload has a negative duration.
abbrev pub HasDurations : (ℕ → ParsedSpec) × ℕ → Type 0
HasDurations (processes, n) =
    (i j : ℕ) → i < n → j < (processes i).burst_count → pos 0 ≤ℤ ((processes i).bursts j).duration

-- The workload has the processes, the bursts and the durations that were parsed.
abbrev pub KeepsDurations : (ℕ → ParsedSpec) × ℕ → Workload → Type 0
KeepsDurations (processes, n) w =
    (w.process_count ≡ n)
    × ((i : ℕ)
        → i < n
        → ((w.processes i).burst_count ≡ (processes i).burst_count)
          × ((j : ℕ)
              → j < (processes i).burst_count
              → (((w.processes i).bursts j).type ≡ ((processes i).bursts j).type)
                × (pos ((w.processes i).bursts j).duration ≡ ((processes i).bursts j).duration)))

pos-pos_part : (x : ℤ) → pos 0 ≤ℤ x → pos (pos_part x) ≡ x
pos-pos_part (pos n) h = refl
pos-pos_part (negsuc n) h = absurd (omega (arith, h))

workload_of-KeepsDurations :
    (parsed : (ℕ → ParsedSpec) × ℕ)
    → HasDurations parsed
    → KeepsDurations parsed (workload_of parsed)
workload_of-KeepsDurations (processes, n) long = (
  refl,
  λ i hi. (refl, λ j hj. (refl, pos-pos_part ((processes i).bursts j).duration (long i j hi hj))),
)

module _ (os : Os) (read : List ℕ → os.Disk → Option (List ℕ)) (malloc_ok : AlgorithmKind → Bool)
    (content : List ℕ → os.Disk → Option (List ℕ)) (error : os.Disk → Bool)
    (Apart : List ℕ → List ℕ → Type 0) (laws : WriteLaws os content error Apart) where
  open os use {Disk, fixed}

  abbrev SessionOf : Type 0
  SessionOf = Session os read malloc_ok

  -- The comparison file holds the results, unless fprintf or fclose has reported an error.
  abbrev Holds : CommandLine → List SimulationResult → Disk → Type 0
  Holds c rs d = (error d ≡ true) ⊎ (content (comparison_path c) d ≡ some (comparison_csv fixed rs))

  -- The comparison file is written with the results.
  comparison_written :
      (c : CommandLine) (results : List SimulationResult) (d : Disk)
      → (write_comparison_csv os c.output_dir results d).0 ≡ true
      → Holds c results (write_comparison_csv os c.output_dir results d).1
  unfolding write_comparison_csv
  comparison_written c results d ok =
      elim (Bool-cases (error (write_comparison_csv os c.output_dir results d).1)) [
        | inl bad ↦ inl bad
        | inr fine ↦ inr (
            content-write os content error Apart laws (comparison_path c)
              (comparison_csv fixed results) d ok fine)
      ]

  -- What a run with the status 0 has left: a result for each algorithm, and the comparison of all.
  abbrev Compared :
      CommandLine
      → Workload
      → List AlgorithmKind
      → List SimulationResult
      → Exit os read malloc_ok
      → Type 0
  Compared c w kinds before e =
      (rs : List SimulationResult) × AreResults malloc_ok c w kinds rs
      × Holds c (before ++ rs) e.1.disk

  compare_all_lem :
      (c : CommandLine) (w : Workload) (results : List SimulationResult) (s : SessionOf)
      → (compare_all os read malloc_ok c results s).0 ≡ 0
      → Compared c w [] results (compare_all os read malloc_ok c results s)
  unfolding compare_all
  compare_all_lem c w results s ok =
      elim (Bool-cases (write_comparison_csv os c.output_dir results s.disk).0) [
        | inl good ↦
            rw good ([], tt, rw (append-nil results) (comparison_written c results s.disk good))
        | inr bad ↦ let no_way = rw bad at ok in absurd (omega (arith, no_way))
      ]

  run_each_lem :
      (c : CommandLine) (w : Workload) (kinds : List AlgorithmKind)
      (results : List SimulationResult) (s : SessionOf)
      → (run_each os read malloc_ok c w kinds results s).0 ≡ 0
      → Compared c w kinds results (run_each os read malloc_ok c w kinds results s)
  unfolding run_each report_one simulation_failed
  run_each_lem c w [] results s ok = compare_all_lem c w results s ok
  run_each_lem c w (kind ∷ kinds) results s ok =
      elim (Option-cases (run_simulation (malloc_ok kind) w (config_of c) kind)) [
        | inl e ↦ let no_way = rw e at ok in absurd (omega (arith, no_way))
        | inr (r, e) ↦
            elim (Bool-cases (write_result_files os c.output_dir c.input_path r s.disk).0) [
              | inr bad ↦ let no_way = rw (e, bad) at ok in absurd (omega (arith, no_way))
              | inl good ↦
                  let s' = print_result os read malloc_ok r (record s {
                    disk = (write_result_files os c.output_dir c.input_path r s.disk).1;
                  }) in
                  let (rs, all, file) =
                    run_each_lem c w kinds (results ++ r ∷ []) s' (rw (e, good) at ok) in
                  rw (e, good)
                    (
                      r ∷ rs,
                      (e, all),
                      subst
                          (λ (l : List SimulationResult).
                            Holds c l
                              (run_each os read malloc_ok c w kinds (results ++ r ∷ []) s').1.disk)
                          (append_assoc results (r ∷ []) rs) file,
                    )
            ]
      ]

  run_single_lem :
      (c : CommandLine) (w : Workload) (s : SessionOf)
      → (run_single os read malloc_ok c w s).0 ≡ 0
      → Compared c w (c.algorithm ∷ []) [] (run_single os read malloc_ok c w s)
  unfolding run_single report_single simulation_failed print_result
  run_single_lem c w s ok =
      elim (Option-cases (run_simulation (malloc_ok c.algorithm) w (config_of c) c.algorithm)) [
        | inl e ↦ let no_way = rw e at ok in absurd (omega (arith, no_way))
        | inr (r, e) ↦
            elim (Bool-cases (write_result_files os c.output_dir c.input_path r s.disk).0) [
              | inr bad ↦ let no_way = rw (e, bad) at ok in absurd (omega (arith, no_way))
              | inl good ↦
                  let d = (write_result_files os c.output_dir c.input_path r s.disk).1 in
                  elim (Bool-cases (write_comparison_csv os c.output_dir (r ∷ []) d).0) [
                    | inr bad ↦
                        let no_way = rw (e, good, bad) at ok in absurd (omega (arith, no_way))
                    | inl fine ↦
                        rw (e, good, fine) (r ∷ [], (e, tt), comparison_written c (r ∷ []) d fine)
                  ]
            ]
      ]

  run_workload_lem :
      (c : CommandLine) (w : Workload) (s : SessionOf)
      → (run_workload os read malloc_ok c w s).0 ≡ 0
      → Compared c w (asked c) [] (run_workload os read malloc_ok c w s)
  unfolding run_workload
  run_workload_lem c w s ok = elim (Bool-cases (ensure_output_dir os c.output_dir s.disk).0) [
    | inr bad ↦ let no_way = rw bad at ok in absurd (omega (arith, no_way))
    | inl good ↦ elim (Bool-cases c.run_all) [
      | inl every ↦ rw (good, every) (run_each_lem c w algorithms [] _ (rw (good, every) at ok))
      | inr single ↦ rw (good, single) (run_single_lem c w _ (rw (good, single) at ok))
    ]
  ]

  with_workload_lem :
      (c : CommandLine) (o : Option ((ℕ → ParsedSpec) × ℕ)) (s : SessionOf)
      → (with_workload os read malloc_ok c o s).0 ≡ 0
      → (parsed : (ℕ → ParsedSpec) × ℕ) × (o ≡ some parsed)
        × Compared c (workload_of parsed) (asked c) [] (with_workload os read malloc_ok c o s)
  unfolding with_workload
  with_workload_lem c none s ok = absurd (omega (arith, ok))
  with_workload_lem c (some parsed) s ok =
      (parsed, refl, run_workload_lem c (workload_of parsed) s ok)

  with_config_lem :
      (argv0 : List ℕ) (o : Option CommandLine) (s : SessionOf)
      → (with_config os read malloc_ok argv0 o s).0 ≡ 0
      → (c : CommandLine) × (o ≡ some c)
        × (parsed : (ℕ → ParsedSpec) × ℕ) × (parse_workload (read c.input_path s.disk)
            ≡ some parsed)
        × Compared c (workload_of parsed) (asked c) [] (with_config os read malloc_ok argv0 o s)
  unfolding with_config
  with_config_lem argv0 none s ok = absurd (omega (arith, ok))
  with_config_lem argv0 (some c) s ok =
      let (parsed, e, all) = with_workload_lem c (parse_workload (read c.input_path s.disk)) s ok in
      (c, refl, parsed, e, all)

  -- Where the program ends with the status 0, its arguments were accepted and the workload file was
  -- parsed; for each algorithm asked for - all four, in their order, or the one that was named - the
  -- simulation of that workload gave a result; and comparison.csv in the output directory, its name
  -- cut at 511 characters, holds these results and no others, unless a call of fprintf or fclose
  -- reported an error, which the program does not look at. The condition is that no duration of the
  -- parsed workload is negative (the conversion to int can make one so); then the simulated workload
  -- has the bursts and the durations that were parsed.
  pub main_lem :
      (argv0 : List ℕ) (args : List (List ℕ)) (d : Disk)
      → ((c : CommandLine) (parsed : (ℕ → ParsedSpec) × ℕ)
          → parse_args args ≡ some c
          → parse_workload (read c.input_path d) ≡ some parsed
          → HasDurations parsed)
      → (main os read malloc_ok argv0 args d).0 ≡ 0
      → (c : CommandLine) × (parse_args args ≡ some c)
        × (parsed : (ℕ → ParsedSpec) × ℕ) × (parse_workload (read c.input_path d) ≡ some parsed)
        × KeepsDurations parsed (workload_of parsed)
        × (rs : List SimulationResult) × AreResults malloc_ok c (workload_of parsed) (asked c) rs
        × ((error (main os read malloc_ok argv0 args d).1.disk ≡ true)
            ⊎ (content (comparison_path c) (main os read malloc_ok argv0 args d).1.disk
                ≡ some (comparison_csv fixed rs)))
  unfolding main
  main_lem argv0 args d long ok =
      let start : SessionOf = record { disk = d; out = []; err = [] } in
      let (c, accepted, parsed, read_in, compared) =
        with_config_lem argv0 (parse_args args) start ok in
      let (rs, all, file) = compared in
      (
        c,
        accepted,
        parsed,
        read_in,
        workload_of-KeepsDurations parsed (long c parsed accepted read_in),
        rs,
        all,
        file,
      )
