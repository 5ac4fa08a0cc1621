-- ===== src/Sim/Main/Tests.antt =====
-- The theorems on the reports and on main (report.c, main.c) on a small file system: a function from
-- names to texts, where mkdir writes an empty text.
use g20_os_lab_project.Sim.Parser.Bursts.{some_injective}
use g20_os_lab_project.Common.{
  ℕ, ◌<◌, ◌≡◌, refl, Bool, true, false, ◌==◌, if◌then◌else◌, Option, none, some, List, [], ◌∷◌,
  ◌++◌, pos, arith, length, minus_one, ==_self, Bool-cases, inl, inr, sym, subst, ◌∙◌, ◌⊎◌,
}
use g20_os_lab_project.Sim.Types.{edf}
use g20_os_lab_project.Sim.Text.{same_text}
use g20_os_lab_project.Sim.Parser.{ParsedSpec, parse_workload, algorithm_kind_name}
use g20_os_lab_project.Sim.Parser.Tests.{workload_text, parse_workload_small, small_durations}
use g20_os_lab_project.Sim.Args.{CommandLine, parse_args, max_path_len}
use g20_os_lab_project.Sim.Args.Tests.{arguments, parse_args_small}
use g20_os_lab_project.Sim.Simulation.{Ratio, Timeline, SimulationResult, run_simulation}
use g20_os_lab_project.Sim.Report.Text.{
  codes, timeline_csv, timeline_row, decimal, decimal_from, cell, cpu_title, join_range,
  metrics_csv, summary, comparison_csv,
}
use g20_os_lab_project.Sim.Report.Text.Reading.{read_timeline, read_timeline-timeline_csv}
use g20_os_lab_project.Sim.Report.Files.{Os, made, ensure_output_dir, write_result_files, write}
use g20_os_lab_project.Sim.Report.Files.Directories.{MkdirLaws, ensure_output_dir-there}
use g20_os_lab_project.Sim.Report.Files.{
  make_path, make_dirs, mkdir_if_needed, write_files, write_metrics_csv_file,
  write_timeline_csv_file, write_summary_file, write_comparison_csv,
}
use g20_os_lab_project.Sim.Report.Files.Written.{WriteLaws, write_result_files-content}
use g20_os_lab_project.Sim.Main.{
  main, with_config, with_workload, run_workload, run_single, report_single, workload_of,
}
use g20_os_lab_project.Sim.Main.Outputs.{
  AreResults, asked, comparison_path, main_lem, HasDurations, KeepsDurations,
}

abbrev FileMap : Type 0
FileMap = List ℕ → Option (List ℕ)

abbrev put : List ℕ → List ℕ → FileMap → FileMap
put path text files name = if same_text name path then some text else files name

abbrev ratio_text : ℕ → Ratio → List ℕ
ratio_text n r = codes "0"

abbrev small_os : Os
small_os = record {
  Disk = FileMap;
  mkdir = λ path d. (made, put path [] d);
  fopen = λ path d. (true, put path [] d);
  put = λ path text d. (true, put path text d);
  fixed = ratio_text;
}

abbrev is_some : Option (List ℕ) → Bool
is_some none = false
is_some (some text) = true

abbrev there : List ℕ → FileMap → Bool
there path d = is_some (d path)

abbrev content : List ℕ → FileMap → Option (List ℕ)
content path d = d path

same_text_self : (text : List ℕ) → same_text text text ≡ true
same_text_self [] = refl
same_text_self (c ∷ text) = rw (==_self c, same_text_self text) refl

put_self : (path text : List ℕ) (d : FileMap) → put path text d path ≡ some text
put_self path text d = rw (same_text_self path) refl

-- Two names that differ.
abbrev Differ : List ℕ → List ℕ → Type 0
Differ a b = same_text a b ≡ false

put_ne :
    (path text other : List ℕ) (d : FileMap) → Differ other path → put path text d other ≡ d other
put_ne path text other d e = rw e refl

-- No call of fprintf or fclose fails.
abbrev no_error : FileMap → Bool
no_error d = false

there-put :
    (path other : List ℕ) (d : FileMap) → there other d ≡ true → there other (put path [] d) ≡ true
there-put path other d h = elim (Bool-cases (same_text other path)) [
  | inl e ↦ rw e refl
  | inr e ↦ rw e h
]

abbrev mkdir_laws : MkdirLaws small_os there
mkdir_laws = record {
  mkdir_there = λ path d h. rw (same_text_self path) refl;
  mkdir_keeps = λ path other d h. there-put path other d h;
}

abbrev write_laws : WriteLaws small_os content no_error Differ
write_laws = record {
  put_content = λ path text d h fine. put_self path text (put path [] d);
  put_error = λ path text d fine. refl;
  fopen_error = λ path d fine. refl;
  put_other = λ path text other d e. put_ne path text other d e;
  fopen_other = λ path other d e. put_ne path [] other d e;
}

-- The path o/p/q.
abbrev deep : List ℕ
deep = codes "o/p/q"

ensure_output_dir-there_example :
    ((ensure_output_dir small_os deep (λ name. none)).0 ≡ true
      → (length deep < max_path_len)
        × (there deep (ensure_output_dir small_os deep (λ name. none)).1 ≡ true)
        × ((front back : List ℕ)
            → codes "/p/q" ≡ front ++ 47 ∷ back
            → there (111 ∷ front) (ensure_output_dir small_os deep (λ name. none)).1 ≡ true))
    × ((other : List ℕ)
        → there other (λ name. none) ≡ true
        → there other (ensure_output_dir small_os deep (λ name. none)).1 ≡ true)
ensure_output_dir-there_example =
    ensure_output_dir-there small_os there mkdir_laws deep 111 (codes "/p/q") (λ name. none) refl

-- Two ticks of two CPUs.
abbrev small_timeline : Timeline
small_timeline = record {
  tick_count = 2;
  cpu_count = 2;
  slots = λ i. if i == 2 then pos 17 else minus_one;
}

timeline_csv_small :
    timeline_csv small_timeline
    ≡ codes "tick,cpu0,cpu1" ++ (10 ∷ codes "0,idle,idle" ++ (10 ∷ codes "1,P17,idle" ++ 10 ∷ []))
unfolding timeline_csv timeline_row cpu_title join_range cell decimal decimal_from
timeline_csv_small = refl

read_timeline-timeline_csv_example :
    read_timeline (timeline_csv small_timeline)
    ≡ (0, minus_one ∷ minus_one ∷ []) ∷ (1, pos 17 ∷ minus_one ∷ []) ∷ []
read_timeline-timeline_csv_example = read_timeline-timeline_csv small_timeline

abbrev half : Ratio
half = record { num = pos 1; den = 2 }

abbrev small_result : SimulationResult
small_result = record {
  metrics = record {
    algorithm = edf;
    cpu_count = 2;
    seed = 42;
    total_ticks = 2;
    completed = 1;
    deadline_misses = 0;
    busy_ticks = 1;
    migrations = 0;
    throughput = half;
    cpu_utilization = half;
    avg_waiting = half;
    avg_turnaround = half;
    avg_response = half;
  };
  timeline = small_timeline;
}

write_result_files_small :
    (write_result_files small_os (codes "out") (codes "in.csv") small_result (λ name. none)).0
    ≡ true
unfolding write_result_files ensure_output_dir algorithm_kind_name make_path make_dirs
    mkdir_if_needed write_files write_metrics_csv_file write_timeline_csv_file write_summary_file
    write
write_result_files_small = refl

-- A disk that is full: fopen makes an empty file, and fprintf or fclose fails.
abbrev full_os : Os
full_os = record {
  Disk = FileMap;
  mkdir = λ path d. (made, put path [] d);
  fopen = λ path d. (true, put path [] d);
  put = λ path text d. (false, d);
  fixed = ratio_text;
}

-- The three files are empty, and write_result_files returns 0 all the same.
write_result_files_full :
    let (ok, d') =
      write_result_files full_os (codes "out") (codes "in.csv") small_result (λ name. none) in
    (ok ≡ true)
    × (d' (codes "out/edf/metrics.csv") ≡ some [])
    × (d' (codes "out/edf/timeline.csv") ≡ some [])
    × (d' (codes "out/edf/summary.txt") ≡ some [])
unfolding write_result_files ensure_output_dir algorithm_kind_name make_path make_dirs
    mkdir_if_needed write_files write_metrics_csv_file write_timeline_csv_file write_summary_file
    write
write_result_files_full = (refl, refl, refl, refl)

write_result_files-content_example :
    let d' =
      (write_result_files small_os (codes "out") (codes "in.csv") small_result (λ name. none)).1 in
    (content (codes "out/edf/metrics.csv") d' ≡ some (metrics_csv ratio_text small_result))
    × (content (codes "out/edf/timeline.csv") d' ≡ some (timeline_csv small_timeline))
    × (content (codes "out/edf/summary.txt") d'
        ≡ some (summary ratio_text (codes "in.csv") small_result))
unfolding algorithm_kind_name
write_result_files-content_example =
    write_result_files-content small_os content no_error Differ write_laws (codes "out")
      (codes "in.csv") small_result (λ name. none) (omega arith) (refl, refl, refl)
      write_result_files_small refl

-- The workload file is there, and malloc gives memory.
abbrev read_small : List ℕ → FileMap → Option (List ℕ)
read_small path d = some workload_text

main_small : (main small_os read_small (λ kind. true) (codes "sim") arguments (λ name. none)).0 ≡ 0
unfolding main with_config with_workload run_workload run_single report_single run_simulation
    write_result_files ensure_output_dir make_path make_dirs mkdir_if_needed write_files
    write_metrics_csv_file write_timeline_csv_file write_summary_file write_comparison_csv
    algorithm_kind_name write
main_small = rw (parse_args_small, parse_workload_small) refl

durations_read :
    (c : CommandLine) (parsed : (ℕ → ParsedSpec) × ℕ)
    → parse_args arguments ≡ some c
    → parse_workload (some workload_text) ≡ some parsed
    → HasDurations parsed
durations_read c parsed accepted e =
    subst HasDurations (some_injective _ parsed (sym parse_workload_small ∙ e)) small_durations

main_example :
    (c : CommandLine) × (parse_args arguments ≡ some c)
    × (parsed : (ℕ → ParsedSpec) × ℕ) × (parse_workload (some workload_text) ≡ some parsed)
    × KeepsDurations parsed (workload_of parsed)
    × (rs : List SimulationResult) × AreResults (λ kind. true) c (workload_of parsed) (asked c) rs
    × ((false ≡ true)
        ⊎ (content
              (comparison_path c)
              (main small_os read_small
                (λ kind. true)
                (codes "sim")
                arguments
                (λ name. none)).1.disk
            ≡ some (comparison_csv ratio_text rs)))
main_example =
    main_lem small_os read_small (λ kind. true) content no_error Differ write_laws (codes "sim")
      arguments (λ name. none) durations_read main_small
