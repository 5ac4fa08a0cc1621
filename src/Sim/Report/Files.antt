-- ===== src/Sim/Report/Files.antt =====
-- Directories and files of report.c: mkdir_if_needed, ensure_output_dir, the three writers,
-- write_result_files and write_comparison_csv.
pub mod Directories
pub mod Written
use g20_os_lab_project.Common.{
  ℕ, zero, suc, ◌-◌, Bool, true, false, ltb, not, ◌==◌, if◌then◌else◌, List, [], ◌∷◌, ◌++◌, length,
}
use g20_os_lab_project.Sim.Args.{path_of, max_path_len}
use g20_os_lab_project.Sim.Parser.{algorithm_kind_name}
use g20_os_lab_project.Sim.Simulation.{Ratio, SimulationResult}
use g20_os_lab_project.Sim.Report.Text.{codes, metrics_csv, timeline_csv, summary, comparison_csv}

-- What mkdir comes to: 0, the error EEXIST, or another error.
pub data Made : Type 0 where
  made exists failed : Made

-- The file system. `fopen` is fopen with the mode "w", and whether it succeeds; `put` is all fprintf
-- on the file that was opened and fclose, and whether none of them reports an error.
pub record Os : Type 1 where
  pub Disk : Type 0
  pub mkdir : List ℕ → Disk → Made × Disk
  pub fopen : List ℕ → Disk → Bool × Disk
  pub put : (path text : List ℕ) → Disk → Bool × Disk
  pub fixed : ℕ → Ratio → List ℕ

abbrev pub made_ok : Made → Bool
made_ok made = true
made_ok exists = true
made_ok failed = false

module _ (os : Os) where
  open os use {Disk, mkdir, fopen, put, fixed}

  -- What every writer does with its file: only fopen is tested.
  unfoldable pub write : (path text : List ℕ) → Disk → Bool × Disk
  write path text d =
      let (opened, d1) = fopen path d in
      if opened then (true, (put path text d1).1) else (false, d1)

  unfoldable pub mkdir_if_needed : List ℕ → Disk → Bool × Disk
  mkdir_if_needed path d = let (r, d') = mkdir path d in (made_ok r, d')

  -- One action after another, as long as they succeed.
  abbrev pub and_then : Bool × Disk → (Disk → Bool × Disk) → Bool × Disk
  and_then (true, d) next = next d
  and_then (false, d) next = (false, d)

  -- The loop from the second character on: `seen` is the buffer before it.
  unfoldable pub make_dirs : (seen rest : List ℕ) → Disk → Bool × Disk
  unfolding mkdir_if_needed
  make_dirs seen [] d = mkdir_if_needed seen d
  make_dirs seen (c ∷ rest) d =
      let next = make_dirs (seen ++ c ∷ []) rest in
      if c == 47 then and_then (mkdir_if_needed seen d) next else next d

  -- The code reads past the end of an empty path; parse_args accepts none.
  unfoldable pub make_path : List ℕ → Disk → Bool × Disk
  unfolding mkdir_if_needed make_dirs
  make_path [] d = mkdir_if_needed [] d
  make_path (c ∷ path) d = make_dirs (c ∷ []) path d

  unfoldable pub ensure_output_dir : List ℕ → Disk → Bool × Disk
  unfolding make_path
  ensure_output_dir path d = if ltb (length path) max_path_len then make_path path d else (false, d)

  -- `snprintf(dir, sizeof(dir), "%s/%s", base_dir, algorithm_name)`
  abbrev pub result_dir : List ℕ → SimulationResult → List ℕ
  result_dir base_dir r = path_of (base_dir ++ 47 ∷ algorithm_kind_name r.metrics.algorithm)

  abbrev pub metrics_path : List ℕ → List ℕ
  metrics_path dir = path_of (dir ++ codes "/metrics.csv")

  abbrev pub timeline_path : List ℕ → List ℕ
  timeline_path dir = path_of (dir ++ codes "/timeline.csv")

  abbrev pub summary_path : List ℕ → List ℕ
  summary_path dir = path_of (dir ++ codes "/summary.txt")

  unfoldable pub write_metrics_csv_file : List ℕ → SimulationResult → Disk → Bool × Disk
  unfolding write
  write_metrics_csv_file path r d = write path (metrics_csv fixed r) d

  unfoldable pub write_timeline_csv_file : List ℕ → SimulationResult → Disk → Bool × Disk
  unfolding write
  write_timeline_csv_file path r d = write path (timeline_csv r.timeline) d

  unfoldable pub write_summary_file :
      (path workload_path : List ℕ) → SimulationResult → Disk → Bool × Disk
  unfolding write
  write_summary_file path workload_path r d = write path (summary fixed workload_path r) d

  -- The three files in a directory.
  unfoldable pub write_files : (dir workload_path : List ℕ) → SimulationResult → Disk → Bool × Disk
  unfolding write_metrics_csv_file write_timeline_csv_file write_summary_file
  write_files dir workload_path r d =
      and_then (write_metrics_csv_file (metrics_path dir) r d) (λ d1.
        and_then (write_timeline_csv_file (timeline_path dir) r d1)
          (λ d2. write_summary_file (summary_path dir) workload_path r d2))

  unfoldable pub write_result_files :
      (base_dir workload_path : List ℕ) → SimulationResult → Disk → Bool × Disk
  unfolding write_files ensure_output_dir
  write_result_files base_dir workload_path r d =
      and_then (ensure_output_dir (result_dir base_dir r) d)
        (write_files (result_dir base_dir r) workload_path r)

  unfoldable pub write_comparison_csv :
      (base_dir : List ℕ) → List SimulationResult → Disk → Bool × Disk
  unfolding write
  write_comparison_csv base_dir results d =
      write (path_of (base_dir ++ codes "/comparison.csv")) (comparison_csv fixed results) d
