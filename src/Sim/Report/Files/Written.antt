-- ===== src/Sim/Report/Files/Written.antt =====
-- What write_result_files of report.c leaves in the files.
use g20_os_lab_project.Common.{
  ℕ, zero, suc, ◌<◌, ◌≤◌, ◌≡◌, refl, ap, ◌∙◌, List, [], ◌∷◌, ◌++◌, Option, some, Bool, true, false,
  arith, Bool-cases, inl, inr, length, length-append,
}
use g20_os_lab_project.Sim.Args.{max_path_len, path_of, first_chars}
use g20_os_lab_project.Sim.Parser.{algorithm_kind_name}
use g20_os_lab_project.Sim.Simulation.{SimulationResult}
use g20_os_lab_project.Sim.Report.Text.{codes, metrics_csv, timeline_csv, summary}
use g20_os_lab_project.Sim.Report.Files.{
  Os, write, and_then, write_files, write_result_files, ensure_output_dir, write_metrics_csv_file,
  write_timeline_csv_file, write_summary_file,
}

first_chars_all : (n : ℕ) (text : List ℕ) → length text ≤ n → first_chars n text ≡ text
first_chars_all zero [] h = refl
first_chars_all zero (c ∷ text) h = absurd (omega arith)
first_chars_all (suc n) [] h = refl
first_chars_all (suc n) (c ∷ text) h =
    ap (λ (t : List ℕ). c ∷ t) (first_chars_all n text (omega arith))

pub path_of_short : (text : List ℕ) → length text < max_path_len → path_of text ≡ text
path_of_short text h = first_chars_all 511 text (omega arith)

-- What the code relies on. `error` says whether a call of fprintf or fclose has reported an error so
-- far: if not, a file that was opened and closed holds what was written. Files with names that are
-- apart, which no link joins, do not change each other.
pub record WriteLaws (os : Os) (content : List ℕ → os.Disk → Option (List ℕ))
    (error : os.Disk → Bool) (Apart : List ℕ → List ℕ → Type 0) : Type 0 where
  pub put_content :
      (path text : List ℕ) (d : os.Disk)
      → (os.fopen path d).0 ≡ true
      → error (os.put path text (os.fopen path d).1).1 ≡ false
      → content path (os.put path text (os.fopen path d).1).1 ≡ some text
  pub put_error :
      (path text : List ℕ) (d : os.Disk) → error (os.put path text d).1 ≡ false → error d ≡ false
  pub fopen_error :
      (path : List ℕ) (d : os.Disk) → error (os.fopen path d).1 ≡ false → error d ≡ false
  pub put_other :
      (path text other : List ℕ) (d : os.Disk)
      → Apart other path
      → content other (os.put path text d).1 ≡ content other d
  pub fopen_other :
      (path other : List ℕ) (d : os.Disk)
      → Apart other path
      → content other (os.fopen path d).1 ≡ content other d

abbrev metrics_name : List ℕ
metrics_name = codes "/metrics.csv"

abbrev timeline_name : List ℕ
timeline_name = codes "/timeline.csv"

abbrev summary_name : List ℕ
summary_name = codes "/summary.txt"

module _ (os : Os) (content : List ℕ → os.Disk → Option (List ℕ)) (error : os.Disk → Bool)
    (Apart : List ℕ → List ℕ → Type 0) (laws : WriteLaws os content error Apart) where
  open os use {Disk, fopen, put, fixed}

  -- What a writer leaves where fopen succeeds.
  pub content-write :
      (path text : List ℕ) (d : Disk)
      → (write os path text d).0 ≡ true
      → error (write os path text d).1 ≡ false
      → content path (write os path text d).1 ≡ some text
  unfolding write
  content-write path text d ok fine = elim (Bool-cases (fopen path d).0) [
    | inr bad ↦ let no_way = rw bad at ok in absurd (cc)
    | inl good ↦ rw good (laws.put_content path text d good (rw good at fine))
  ]

  write_error :
      (path text : List ℕ) (d : Disk) → error (write os path text d).1 ≡ false → error d ≡ false
  unfolding write
  write_error path text d fine = elim (Bool-cases (fopen path d).0) [
    | inr bad ↦ laws.fopen_error path d (rw bad at fine)
    | inl good ↦
        laws.fopen_error path d (laws.put_error path text (fopen path d).1 (rw good at fine))
  ]

  write_other :
      (path text other : List ℕ) (d : Disk)
      → Apart other path
      → content other (write os path text d).1 ≡ content other d
  unfolding write
  write_other path text other d far = elim (Bool-cases (fopen path d).0) [
    | inr bad ↦ rw bad (laws.fopen_other path other d far)
    | inl good ↦
        rw good
          (laws.put_other path text other (fopen path d).1 far ∙ laws.fopen_other path other d far)
  ]

  -- Three writes to three files.
  three_writes :
      (p1 p2 p3 t1 t2 t3 : List ℕ) (d : Disk)
      → Apart p1 p2
      → Apart p1 p3
      → Apart p2 p3
      → let out =
          and_then os
            (write os p1 t1 d)
            (λ d1. and_then os (write os p2 t2 d1) (λ d2. write os p3 t3 d2)) in
        out.0 ≡ true
        → error out.1 ≡ false
        → (content p1 out.1 ≡ some t1) × (content p2 out.1 ≡ some t2) × (content p3 out.1 ≡ some t3)
  three_writes p1 p2 p3 t1 t2 t3 d n12 n13 n23 ok fine = elim (Bool-cases (write os p1 t1 d).0) [
    | inr bad ↦ let no_way = rw bad at ok in absurd (cc)
    | inl good1 ↦
        let d1 = (write os p1 t1 d).1 in
        elim (Bool-cases (write os p2 t2 d1).0) [
          | inr bad ↦ let no_way = rw (good1, bad) at ok in absurd (cc)
          | inl good2 ↦
              let d2 = (write os p2 t2 d1).1 in
              let good3 = rw (good1, good2) at ok in
              let fine3 = rw (good1, good2) at fine in
              let fine2 = write_error p3 t3 d2 fine3 in
              let fine1 = write_error p2 t2 d1 fine2 in
              rw (good1, good2)
                (
                  write_other p3 t3 p1 d2 n13
                      ∙ write_other p2 t2 p1 d1 n12
                      ∙ content-write p1 t1 d good1 fine1,
                  write_other p3 t3 p2 d2 n23 ∙ content-write p2 t2 d1 good2 fine2,
                  content-write p3 t3 d2 good3 fine3,
                )
        ]
  ]

  -- A file of a short directory has its full name.
  file_path :
      (dir name : List ℕ)
      → length dir < 499
      → length name ≤ 13
      → path_of (dir ++ name) ≡ dir ++ name
  file_path dir name h k = path_of_short (dir ++ name) (omega (arith, length-append dir name))

  write_files-content :
      (dir workload_path : List ℕ) (r : SimulationResult) (d : Disk)
      → length dir < 499
      → Apart (dir ++ metrics_name) (dir ++ timeline_name)
      → Apart (dir ++ metrics_name) (dir ++ summary_name)
      → Apart (dir ++ timeline_name) (dir ++ summary_name)
      → (write_files os dir workload_path r d).0 ≡ true
      → error (write_files os dir workload_path r d).1 ≡ false
      → let d' = (write_files os dir workload_path r d).1 in
        (content (dir ++ metrics_name) d' ≡ some (metrics_csv fixed r))
        × (content (dir ++ timeline_name) d' ≡ some (timeline_csv r.timeline))
        × (content (dir ++ summary_name) d' ≡ some (summary fixed workload_path r))
  unfolding write_files write_metrics_csv_file write_timeline_csv_file write_summary_file
  write_files-content dir workload_path r d short n12 n13 n23 =
      rw
        (
          file_path dir metrics_name short (omega arith),
          file_path dir timeline_name short (omega arith),
          file_path dir summary_name short (omega arith),
        )
        (three_writes (dir ++ metrics_name) (dir ++ timeline_name) (dir ++ summary_name)
          (metrics_csv fixed r) (timeline_csv r.timeline) (summary fixed workload_path r) d n12 n13
          n23)

  -- If the name of the directory of a result is shorter than 499 characters, no two of its three files
  -- are the same by links, write_result_files returns 0, and no call of fprintf or fclose has
  -- reported an error, which the code does not look at: then metrics.csv, timeline.csv and summary.txt in
  -- that directory hold the metrics, the timeline and the summary of the result.
  pub write_result_files-content :
      (base_dir workload_path : List ℕ) (r : SimulationResult) (d : Disk)
      → length (base_dir ++ 47 ∷ algorithm_kind_name r.metrics.algorithm) < 499
      → (let dir = base_dir ++ 47 ∷ algorithm_kind_name r.metrics.algorithm in
          Apart (dir ++ codes "/metrics.csv") (dir ++ codes "/timeline.csv")
          × Apart (dir ++ codes "/metrics.csv") (dir ++ codes "/summary.txt")
          × Apart (dir ++ codes "/timeline.csv") (dir ++ codes "/summary.txt"))
      → (write_result_files os base_dir workload_path r d).0 ≡ true
      → error (write_result_files os base_dir workload_path r d).1 ≡ false
      → let dir = base_dir ++ 47 ∷ algorithm_kind_name r.metrics.algorithm in
        let d' = (write_result_files os base_dir workload_path r d).1 in
        (content (dir ++ codes "/metrics.csv") d' ≡ some (metrics_csv fixed r))
        × (content (dir ++ codes "/timeline.csv") d' ≡ some (timeline_csv r.timeline))
        × (content (dir ++ codes "/summary.txt") d' ≡ some (summary fixed workload_path r))
  unfolding write_result_files
  write_result_files-content base_dir workload_path r d short far ok fine =
      rw (path_of_short dir (omega arith)) (
        after (ensure_output_dir os dir d) (rw (path_of_short dir (omega arith)) at ok)
          (rw (path_of_short dir (omega arith)) at fine))
    where
      dir : List ℕ
      dir = base_dir ++ 47 ∷ algorithm_kind_name r.metrics.algorithm

      after :
          (made : Bool × Disk)
          → (and_then os made (write_files os dir workload_path r)).0 ≡ true
          → error (and_then os made (write_files os dir workload_path r)).1 ≡ false
          → let d' = (and_then os made (write_files os dir workload_path r)).1 in
            (content (dir ++ metrics_name) d' ≡ some (metrics_csv fixed r))
            × (content (dir ++ timeline_name) d' ≡ some (timeline_csv r.timeline))
            × (content (dir ++ summary_name) d' ≡ some (summary fixed workload_path r))
      after (true, d1) good fine =
          let (n12, n13, n23) = far in
          write_files-content dir workload_path r d1 short n12 n13 n23 good fine
      after (false, d1) bad fine = absurd (cc)
