-- ===== src/Sim/Report/Files/Directories.antt =====
-- What ensure_output_dir of report.c makes.
use g20_os_lab_project.Common.{
  ℕ, ◌<◌, ◌≡◌, ap, ◌∙◌, ltb, ◌==◌, List, [], ◌∷◌, ◌++◌, Bool, true, arith, append_assoc, append-nil,
  Bool-cases, inl, inr, length, ltb→lt, subst,
}
use g20_os_lab_project.Sim.Args.{max_path_len}
use g20_os_lab_project.Sim.Report.Files.{
  Os, made_ok, mkdir_if_needed, make_dirs, make_path, ensure_output_dir,
}

-- What the code relies on: what mkdir made or found is there afterwards, and mkdir removes nothing.
pub record MkdirLaws (os : Os) (there : List ℕ → os.Disk → Bool) : Type 0 where
  pub mkdir_there :
      (path : List ℕ) (d : os.Disk)
      → made_ok (os.mkdir path d).0 ≡ true
      → there path (os.mkdir path d).1 ≡ true
  pub mkdir_keeps :
      (path other : List ℕ) (d : os.Disk)
      → there other d ≡ true
      → there other (os.mkdir path d).1 ≡ true

module _ (os : Os) (there : List ℕ → os.Disk → Bool) (laws : MkdirLaws os there) where
  open os use {Disk, mkdir}

  make_dirs-keeps :
      (seen rest other : List ℕ) (d : Disk)
      → there other d ≡ true
      → there other (make_dirs os seen rest d).1 ≡ true
  unfolding make_dirs mkdir_if_needed
  make_dirs-keeps seen [] other d h = laws.mkdir_keeps seen other d h
  make_dirs-keeps seen (c ∷ rest) other d h = elim (Bool-cases (c == 47)) [
    | inr plain ↦ rw plain (make_dirs-keeps (seen ++ c ∷ []) rest other d h)
    | inl slash ↦ rw slash (elim (Bool-cases (made_ok (mkdir seen d).0)) [
      | inl good ↦ rw good (
          make_dirs-keeps (seen ++ c ∷ []) rest other (mkdir seen d).1
            (laws.mkdir_keeps seen other d h))
      | inr bad ↦ rw bad (laws.mkdir_keeps seen other d h)
    ])
  ]

  -- The directories of a path: the path itself, and what stands before a slash after the text `seen`.
  record AllThere (seen rest : List ℕ) (d : Disk) : Type 0 where
    whole : there (seen ++ rest) d ≡ true
    before : (front back : List ℕ) → rest ≡ front ++ 47 ∷ back → there (seen ++ front) d ≡ true

  step_there :
      (seen : List ℕ) (c : ℕ) (rest : List ℕ) (d : Disk)
      → AllThere (seen ++ c ∷ []) rest d
      → ((c ≡ 47) → there seen d ≡ true)
      → AllThere seen (c ∷ rest) d
  step_there seen c rest d all here = record {
    whole =
        subst (λ (path : List ℕ). there path d ≡ true) (append_assoc seen (c ∷ []) rest) all.whole;
    before = cases;
  }
    where
      cases : (front back : List ℕ) → c ∷ rest ≡ front ++ 47 ∷ back → there (seen ++ front) d ≡ true
      cases [] back e = rw (append-nil seen) (here (cc))
      cases (x ∷ front) back e =
          subst (λ (path : List ℕ). there path d ≡ true)
            (append_assoc seen (c ∷ []) front ∙ ap (λ (y : ℕ). seen ++ y ∷ front) (cc))
            (all.before front back (cc))

  make_dirs_there :
      (seen rest : List ℕ) (d : Disk)
      → (make_dirs os seen rest d).0 ≡ true
      → AllThere seen rest (make_dirs os seen rest d).1
  unfolding make_dirs mkdir_if_needed
  make_dirs_there seen [] d ok = record {
    whole = rw (append-nil seen) (laws.mkdir_there seen d ok);
    before = none_left;
  }
    where
      none_left :
          (front back : List ℕ)
          → [] ≡ front ++ 47 ∷ back
          → there (seen ++ front) (mkdir seen d).1 ≡ true
      none_left [] back e = absurd (cc)
      none_left (x ∷ front) back e = absurd (cc)
  make_dirs_there seen (c ∷ rest) d ok = elim (Bool-cases (c == 47)) [
    | inr plain ↦ rw plain (
        step_there seen c rest _ (make_dirs_there (seen ++ c ∷ []) rest d (rw plain at ok))
          (λ e. ground (arith, plain)))
    | inl slash ↦ elim (Bool-cases (made_ok (mkdir seen d).0)) [
      | inl good ↦
          rw (slash, good)
            (step_there seen c rest _
              (make_dirs_there (seen ++ c ∷ []) rest (mkdir seen d).1 (rw (slash, good) at ok))
              (λ e.
                make_dirs-keeps (seen ++ c ∷ []) rest seen (mkdir seen d).1
                  (laws.mkdir_there seen d good)))
      | inr bad ↦ let no_way = rw (slash, bad) at ok in absurd (cc)
    ]
  ]

  -- Where ensure_output_dir succeeds on a path that is not empty, the path is there afterwards, and so
  -- is every directory on the way to it: each beginning of the path that ends before a slash. The
  -- path is shorter than 512 characters. What was there before still is, also where it fails.
  pub ensure_output_dir-there :
      (path : List ℕ) (c : ℕ) (rest : List ℕ) (d : Disk)
      → path ≡ c ∷ rest
      → ((ensure_output_dir os path d).0 ≡ true
          → (length path < max_path_len)
            × (there path (ensure_output_dir os path d).1 ≡ true)
            × ((front back : List ℕ)
                → rest ≡ front ++ 47 ∷ back
                → there (c ∷ front) (ensure_output_dir os path d).1 ≡ true))
        × ((other : List ℕ)
            → there other d ≡ true
            → there other (ensure_output_dir os path d).1 ≡ true)
  unfolding ensure_output_dir make_path
  ensure_output_dir-there path c rest d e = elim (Bool-cases (ltb (length path) max_path_len)) [
    | inl fits ↦
        rw (fits, e)
          (
            λ ok.
                let all = make_dirs_there (c ∷ []) rest d ok in
                (ltb→lt (length (c ∷ rest)) max_path_len (rw e at fits), all.whole, all.before),
            λ other h. make_dirs-keeps (c ∷ []) rest other d h,
          )
    | inr long ↦ rw long (λ ok. absurd (cc), λ other h. h)
  ]
