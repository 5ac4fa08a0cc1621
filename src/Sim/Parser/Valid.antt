-- ===== src/Sim/Parser/Valid.antt =====
-- What parser.c guarantees of a workload that it accepts.
use g20_os_lab_project.Common.{
  ℕ, zero, suc, ◌+◌, ◌≤◌, ◌<◌, ◌≡◌, refl, ap, ap₂, ==→eq, subst, ◌∙◌, true, not, leb, ◌==◌, ◌||◌,
  if◌then◌else◌, update, update_self, update_ne, Option, none, some, List, [], ◌∷◌, ℤ, pos, ltb_ℤ,
  ◌<ℤ◌, ◌≤ℤ◌, length, arith, Bool-cases, inl, inr, ◌↔◌, sym, ◌⊎◌,
}
use native.Mathlib.Decide.{ℕ_discrete}
use g20_os_lab_project.Sim.Types.{AlgorithmKind, mlfq, lottery, edf, custom, all}
use g20_os_lab_project.Sim.ReadyQueue.{max_processes}
use g20_os_lab_project.Sim.Text.{tokens, fgets_lines, same_text}
use g20_os_lab_project.Sim.Parser.{
  trim, ParsedSpec, then_some, parse_bursts, number, parse_fields, parse_line, lines_from,
  skip_header, no_processes, some_processes, parse_workload, algorithm_kind_name,
  parse_algorithm_kind,
}
use g20_os_lab_project.Sim.Parser.Bursts.{nth, some_injective, AreBursts, parse_bursts-AreBursts}

-- A process that the parser accepts, from the fields of its line.
pub record IsSpec (fields : List (List ℕ)) (p : ParsedSpec) : Type 0 where
  pub complete : 7 ≤ length fields
  pub pid : (p.pid ≡ number (nth fields 0)) × (pos 0 <ℤ p.pid)
  pub arrival : (p.arrival ≡ number (nth fields 1)) × (pos 0 ≤ℤ p.arrival)
  pub base_priority : p.base_priority ≡ number (nth fields 3)
  pub tickets :
      (pos 0 <ℤ p.tickets)
      × ((p.tickets ≡ number (nth fields 4))
          ⊎ ((number (nth fields 4) ≤ℤ pos 0) × (p.tickets ≡ pos 1)))
  pub deadline : p.deadline ≡ number (nth fields 5)
  pub affinity : p.affinity ≡ number (nth fields 6)
  pub some_burst : 0 < p.burst_count
  pub bursts : AreBursts (trim (nth fields 2)) (p.bursts, p.burst_count)

-- A chain of results that ends with a result has one at its first step.
pub chained :
    {A B : Type 0} (o : Option A) (f : A → Option B) (b : B)
    → then_some o f ≡ some b
    → (a : A) × (o ≡ some a) × (f a ≡ some b)
chained none f b h = absurd (ground (arith, h))
chained (some a) f b h = (a, refl, h)

parse_fields-IsSpec :
    (f0 f1 f2 f3 f4 f5 f6 : List ℕ) (more : List (List ℕ)) (p : ParsedSpec)
    → parse_fields f0 f1 f2 f3 f4 f5 f6 ≡ some p
    → IsSpec (f0 ∷ f1 ∷ f2 ∷ f3 ∷ f4 ∷ f5 ∷ f6 ∷ more) p
unfolding parse_fields
parse_fields-IsSpec f0 f1 f2 f3 f4 f5 f6 more p e =
    elim (Bool-cases (not (ltb_ℤ (pos 0) (number f0)) || ltb_ℤ (number f1) (pos 0))) [
      | inl bad ↦ absurd (ground (arith, rw bad at e))
      | inr good ↦
          let (parsed, found, made) = chained (parse_bursts (trim f2)) _ p (rw good at e) in
          let (some_burst, bursts) = parse_bursts-AreBursts (trim f2) parsed found in
          subst (IsSpec (f0 ∷ f1 ∷ f2 ∷ f3 ∷ f4 ∷ f5 ∷ f6 ∷ more)) (some_injective _ p made)
            (record {
              complete = omega arith;
              pid = (refl, ground (arith, good));
              arrival = (refl, ground (arith, good));
              base_priority = refl;
              tickets = (enough (number f4), which (number f4));
              deadline = refl;
              affinity = refl;
              some_burst = some_burst;
              bursts = bursts;
            })
    ]
  where
    enough : (n : ℤ) → pos 0 <ℤ (if ltb_ℤ (pos 0) n then n else pos 1)
    enough n = ground arith

    which :
        (n : ℤ)
        → ((if ltb_ℤ (pos 0) n then n else pos 1) ≡ n)
          ⊎ ((n ≤ℤ pos 0) × ((if ltb_ℤ (pos 0) n then n else pos 1) ≡ pos 1))
    which n = elim (Bool-cases (ltb_ℤ (pos 0) n)) [
      | inl some_tickets ↦ rw some_tickets (inl refl)
      | inr too_few ↦ rw too_few (inr (ground (arith, too_few), refl))
    ]

parse_line-IsSpec :
    (texts : List (List ℕ)) (p : ParsedSpec) → parse_line texts ≡ some p → IsSpec texts p
unfolding parse_line
parse_line-IsSpec (f0 ∷ f1 ∷ f2 ∷ f3 ∷ f4 ∷ f5 ∷ f6 ∷ more) p e =
    parse_fields-IsSpec f0 f1 f2 f3 f4 f5 f6 more p e
parse_line-IsSpec [] p e = absurd (ground (arith, e))
parse_line-IsSpec (a ∷ []) p e = absurd (ground (arith, e))
parse_line-IsSpec (a ∷ b ∷ []) p e = absurd (ground (arith, e))
parse_line-IsSpec (a ∷ b ∷ c ∷ []) p e = absurd (ground (arith, e))
parse_line-IsSpec (a ∷ b ∷ c ∷ d ∷ []) p e = absurd (ground (arith, e))
parse_line-IsSpec (a ∷ b ∷ c ∷ d ∷ f ∷ []) p e = absurd (ground (arith, e))
parse_line-IsSpec (a ∷ b ∷ c ∷ d ∷ f ∷ g ∷ []) p e = absurd (ground (arith, e))

-- One process for each line, at most 128.
abbrev pub AreSpecs : (lines : List (List ℕ)) → (ℕ → ParsedSpec) × ℕ → Type 0
AreSpecs lines (processes, n) =
    (n ≤ max_processes)
    × ((j : ℕ) → j < n → IsSpec (tokens (λ c. c == 44 || c == 10) (nth lines j)) (processes j))

lines_from-AreSpecs :
    (lines rest : List (List ℕ)) (processes : ℕ → ParsedSpec) (n : ℕ) (r : (ℕ → ParsedSpec) × ℕ)
    → ((j : ℕ) → nth lines (j + n) ≡ nth rest j)
    → length lines ≡ length rest + n
    → AreSpecs lines (processes, n)
    → lines_from rest processes n ≡ some r
    → (r.1 ≡ length lines) × AreSpecs lines r
unfolding lines_from
lines_from-AreSpecs lines [] processes n r suffix len valid e =
    subst (λ (x : (ℕ → ParsedSpec) × ℕ). (x.1 ≡ length lines) × AreSpecs lines x)
      (some_injective (processes, n) r e) (omega (arith, len), valid)
lines_from-AreSpecs lines (line ∷ more) processes n r suffix len (few, valid) e =
    elim (Bool-cases (leb max_processes n)) [
      | inl full ↦ absurd (ground (arith, rw full at e))
      | inr room ↦
          let (spec, found, rest) =
            chained (parse_line (tokens (λ c. c == 44 || c == 10) line)) _ r (rw room at e) in
          lines_from-AreSpecs lines more (update processes n spec) (n + 1) r
            (λ j. ap (nth lines) (omega arith) ∙ suffix (suc j)) (omega (arith, len))
            (
              ground (arith, room),
              λ j h. elim (ℕ_discrete j n) [
                | yes same ↦
                    rw (same, update_self processes n spec)
                      (subst
                        (λ (text : List ℕ). IsSpec (tokens (λ c. c == 44 || c == 10) text) spec)
                        (sym (ap (nth lines) (omega arith) ∙ suffix 0))
                        (parse_line-IsSpec _ spec found))
                | no ne ↦ rw (update_ne processes n j spec ne) (valid j (omega arith))
              ],
            )
            rest
    ]

-- A workload that the parser accepts has as many processes as the file has lines after a header that
-- starts with "pid,", 1 to 128, in the order of the lines. Each line has at least seven fields; the
-- process has their numbers as `int`s, with one ticket where the field says none. Its pid is positive
-- and its arrival not negative. Its bursts are those of the third field, one for each text between the
-- colons, 1 to 32: each text starts with the letter C or I, in turn from a C on, in either case, and
-- goes on with a positive number; the burst has the kind of the letter and that number as an `int`.
pub parse_workload-AreSpecs :
    (text : List ℕ) (r : (ℕ → ParsedSpec) × ℕ)
    → parse_workload (some text) ≡ some r
    → (0 < r.1)
      × (r.1 ≡ length (skip_header (fgets_lines 1024 text)))
      × AreSpecs (skip_header (fgets_lines 1024 text)) r
unfolding parse_workload
parse_workload-AreSpecs text r e =
    let ((processes, n), found, rest) =
      chained (lines_from lines no_processes 0) some_processes r e in
    let (len, valid) =
      lines_from-AreSpecs lines lines no_processes 0 (processes, n)
        (λ j. ap (nth lines) (omega arith)) (omega arith) (omega arith, λ j h. absurd (omega arith))
        found in
    ended processes n rest len valid
  where
    lines : List (List ℕ)
    lines = skip_header (fgets_lines 1024 text)

    ended :
        (processes : ℕ → ParsedSpec) (n : ℕ)
        → some_processes (processes, n) ≡ some r
        → n ≡ length lines
        → AreSpecs lines (processes, n)
        → (0 < r.1) × (r.1 ≡ length lines) × AreSpecs lines r
    ended processes zero h len valid = absurd (ground (arith, h))
    ended processes (suc n) h len valid =
        subst (λ (x : (ℕ → ParsedSpec) × ℕ). (0 < x.1) × (x.1 ≡ length lines) × AreSpecs lines x)
          (some_injective (processes, suc n) r h) (omega arith, len, valid)

same_text_sound : (a b : List ℕ) → same_text a b ≡ true → a ≡ b
same_text_sound [] [] h = refl
same_text_sound [] (d ∷ b) h = absurd (ground (arith, h))
same_text_sound (c ∷ a) [] h = absurd (ground (arith, h))
same_text_sound (c ∷ a) (d ∷ b) h =
    ap₂ ◌∷◌ (==→eq c d (ground (arith, h))) (same_text_sound a b (ground (arith, h)))

named :
    (value : List ℕ) (kind : AlgorithmKind)
    → parse_algorithm_kind value ≡ some kind
    → value ≡ algorithm_kind_name kind
unfolding parse_algorithm_kind algorithm_kind_name
named value kind e = elim (Bool-cases (same_text value (algorithm_kind_name mlfq))) [
  | inl h ↦ hit mlfq h (rw h at e)
  | inr a ↦ elim (Bool-cases (same_text value (algorithm_kind_name lottery))) [
    | inl h ↦ hit lottery h (rw (a, h) at e)
    | inr b ↦ elim (Bool-cases (same_text value (algorithm_kind_name edf))) [
      | inl h ↦ hit edf h (rw (a, b, h) at e)
      | inr c ↦ elim (Bool-cases (same_text value (algorithm_kind_name custom))) [
        | inl h ↦ hit custom h (rw (a, b, c, h) at e)
        | inr d ↦ elim (Bool-cases (same_text value (algorithm_kind_name all))) [
          | inl h ↦ hit all h (rw (a, b, c, d, h) at e)
          | inr f ↦ absurd (ground (arith, rw (a, b, c, d, f) at e))
        ]
      ]
    ]
  ]
]
  where
    hit :
        (k : AlgorithmKind)
        → same_text value (algorithm_kind_name k) ≡ true
        → some k ≡ some kind
        → value ≡ algorithm_kind_name kind
    hit k h same =
        same_text_sound value (algorithm_kind_name k) h
        ∙ ap algorithm_kind_name (some_injective k kind same)

read_back : (k : AlgorithmKind) → parse_algorithm_kind (algorithm_kind_name k) ≡ some k
unfolding parse_algorithm_kind algorithm_kind_name
read_back mlfq = refl
read_back lottery = refl
read_back edf = refl
read_back custom = refl
read_back all = refl

-- parse_algorithm_kind reads the name that algorithm_kind_name gives to an algorithm as that
-- algorithm, and no other text.
pub parse_algorithm_kind-algorithm_kind_name :
    (value : List ℕ) (kind : AlgorithmKind)
    → (parse_algorithm_kind value ≡ some kind) ↔ (value ≡ algorithm_kind_name kind)
parse_algorithm_kind-algorithm_kind_name value kind =
    (named value kind, λ e. ap parse_algorithm_kind e ∙ read_back kind)
