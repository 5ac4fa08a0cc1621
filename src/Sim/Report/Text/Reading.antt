-- ===== src/Sim/Report/Text/Reading.antt =====
-- What a reader of the timeline file of report.c finds in it, by the string functions of the C library
-- as the parser uses them: lines and fields by strtok, numbers by their digits.
use g20_os_lab_project.Common.{
  ℕ, zero, suc, ◌+◌, ◌/◌, ◌%◌, ◌<◌, ◌≡◌, refl, ap, ◌∙◌, sym, ltb, ◌==◌, if◌then◌else◌, List, [],
  ◌∷◌, ◌++◌, ℤ, pos, negsuc, minus_one, Bool, true, false, arith, All, All-append, map,
  append_assoc, append-nil, Bool-cases, inl, inr, ltb→lt, ltb→ge,
}
use g20_os_lab_project.Sim.Text.{is_digit, digits, tokens, tokens_from, add_token}
use g20_os_lab_project.Sim.Simulation.{Timeline}
use g20_os_lab_project.Sim.Report.Text.{
  codes, decimal_from, decimal, join_range, slot_at, cell, cpu_title, timeline_row, timeline_csv,
}

-- What `digits` makes of a printed number is the number.
digits-decimal_from :
    (fuel n : ℕ) (rest : List ℕ) → n < fuel → digits 0 (decimal_from fuel n rest) ≡ digits n rest
unfolding digits decimal_from
digits-decimal_from zero n rest h = absurd (omega arith)
digits-decimal_from (suc fuel) n rest h = elim (Bool-cases (ltb n 10)) [
  | inl small ↦ let lt = ltb→lt n 10 small in rw small (ground arith)
  | inr large ↦
      let ge = ltb→ge n 10 large in
      rw large
        (digits-decimal_from fuel (n / 10) ((48 + n % 10) ∷ rest) (omega arith) ∙ ground arith)
]

pub digits-decimal : (n : ℕ) → digits 0 (decimal n) ≡ n
unfolding decimal
digits-decimal n = digits-decimal_from (suc n) n [] (omega arith) ∙ (unfold digits in refl)

abbrev IsDigit : ℕ → Type 0
IsDigit c = is_digit c ≡ true

decimal_from-IsDigit :
    (fuel n : ℕ) (rest : List ℕ) → All IsDigit rest → All IsDigit (decimal_from fuel n rest)
unfolding decimal_from
decimal_from-IsDigit zero n rest h = h
decimal_from-IsDigit (suc fuel) n rest h = elim (Bool-cases (ltb n 10)) [
  | inl small ↦ let lt = ltb→lt n 10 small in rw small (ground arith, h)
  | inr large ↦
      rw large (decimal_from-IsDigit fuel (n / 10) ((48 + n % 10) ∷ rest) (ground arith, h))
]

decimal-IsDigit : (n : ℕ) → All IsDigit (decimal n)
unfolding decimal
decimal-IsDigit n = decimal_from-IsDigit (suc n) n [] tt

-- A run without delimiters at the start of a text is the first token.
abbrev Free : (ℕ → Bool) → List ℕ → Type 0
Free d run = All (λ (c : ℕ). d c ≡ false) run

tokens_from_run :
    (d : ℕ → Bool) (run : List ℕ) (c : ℕ) (text : List ℕ)
    → Free d run
    → d c ≡ true
    → tokens_from d (run ++ c ∷ text) ≡ (run, tokens d text)
unfolding tokens_from tokens
tokens_from_run d [] c text free stop = rw stop refl
tokens_from_run d (x ∷ run) c text free stop =
    rw (tokens_from_run d run c text free.1 stop, free.0) refl

tokens_run :
    (d : ℕ → Bool) (run : List ℕ) (c : ℕ) (text : List ℕ)
    → Free d run
    → d c ≡ true
    → tokens d (run ++ c ∷ text) ≡ add_token run (tokens d text)
tokens_run d run c text free stop =
    (unfold tokens in
      ap (λ (p : List ℕ × List (List ℕ)). add_token p.0 p.1)
        (tokens_from_run d run c text free stop))

tokens_from_last : (d : ℕ → Bool) (run : List ℕ) → Free d run → tokens_from d run ≡ (run, [])
unfolding tokens_from
tokens_from_last d [] free = refl
tokens_from_last d (x ∷ run) free = rw (tokens_from_last d run free.1, free.0) refl

tokens_last : (d : ℕ → Bool) (run : List ℕ) → Free d run → tokens d run ≡ add_token run []
tokens_last d run free =
    (unfold tokens in
      ap (λ (p : List ℕ × List (List ℕ)). add_token p.0 p.1) (tokens_from_last d run free))

-- The values of `f` at `n` numbers from `i` on.
abbrev pub map_range {ℓ} : {A : Type ℓ} → (ℕ → A) → (i n : ℕ) → List A
map_range f i zero = []
map_range f i (suc n) = f i ∷ map_range f (suc i) n

abbrev pub is_comma : ℕ → Bool
is_comma c = c == 44

abbrev pub is_newline : ℕ → Bool
is_newline c = c == 10

-- A field of the timeline, and what it says.
abbrev body : ℤ → List ℕ
body (pos pid) = 80 ∷ decimal pid
body (negsuc n) = codes "idle"

cell-body : (s : ℤ) → cell s ≡ 44 ∷ body s
unfolding cell
cell-body (pos pid) = refl
cell-body (negsuc n) = refl

All-imp : (P Q : ℕ → Type 0) (xs : List ℕ) → ((c : ℕ) → P c → Q c) → All P xs → All Q xs
All-imp P Q [] h a = tt
All-imp P Q (x ∷ xs) h a = (h x a.0, All-imp P Q xs h a.1)

decimal-Free :
    (d : ℕ → Bool) (n : ℕ) → ((c : ℕ) → is_digit c ≡ true → d c ≡ false) → Free d (decimal n)
decimal-Free d n h = All-imp IsDigit (λ c. d c ≡ false) (decimal n) h (decimal-IsDigit n)

digit_no_comma : (c : ℕ) → is_digit c ≡ true → is_comma c ≡ false
digit_no_comma c h = ground arith

digit_no_newline : (c : ℕ) → is_digit c ≡ true → is_newline c ≡ false
digit_no_newline c h = ground arith

body-comma : (s : ℤ) → Free is_comma (body s)
body-comma (pos pid) = (refl, decimal-Free is_comma pid digit_no_comma)
body-comma (negsuc n) = (refl, (refl, (refl, (refl, tt))))

body-newline : (s : ℤ) → Free is_newline (body s)
body-newline (pos pid) = (refl, decimal-Free is_newline pid digit_no_newline)
body-newline (negsuc n) = (refl, (refl, (refl, (refl, tt))))

fields_cells :
    (f : ℕ → ℤ) (run : List ℕ) (i n : ℕ)
    → Free is_comma run
    → tokens is_comma (run ++ join_range (λ c. cell (f c)) i n)
      ≡ add_token run (map_range (λ c. body (f c)) i n)
unfolding join_range
fields_cells f run i zero free = rw (append-nil run) (tokens_last is_comma run free)
fields_cells f run i (suc n) free = rw (cell-body (f i)) (
    tokens_run is_comma run 44 (body (f i) ++ join_range (λ c. cell (f c)) (suc i) n) free refl
    ∙ ap (add_token run) (
        fields_cells f (body (f i)) (suc i) n (body-comma (f i))
        ∙ kept (f i) (map_range (λ c. body (f c)) (suc i) n)))
  where
    kept : (s : ℤ) (rest : List (List ℕ)) → add_token (body s) rest ≡ body s ∷ rest
    kept (pos pid) rest = refl
    kept (negsuc n) rest = refl

join_range-Free :
    (d : ℕ → Bool) (f : ℕ → List ℕ) (i n : ℕ) → ((j : ℕ) → Free d (f j)) → Free d (join_range f i n)
unfolding join_range
join_range-Free d f i zero h = tt
join_range-Free d f i (suc n) h =
    All-append (λ c. d c ≡ false) (f i) (join_range f (suc i) n) (h i)
      (join_range-Free d f (suc i) n h)

cell-newline : (s : ℤ) → Free is_newline (cell s)
cell-newline s = rw (cell-body s) (refl, body-newline s)

-- A row without its newline.
row_start : Timeline → ℕ → List ℕ
row_start t tick = decimal tick ++ join_range (λ cpu. cell (slot_at t tick cpu)) 0 t.cpu_count

timeline_row-start : (t : Timeline) (tick : ℕ) → timeline_row t tick ≡ row_start t tick ++ 10 ∷ []
unfolding timeline_row row_start
timeline_row-start t tick = sym (
    append_assoc (decimal tick) (join_range (λ cpu. cell (slot_at t tick cpu)) 0 t.cpu_count)
      (10 ∷ []))

row_start-newline : (t : Timeline) (tick : ℕ) → Free is_newline (row_start t tick)
unfolding row_start
row_start-newline t tick =
    All-append (λ c. is_newline c ≡ false) (decimal tick) _
      (decimal-Free is_newline tick digit_no_newline)
      (join_range-Free is_newline (λ cpu. cell (slot_at t tick cpu)) 0 t.cpu_count
        (λ cpu. cell-newline (slot_at t tick cpu)))

-- A printed number is not empty.
decimal_from_some :
    (fuel n : ℕ) (rest : List ℕ)
    → (c : ℕ) × (more : List ℕ) × (decimal_from (suc fuel) n rest ≡ c ∷ more)
unfolding decimal_from
decimal_from_some zero n rest = elim (Bool-cases (ltb n 10)) [
  | inl small ↦ rw small (48 + n, rest, refl)
  | inr large ↦ rw large (48 + n % 10, rest, refl)
]
decimal_from_some (suc fuel) n rest = elim (Bool-cases (ltb n 10)) [
  | inl small ↦ rw small (48 + n, rest, refl)
  | inr large ↦ rw large (decimal_from_some fuel (n / 10) ((48 + n % 10) ∷ rest))
]

decimal_some : (n : ℕ) → (c : ℕ) × (more : List ℕ) × (decimal n ≡ c ∷ more)
unfolding decimal
decimal_some n = decimal_from_some n n []

add_token-decimal :
    (n : ℕ) (more : List ℕ) (rest : List (List ℕ))
    → add_token (decimal n ++ more) rest ≡ (decimal n ++ more) ∷ rest
add_token-decimal n more rest = let (c, cs, e) = decimal_some n in rw e refl

-- The fields of a row.
fields_row :
    (t : Timeline) (tick : ℕ)
    → tokens is_comma (row_start t tick)
      ≡ decimal tick ∷ map_range (λ cpu. body (slot_at t tick cpu)) 0 t.cpu_count
unfolding row_start
fields_row t tick =
    fields_cells (slot_at t tick) (decimal tick) 0 t.cpu_count
      (decimal-Free is_comma tick digit_no_comma)
    ∙ kept (map_range (λ cpu. body (slot_at t tick cpu)) 0 t.cpu_count)
  where
    kept : (rest : List (List ℕ)) → add_token (decimal tick) rest ≡ decimal tick ∷ rest
    kept rest = let (c, cs, e) = decimal_some tick in rw e refl

-- The lines of `n` rows from `i` on.
lines_rows :
    (t : Timeline) (i n : ℕ)
    → tokens is_newline (join_range (timeline_row t) i n) ≡ map_range (row_start t) i n
unfolding join_range
lines_rows t i zero = unfold tokens in refl
lines_rows t i (suc n) =
    ap (λ (row : List ℕ). tokens is_newline (row ++ join_range (timeline_row t) (suc i) n))
      (timeline_row-start t i)
    ∙ ap (tokens is_newline)
        (append_assoc (row_start t i) (10 ∷ []) (join_range (timeline_row t) (suc i) n))
    ∙ tokens_run is_newline (row_start t i) 10 (join_range (timeline_row t) (suc i) n)
        (row_start-newline t i) refl
    ∙ ap (add_token (row_start t i)) (lines_rows t (suc i) n)
    ∙ (unfold row_start in add_token-decimal i _ (map_range (row_start t) (suc i) n))

title : Timeline → List ℕ
title t = codes "tick" ++ join_range cpu_title 0 t.cpu_count

title-newline : (t : Timeline) → Free is_newline (title t)
unfolding title cpu_title
title-newline t =
    All-append (λ c. is_newline c ≡ false) (codes "tick") _ (refl, (refl, (refl, (refl, tt))))
      (join_range-Free is_newline cpu_title 0 t.cpu_count
        (λ cpu. (refl, (refl, (refl, (refl, decimal-Free is_newline cpu digit_no_newline))))))

lines_timeline :
    (t : Timeline)
    → tokens is_newline (timeline_csv t) ≡ title t ∷ map_range (row_start t) 0 t.tick_count
unfolding timeline_csv title
lines_timeline t =
    ap (tokens is_newline) (
      sym (
        append_assoc (codes "tick") (join_range cpu_title 0 t.cpu_count)
          (10 ∷ join_range (timeline_row t) 0 t.tick_count)))
    ∙ tokens_run is_newline (title t) 10 (join_range (timeline_row t) 0 t.tick_count)
        (title-newline t) refl
    ∙ ap (add_token (title t)) (lines_rows t 0 t.tick_count)

-- How a field, a row and a file are read.
abbrev pub read_cell : List ℕ → ℤ
read_cell [] = minus_one
read_cell (c ∷ text) = if c == 80 then pos (digits 0 text) else minus_one

abbrev pub read_fields : List (List ℕ) → ℕ × List ℤ
read_fields [] = (0, [])
read_fields (tick ∷ cells) = (digits 0 tick, map read_cell cells)

abbrev pub read_lines : List (List ℕ) → List (ℕ × List ℤ)
read_lines [] = []
read_lines (title ∷ rows) = map (λ row. read_fields (tokens is_comma row)) rows

abbrev pub read_timeline : List ℕ → List (ℕ × List ℤ)
read_timeline text = read_lines (tokens is_newline text)

-- A slot that is not a pid is idle.
abbrev pub pid_or_idle : ℤ → ℤ
pid_or_idle (pos pid) = pos pid
pid_or_idle (negsuc n) = minus_one

read_cell-body : (s : ℤ) → read_cell (body s) ≡ pid_or_idle s
read_cell-body (pos pid) = ap pos (digits-decimal pid)
read_cell-body (negsuc n) = refl

read_cells :
    (f : ℕ → ℤ) (i n : ℕ)
    → map read_cell (map_range (λ c. body (f c)) i n) ≡ map_range (λ c. pid_or_idle (f c)) i n
read_cells f i zero = refl
read_cells f i (suc n) = rw (read_cell-body (f i), read_cells f (suc i) n) refl

read_rows :
    (t : Timeline) (i n : ℕ)
    → map (λ row. read_fields (tokens is_comma row)) (map_range (row_start t) i n)
      ≡ map_range
          (λ tick. (tick, map_range (λ cpu. pid_or_idle (slot_at t tick cpu)) 0 t.cpu_count))
          i
          n
read_rows t i zero = refl
read_rows t i (suc n) =
    rw
      (
        fields_row t i,
        digits-decimal i,
        read_cells (slot_at t i) 0 t.cpu_count,
        read_rows t (suc i) n,
      )
      refl

-- The file timeline.csv can be read back: after the title, split into lines and these into fields, it
-- has a row for each tick, with the number of the tick and for each CPU the pid in its slot, or -1
-- where the slot is idle.
pub read_timeline-timeline_csv :
    (t : Timeline)
    → read_timeline (timeline_csv t)
      ≡ map_range
          (λ tick. (tick, map_range (λ cpu. pid_or_idle (slot_at t tick cpu)) 0 t.cpu_count))
          0
          t.tick_count
read_timeline-timeline_csv t = ap read_lines (lines_timeline t) ∙ read_rows t 0 t.tick_count
