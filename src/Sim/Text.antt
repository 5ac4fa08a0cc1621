-- ===== src/Sim/Text.antt =====
-- What parser.c of G20_Project2_2 uses of the C library on strings, in the C locale. A character is its
-- code and a string the list of its characters; a text has no NUL.
use g20_os_lab_project.Common.{
  ℕ, zero, suc, ◌+◌, ◌-◌, ◌*◌, ◌^◌, Bool, true, false, leb, ◌==◌, ◌&&◌, ◌||◌, if◌then◌else◌, List,
  [], ◌∷◌, ◌++◌, ℤ, pos, negsuc, to_int32, ◌%◌, min,
}

abbrev pub is_space : ℕ → Bool
is_space c = c == 32 || (leb 9 c && leb c 13)

abbrev pub is_digit : ℕ → Bool
is_digit c = leb 48 c && leb c 57

abbrev pub to_upper : ℕ → ℕ
to_upper c = if leb 97 c && leb c 122 then c - 32 else c

abbrev pub same_text : List ℕ → List ℕ → Bool
same_text [] [] = true
same_text [] (d ∷ ds) = false
same_text (c ∷ cs) [] = false
same_text (c ∷ cs) (d ∷ ds) = c == d && same_text cs ds

-- `strncmp(text, prefix, strlen(prefix)) == 0`
abbrev pub starts_with : List ℕ → List ℕ → Bool
starts_with [] text = true
starts_with (c ∷ prefix) [] = false
starts_with (c ∷ prefix) (d ∷ text) = c == d && starts_with prefix text

-- The token that is being read is put before the others, unless it is empty.
abbrev pub add_token : List ℕ → List (List ℕ) → List (List ℕ)
add_token [] rest = rest
add_token (c ∷ cs) rest = (c ∷ cs) ∷ rest

-- All that strtok_r gives on a text: the longest runs without delimiters. The first part of the pair is
-- the run that the text starts with.
unfoldable pub tokens_from : (ℕ → Bool) → List ℕ → List ℕ × List (List ℕ)
tokens_from is_delimiter [] = ([], [])
tokens_from is_delimiter (c ∷ text) =
    let (run, rest) = tokens_from is_delimiter text in
    if is_delimiter c then ([], add_token run rest) else (c ∷ run, rest)

unfoldable pub tokens : (ℕ → Bool) → List ℕ → List (List ℕ)
unfolding tokens_from
tokens is_delimiter text = let (run, rest) = tokens_from is_delimiter text in add_token run rest

-- The digits that a text starts with, after a number.
unfoldable pub digits : ℕ → List ℕ → ℕ
digits value [] = value
digits value (c ∷ text) =
    let rest = digits (value * 10 + (c - 48)) text in if is_digit c then rest else value

-- LONG_MAX, and the least long by its sign.
abbrev pub signed : Bool → ℕ → ℤ
signed true zero = pos 0
signed true (suc n) = negsuc (min n (2 ^ 63 - 1))
signed false n = pos (min n (2 ^ 63 - 1))

unfoldable pub sign_and_digits : List ℕ → ℤ
unfolding digits
sign_and_digits [] = pos 0
sign_and_digits (c ∷ text) =
    if c == 45
    then signed true (digits 0 text)
    else if c == 43
    then signed false (digits 0 text)
    else signed false (digits 0 (c ∷ text))

-- `strtol(text, NULL, 10)` of a 64-bit long.
unfoldable pub strtol : List ℕ → ℤ
unfolding sign_and_digits
strtol [] = pos 0
strtol (c ∷ text) =
    let rest = strtol text in if is_space c then rest else sign_and_digits (c ∷ text)

-- `(int)x` of a long.
unfoldable pub narrow : ℤ → ℤ
narrow (pos n) = to_int32 n
narrow (negsuc n) = to_int32 (2 ^ 32 - suc n % 2 ^ 32)

-- What fgets with room for `room` characters reads, call after call: a line with its newline, or as
-- much of it as fits. `current` was read in this call, and `left` characters still fit.
unfoldable pub fgets_from : (room left : ℕ) → (current : List ℕ) → List ℕ → List (List ℕ)
fgets_from room left current [] = add_token current []
fgets_from room left current (c ∷ text) =
    let over = c == 10 || leb left 1 in
    let line = current ++ c ∷ [] in
    let rest = fgets_from room (if over then room else left - 1) (if over then [] else line) text in
    if over then line ∷ rest else rest

-- All lines of a file, by `fgets(line, size, file)`.
unfoldable pub fgets_lines : ℕ → List ℕ → List (List ℕ)
unfolding fgets_from
fgets_lines size text = fgets_from (size - 1) (size - 1) [] text
