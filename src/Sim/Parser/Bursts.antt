-- ===== src/Sim/Parser/Bursts.antt =====
-- What parse_bursts of parser.c accepts, against the text.
use g20_os_lab_project.Common.{
  ℕ, zero, suc, ◌+◌, ◌≤◌, ◌<◌, ◌≡◌, refl, ap, subst, ◌∙◌, true, leb, ◌==◌, if◌then◌else◌, update,
  update_self, update_ne, Option, none, some, List, [], ◌∷◌, pos, ◌<ℤ◌, length, arith, Bool-cases,
  inl, inr, sym,
}
use native.Mathlib.Decide.{ℕ_discrete}
use g20_os_lab_project.Sim.Types.{BurstType, cpu, max_bursts, io}
use g20_os_lab_project.Sim.Text.{strtol, narrow, tokens, to_upper}
use g20_os_lab_project.Sim.Parser.{
  trim, ParsedBurst, other_type, burst_ok, tail, bursts_from, no_bursts, some_bursts, then_some,
  parse_bursts, first, letter,
}

-- CPU and I/O bursts take turns, from a CPU burst on.
abbrev pub turn : ℕ → BurstType
turn zero = cpu
turn (suc n) = other_type (turn n)

-- The entry `j` of a list of texts.
abbrev pub nth : List (List ℕ) → ℕ → List ℕ
nth [] j = []
nth (text ∷ more) zero = text
nth (text ∷ more) (suc j) = nth more j

-- The burst `j` of a process, from its text: the letter of the kind whose turn it is, in either case,
-- and then a positive number, of which an `int` is made.
pub record IsBurst (text : List ℕ) (j : ℕ) (b : ParsedBurst) : Type 0 where
  pub named : to_upper (first (trim text)) ≡ letter (turn j)
  pub turns : b.type ≡ turn j
  pub positive : pos 0 <ℤ strtol (tail (trim text))
  pub duration : b.duration ≡ narrow (strtol (tail (trim text)))

-- One burst for each text between the colons, at most 32.
abbrev pub AreBursts : (text : List ℕ) → (ℕ → ParsedBurst) × ℕ → Type 0
AreBursts text (bursts, n) =
    (n ≡ length (tokens (λ c. c == 58) text))
    × (n ≤ max_bursts)
    × ((j : ℕ) → j < n → IsBurst (nth (tokens (λ c. c == 58) text) j) j (bursts j))

pub some_injective : {A : Type 0} (a b : A) → some a ≡ some b → a ≡ b
some_injective a b h = ap (λ o. elim o [ none ↦ a | some x ↦ x ]) h

next_turn : (n : ℕ) → other_type (turn n) ≡ turn (n + 1)
next_turn n = ap turn suc_is
  where
    suc_is : suc n ≡ n + 1
    suc_is = omega arith

burst_ok_sound :
    (expected : BurstType) (n : ℕ) (text : List ℕ)
    → burst_ok expected n text ≡ true
    → (n < max_bursts) × (pos 0 <ℤ strtol (tail text)) × (to_upper (first text) ≡ letter expected)
unfolding burst_ok
burst_ok_sound expected n [] h = absurd (ground (arith, h))
burst_ok_sound expected n (c ∷ []) h = absurd (ground (arith, h))
burst_ok_sound expected n (c ∷ d ∷ text) h =
    (ground (arith, h), ground (arith, h), ground (arith, h))

type_of_letter :
    (expected : BurstType) (c : ℕ)
    → c ≡ letter expected
    → (if c == letter cpu then cpu else io) ≡ expected
type_of_letter cpu c e = rw e refl
type_of_letter io c e = rw e refl

-- The bursts of the first `n` of some texts.
abbrev Read : (texts : List (List ℕ)) → (ℕ → ParsedBurst) × ℕ → Type 0
Read texts (bursts, n) = (n ≤ max_bursts) × ((j : ℕ) → j < n → IsBurst (nth texts j) j (bursts j))

bursts_from-Read :
    (texts rest : List (List ℕ)) (bursts : ℕ → ParsedBurst) (n : ℕ) (r : (ℕ → ParsedBurst) × ℕ)
    → ((j : ℕ) → nth texts (j + n) ≡ nth rest j)
    → length texts ≡ length rest + n
    → Read texts (bursts, n)
    → (expected : BurstType) → expected ≡ turn n
    → bursts_from rest expected bursts n ≡ some r
    → (r.1 ≡ length texts) × Read texts r
unfolding bursts_from
bursts_from-Read texts [] bursts n r suffix len valid expected same_turn e =
    subst (λ (x : (ℕ → ParsedBurst) × ℕ). (x.1 ≡ length texts) × Read texts x)
      (some_injective (bursts, n) r e) (omega (arith, len), valid)
bursts_from-Read texts (token ∷ more) bursts n r suffix len (few, valid) expected same_turn e =
    elim (Bool-cases (burst_ok expected n (trim token))) [
      | inr bad ↦ absurd (ground (arith, rw bad at e))
      | inl good ↦
          let (room, long, named) = burst_ok_sound expected n (trim token) good in
          bursts_from-Read texts more (update bursts n (made token)) (n + 1) r
            (λ j. ap (nth texts) (omega arith) ∙ suffix (suc j)) (omega (arith, len))
            (
              omega arith,
              λ j h. elim (ℕ_discrete j n) [
                | yes same ↦
                    rw (same, update_self bursts n (made token))
                      (subst (λ (text : List ℕ). IsBurst text n (made token))
                        (sym (ap (nth texts) (omega arith) ∙ suffix 0))
                        (record {
                          named = named ∙ ap letter same_turn;
                          turns = type_of_letter expected _ named ∙ same_turn;
                          positive = long;
                          duration = refl;
                        }))
                | no ne ↦ rw (update_ne bursts n j (made token) ne) (valid j (omega arith))
              ],
            )
            (other_type expected) (ap other_type same_turn ∙ next_turn n) (rw good at e)
    ]
  where
    made : List ℕ → ParsedBurst
    made t = record {
      type = if to_upper (first (trim t)) == letter cpu then cpu else io;
      duration = narrow (strtol (tail (trim t)));
    }

-- A text that parse_bursts accepts has 1 to 32 bursts that take turns, CPU first, each with a
-- duration made from a positive number.
pub parse_bursts-AreBursts :
    (text : List ℕ) (r : (ℕ → ParsedBurst) × ℕ)
    → parse_bursts text ≡ some r
    → (0 < r.1) × AreBursts text r
unfolding parse_bursts
parse_bursts-AreBursts text r e = elim (Bool-cases (leb 512 (length text))) [
  | inl long ↦ absurd (ground (arith, rw long at e))
  | inr fits ↦ ended (bursts_from (tokens (λ c. c == 58) text) cpu no_bursts 0) refl (rw fits at e)
]
  where
    ended :
        (o : Option ((ℕ → ParsedBurst) × ℕ))
        → bursts_from (tokens (λ c. c == 58) text) cpu no_bursts 0 ≡ o
        → then_some o some_bursts ≡ some r
        → (0 < r.1) × AreBursts text r
    ended none found h = absurd (ground (arith, h))
    ended (some (bursts, zero)) found h = absurd (ground (arith, h))
    ended (some (bursts, suc n)) found h =
        let (len, read) =
          bursts_from-Read (tokens (λ c. c == 58) text) (tokens (λ c. c == 58) text) no_bursts 0
            (bursts, suc n) (λ j. ap (nth (tokens (λ c. c == 58) text)) (omega arith)) (omega arith)
            (omega arith, λ j p. absurd (omega arith)) cpu refl found in
        let (few, valid) = read in
        subst (λ x. (0 < x.1) × AreBursts text x) (some_injective (bursts, suc n) r h)
          (omega arith, (len, few, valid))
