-- ===== src/Kernel/Pipe/Flow.antt =====
-- What one write or one read does to the contents of a pipe of kernel/pipe.c.
use g20_os_lab_project.Common.{
  ℕ, zero, suc, ◌+◌, ◌-◌, ◌≡◌, refl, ap, ◌∙◌, sym, subst, ◌&&◌, ◌||◌, not, if◌then◌else◌, Bool,
  true, false, Option, none, some, List, [], ◌∷◌, ◌++◌, length, length-append, append_assoc,
  append-nil, arith, Bool-cases, inl, inr,
}
use g20_os_lab_project.Kernel.Sched.{killed}
use g20_os_lab_project.Kernel.Pipe.{
  Pipe, Piped, pipesize, is_full, is_empty, put_byte, take_byte, next_byte, WriteOutcome, wrote,
  write_waits, write_loop, ReadOutcome, read, read_waits, copy_bytes, piperead,
}
use g20_os_lab_project.Kernel.Pipe.Bytes.{
  contents, IsPipe, contents-put_byte, contents-take_byte, contents_empty, length-contents,
  is_full_lem,
}

abbrev pub after_write : WriteOutcome → Piped
after_write (wrote r s) = s
after_write (write_waits s i rest) = s

abbrev pub after_read : ReadOutcome → Piped
after_read (read r chars s) = s
after_read (read_waits s) = s

-- The bytes that piperead puts into the user's memory.
abbrev pub delivered : ReadOutcome → List ℕ
delivered (read r chars s) = chars
delivered (read_waits s) = []

-- The bytes that fit into a room, up to the first that cannot be copied.
abbrev pub fitting : (room : ℕ) → List (Option ℕ) → List ℕ
fitting zero chars = []
fitting (suc room) [] = []
fitting (suc room) (none ∷ chars) = []
fitting (suc room) (some ch ∷ chars) = ch ∷ fitting room chars

-- What a writer puts into the pipe until it returns or sleeps.
abbrev pub written_by : Piped → (me : ℕ) → List (Option ℕ) → List ℕ
written_by s me chars =
    if not s.pipe.readopen || killed (s.kernel.procs me)
    then []
    else fitting (pipesize - length (contents s.pipe)) chars

-- The first bytes of a queue that are copied to the user.
abbrev pub copied : (copy_ok : ℕ → Bool) → (i left : ℕ) → List ℕ → List ℕ
copied copy_ok i zero queue = []
copied copy_ok i (suc left) [] = []
copied copy_ok i (suc left) (ch ∷ queue) =
    let more = copied copy_ok (i + 1) left queue in if copy_ok i then ch ∷ more else []

-- What a reader takes out.
abbrev pub read_by : (copy_ok : ℕ → Bool) → Piped → (n : ℕ) → List ℕ
read_by copy_ok s n =
    if is_empty s.pipe && s.pipe.writeopen then [] else copied copy_ok 0 n (contents s.pipe)

-- A write loop of an open pipe, by a process that is not killed.
write_open :
    (s : Piped) (me i room : ℕ) (chars : List (Option ℕ))
    → IsPipe s.pipe
    → (not s.pipe.readopen || killed (s.kernel.procs me)) ≡ false
    → room + length (contents s.pipe) ≡ pipesize
    → (contents (after_write (write_loop s me i chars)).pipe
        ≡ contents s.pipe ++ fitting room chars)
      × IsPipe (after_write (write_loop s me i chars)).pipe
unfolding write_loop
write_open s me i zero [] v on e = (sym (append-nil (contents s.pipe)), v)
write_open s me i (suc room) [] v on e = (sym (append-nil (contents s.pipe)), v)
write_open s me i zero (none ∷ chars) v on e = elim (Bool-cases (is_full s.pipe)) [
  | inl full ↦ rw (on, full) (sym (append-nil (contents s.pipe)), v)
  | inr more ↦ rw (on, more) (sym (append-nil (contents s.pipe)), v)
]
write_open s me i (suc room) (none ∷ chars) v on e = elim (Bool-cases (is_full s.pipe)) [
  | inl full ↦ rw (on, full) (sym (append-nil (contents s.pipe)), v)
  | inr more ↦ rw (on, more) (sym (append-nil (contents s.pipe)), v)
]
write_open s me i zero (some ch ∷ chars) v on e = elim (Bool-cases (is_full s.pipe)) [
  | inl full ↦ rw (on, full) (sym (append-nil (contents s.pipe)), v)
  | inr more ↦ absurd (no_room more)
]
  where
    no_room : is_full s.pipe ≡ false → ⊥
    no_room more =
        let (longer, v') = contents-put_byte s.pipe ch v more in
        omega (
          arith,
          e,
          v'.room,
          length-contents (put_byte s.pipe ch),
          ap length longer,
          length-append (contents s.pipe) (ch ∷ []),
        )
write_open s me i (suc room) (some ch ∷ chars) v on e = elim (Bool-cases (is_full s.pipe)) [
  | inl full ↦ let all = is_full_lem s.pipe v full in absurd (omega (arith, e, all))
  | inr more ↦
      let (longer, v') = contents-put_byte s.pipe ch v more in
      let (rest, v'') =
        write_open (record s { pipe = put_byte s.pipe ch }) me (i + 1) room chars v'
          (unfold put_byte in on)
          (omega (arith, e, ap length longer, length-append (contents s.pipe) (ch ∷ []))) in
      rw (on, more)
        (
          rest
              ∙ ap (λ (xs : List ℕ). xs ++ fitting room chars) longer
              ∙ append_assoc (contents s.pipe) (ch ∷ []) (fitting room chars),
          v'',
        )
]

write_closed :
    (s : Piped) (me i : ℕ) (chars : List (Option ℕ))
    → (not s.pipe.readopen || killed (s.kernel.procs me)) ≡ true
    → (after_write (write_loop s me i chars)).pipe ≡ s.pipe
unfolding write_loop
write_closed s me i [] off = refl
write_closed s me i (none ∷ chars) off = rw off refl
write_closed s me i (some ch ∷ chars) off = rw off refl

-- A write up to its end or its next sleep appends to the contents what written_by says.
pub contents-write_loop :
    (s : Piped) (me i : ℕ) (chars : List (Option ℕ))
    → IsPipe s.pipe
    → (contents (after_write (write_loop s me i chars)).pipe
        ≡ contents s.pipe ++ written_by s me chars)
      × IsPipe (after_write (write_loop s me i chars)).pipe
contents-write_loop s me i chars v =
    elim (Bool-cases (not s.pipe.readopen || killed (s.kernel.procs me))) [
      | inl off ↦
          let same = write_closed s me i chars off in
          rw off (ap contents same ∙ sym (append-nil (contents s.pipe)), subst IsPipe (sym same) v)
      | inr on ↦ rw on (
          write_open s me i (pipesize - length (contents s.pipe)) chars v on
            (omega (arith, v.room, length-contents s.pipe)))
    ]

copy_bytes_lem :
    (copy_ok : ℕ → Bool) (p : Pipe) (i left : ℕ)
    → IsPipe p
    → let out = copy_bytes copy_ok p i left in
      (out.1 ≡ copied copy_ok i left (contents p))
      × (contents p ≡ copied copy_ok i left (contents p) ++ contents out.2)
      × IsPipe out.2
unfolding copy_bytes
copy_bytes_lem copy_ok p i zero v = (refl, refl, v)
copy_bytes_lem copy_ok p i (suc left) v = elim (Bool-cases (is_empty p)) [
  | inl empty ↦ rw (empty, contents_empty p v empty) (refl, refl, v)
  | inr more ↦
      let (first, v') = contents-take_byte p v more in
      let (got, rest, v'') = copy_bytes_lem copy_ok (take_byte p) (i + 1) left v' in
      elim (Bool-cases (copy_ok i)) [
        | inl good ↦
            rw (more, first, good)
              (
                ap (λ (xs : List ℕ). next_byte p ∷ xs) got,
                ap (λ (xs : List ℕ). next_byte p ∷ xs) rest,
                v'',
              )
        | inr bad ↦ rw (more, first, bad) (refl, sym first, v)
      ]
]

-- A read up to its end or its sleep delivers what read_by says, from the front of the contents.
pub contents-piperead :
    (copy_ok : ℕ → Bool) (s : Piped) (me n : ℕ)
    → IsPipe s.pipe
    → (delivered (piperead copy_ok s me n) ≡ read_by copy_ok s n)
      × (contents s.pipe
          ≡ delivered (piperead copy_ok s me n)
            ++ contents (after_read (piperead copy_ok s me n)).pipe)
      × IsPipe (after_read (piperead copy_ok s me n)).pipe
unfolding piperead
contents-piperead copy_ok s me n v = elim (Bool-cases (is_empty s.pipe && s.pipe.writeopen)) [
  | inr ready ↦
      let (got, rest, v') = copy_bytes_lem copy_ok s.pipe 0 n v in rw ready (got, rw got rest, v')
  | inl waiting ↦ rw waiting (elim (Bool-cases (killed (s.kernel.procs me))) [
    | inl dead ↦ rw dead (refl, refl, v)
    | inr alive ↦ rw alive (refl, refl, v)
  ])
]
