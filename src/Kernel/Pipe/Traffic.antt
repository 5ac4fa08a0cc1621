-- ===== src/Kernel/Pipe/Traffic.antt =====
-- What goes into a pipe of kernel/pipe.c comes out of it, in order, through all calls and sleeps.
use g20_os_lab_project.Common.{
  ℕ, ◌≤◌, ◌≡◌, refl, ap, ◌∙◌, sym, Bool, true, false, Option, List, [], ◌++◌, length, append_assoc,
  append-nil, arith,
}
use g20_os_lab_project.Kernel.Types.{Kernel}
use g20_os_lab_project.Kernel.Pipe.{Piped, pipesize, write_loop, piperead, pipeclose}
use g20_os_lab_project.Kernel.Pipe.Bytes.{contents, IsPipe, length-contents}
use g20_os_lab_project.Kernel.Pipe.Flow.{
  after_write, after_read, written_by, delivered, contents-write_loop, contents-piperead,
}

-- Any sequence of writes and reads, each up to its end or its next sleep, of ends that are closed, and
-- of changes elsewhere in the kernel, with the bytes that the writers had to put in so far and the
-- bytes that piperead put into the users' memory.
pub data Traffic (s : Piped) : Piped → List ℕ → List ℕ → Type 0 where
  start : Traffic s s [] []
  then_write :
      {t : Piped} {written taken : List ℕ} (me i : ℕ) (chars : List (Option ℕ))
      → Traffic s t written taken
      → Traffic s (after_write (write_loop t me i chars)) (written ++ written_by t me chars) taken
  then_read :
      {t : Piped} {written taken : List ℕ} (copy_ok : ℕ → Bool) (me n : ℕ)
      → Traffic s t written taken
      → Traffic s
          (after_read (piperead copy_ok t me n))
          written
          (taken ++ delivered (piperead copy_ok t me n))
  then_close :
      {t : Piped} {written taken : List ℕ} (me : ℕ) (writable : Bool)
      → Traffic s t written taken
      → Traffic s (pipeclose t me writable).0 written taken
  then_else :
      {t : Piped} {written taken : List ℕ} (k : Kernel)
      → Traffic s t written taken
      → Traffic s (record t { kernel = k }) written taken

pipeclose-contents :
    (t : Piped) (me : ℕ) (writable : Bool)
    → (contents (pipeclose t me writable).0.pipe ≡ contents t.pipe)
      × (IsPipe t.pipe → IsPipe (pipeclose t me writable).0.pipe)
unfolding pipeclose contents
pipeclose-contents t me true =
    (refl, λ v. record { nread = v.nread; nwrite = v.nwrite; room = v.room })
pipeclose-contents t me false =
    (refl, λ v. record { nread = v.nread; nwrite = v.nwrite; room = v.room })

-- However writers and readers of a pipe sleep, wake and alternate, the bytes come out in the order in
-- which they went in, none is lost and none is made up: what was in the pipe at the start followed
-- by what was written is what piperead delivered followed by what is in the pipe now. The pipe never holds more
-- than 512 bytes, and its counters may wrap round.
pub Traffic-contents :
    {s t : Piped} {written taken : List ℕ}
    → IsPipe s.pipe
    → Traffic s t written taken
    → (contents s.pipe ++ written ≡ taken ++ contents t.pipe)
      × (length (contents t.pipe) ≤ pipesize)
      × IsPipe t.pipe
Traffic-contents {s} v start =
    (append-nil (contents s.pipe), omega (arith, v.room, length-contents s.pipe), v)
Traffic-contents {s} v (then_write {t} {written} {taken} me i chars r) =
    let (kept, low, v') = Traffic-contents v r in
    let (more, v'') = contents-write_loop t me i chars v' in
    (
      sym (append_assoc (contents s.pipe) written (written_by t me chars))
          ∙ ap (λ (xs : List ℕ). xs ++ written_by t me chars) kept
          ∙ append_assoc taken (contents t.pipe) (written_by t me chars)
          ∙ ap (λ (xs : List ℕ). taken ++ xs) (sym more),
      omega (arith, v''.room, length-contents (after_write (write_loop t me i chars)).pipe),
      v'',
    )
Traffic-contents {s} v (then_read {t} {written} {taken} copy_ok me n r) =
    let (kept, low, v') = Traffic-contents v r in
    let (as_read, less, v'') = contents-piperead copy_ok t me n v' in
    (
      kept
          ∙ ap (λ (xs : List ℕ). taken ++ xs) less
          ∙ sym (
              append_assoc taken (delivered (piperead copy_ok t me n))
                (contents (after_read (piperead copy_ok t me n)).pipe)),
      omega (arith, v''.room, length-contents (after_read (piperead copy_ok t me n)).pipe),
      v'',
    )
Traffic-contents {s} v (then_close {t} {written} {taken} me writable r) =
    let (kept, low, v') = Traffic-contents v r in
    let (same, valid) = pipeclose-contents t me writable in
    (kept ∙ ap (λ (xs : List ℕ). taken ++ xs) (sym same), rw same low, valid v')
Traffic-contents {s} v (then_else {t} {written} {taken} k r) =
    let (kept, low, v') = Traffic-contents v r in (kept, low, v')
