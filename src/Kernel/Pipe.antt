-- ===== src/Kernel/Pipe.antt =====
-- Pipes: kernel/pipe.c, on the processes of kernel/proc.c. pipewrite and piperead are cut where they
-- sleep. What copyin reads, byte after byte, and whether copyout succeeds are arguments; the page of
-- the pipe is given back by kfree, which is not part of the state.
pub mod Bytes
pub mod Flow
pub mod Traffic
use g20_os_lab_project.Common.{
  ℕ, zero, suc, ◌+◌, ◌%◌, ◌^◌, ◌==◌, ◌&&◌, ◌||◌, not, if◌then◌else◌, Bool, true, false, update, ℤ,
  pos, minus_one, Option, none, some, List, [], ◌∷◌,
}
use g20_os_lab_project.Kernel.Types.{Kernel, Channel, other_chan}
use g20_os_lab_project.Kernel.Sched.{sleep_on, tidy_up, wakeup, killed}

abbrev pub pipesize : ℕ
pipesize = 512

-- `nread` and `nwrite` are 32-bit; the fields `nread_chan` and `nwrite_chan` are their addresses.
pub record Pipe : Type 0 where
  pub bytes : ℕ → ℕ
  pub nread : ℕ
  pub nwrite : ℕ
  pub readopen : Bool
  pub writeopen : Bool
  pub nread_chan : Channel
  pub nwrite_chan : Channel

-- A pipe among the processes.
pub record Piped : Type 0 where
  pub kernel : Kernel
  pub pipe : Pipe

abbrev pub wake_readers : Piped → (me : ℕ) → Piped
wake_readers s me = record s { kernel = wakeup s.kernel me s.pipe.nread_chan }

abbrev pub wake_writers : Piped → (me : ℕ) → Piped
wake_writers s me = record s { kernel = wakeup s.kernel me s.pipe.nwrite_chan }

-- The fields that pipealloc sets in the new page.
abbrev pub new_pipe : Pipe → Pipe
new_pipe p = record p { readopen = true; writeopen = true; nwrite = 0; nread = 0 }

-- The state, and whether the pipe's page is freed.
unfoldable pub pipeclose : Piped → (me : ℕ) → (writable : Bool) → Piped × Bool
pipeclose s me writable =
    let s' =
      if writable
      then wake_readers (record s { pipe = record s.pipe { writeopen = false } }) me
      else wake_writers (record s { pipe = record s.pipe { readopen = false } }) me in
    (s', not s'.pipe.readopen && not s'.pipe.writeopen)

abbrev pub is_full : Pipe → Bool
is_full p = p.nwrite == (p.nread + pipesize) % 2 ^ 32

abbrev pub is_empty : Pipe → Bool
is_empty p = p.nread == p.nwrite

-- `pi->data[pi->nwrite++ % PIPESIZE] = ch;`
unfoldable pub put_byte : Pipe → ℕ → Pipe
put_byte p ch = record p {
  bytes = update p.bytes (p.nwrite % pipesize) ch;
  nwrite = (p.nwrite + 1) % 2 ^ 32;
}

-- `ch = pi->data[pi->nread % PIPESIZE];` and `pi->nread++;`
abbrev pub next_byte : Pipe → ℕ
next_byte p = p.bytes (p.nread % pipesize)

unfoldable pub take_byte : Pipe → Pipe
take_byte p = record p { nread = (p.nread + 1) % 2 ^ 32 }

-- pipewrite returns, or sleeps with `i` bytes written and the others still to come.
pub data WriteOutcome : Type 0 where
  wrote : ℤ → Piped → WriteOutcome
  write_waits : Piped → (i : ℕ) → List (Option ℕ) → WriteOutcome

-- The while loop from the byte `i` on, up to the next sleep. A byte is `none` where copyin fails.
unfoldable pub write_loop : Piped → (me i : ℕ) → List (Option ℕ) → WriteOutcome
write_loop s me i [] = wrote (pos i) (wake_readers s me)
write_loop s me i (none ∷ rest) =
    if not s.pipe.readopen || killed (s.kernel.procs me)
    then wrote minus_one s
    else if is_full s.pipe
    then write_waits
        (record s { kernel = sleep_on (wake_readers s me).kernel me s.pipe.nwrite_chan }) i
        (none ∷ rest)
    else wrote (pos i) (wake_readers s me)
write_loop s me i (some ch ∷ rest) =
    let more = write_loop (record s { pipe = put_byte s.pipe ch }) me (i + 1) rest in
    if not s.pipe.readopen || killed (s.kernel.procs me)
    then wrote minus_one s
    else if is_full s.pipe
    then write_waits
        (record s { kernel = sleep_on (wake_readers s me).kernel me s.pipe.nwrite_chan }) i
        (some ch ∷ rest)
    else more

unfoldable pub pipewrite : Piped → (me : ℕ) → List (Option ℕ) → WriteOutcome
unfolding write_loop
pipewrite s me chars = write_loop s me 0 chars

unfoldable pub pipewrite_resume : Piped → (me i : ℕ) → List (Option ℕ) → WriteOutcome
unfolding write_loop
pipewrite_resume s me i rest = write_loop (record s { kernel = tidy_up s.kernel me }) me i rest

-- piperead returns, with the bytes that went to user memory, or sleeps.
pub data ReadOutcome : Type 0 where
  read : ℤ → List ℕ → Piped → ReadOutcome
  read_waits : Piped → ReadOutcome

-- The for loop from the byte `i` on, `left` bytes from its end: the result, the bytes and the pipe.
unfoldable pub copy_bytes : (copy_ok : ℕ → Bool) → Pipe → (i left : ℕ) → ℤ × List ℕ × Pipe
copy_bytes copy_ok p i zero = (pos i, [], p)
copy_bytes copy_ok p i (suc left) =
    let (r, chars, p') = copy_bytes copy_ok (take_byte p) (i + 1) left in
    if is_empty p
    then (pos i, [], p)
    else if copy_ok i
    then (r, next_byte p ∷ chars, p')
    else (if i == 0 then minus_one else pos i, [], p)

unfoldable pub piperead : (copy_ok : ℕ → Bool) → Piped → (me n : ℕ) → ReadOutcome
unfolding copy_bytes
piperead copy_ok s me n =
    if is_empty s.pipe && s.pipe.writeopen
    then if killed (s.kernel.procs me)
      then read minus_one [] s
      else read_waits (record s { kernel = sleep_on s.kernel me s.pipe.nread_chan })
    else let (r, chars, p) = copy_bytes copy_ok s.pipe 0 n in
      read r chars (wake_writers (record s { pipe = p }) me)

unfoldable pub piperead_resume : (copy_ok : ℕ → Bool) → Piped → (me n : ℕ) → ReadOutcome
unfolding piperead
piperead_resume copy_ok s me n = piperead copy_ok (record s { kernel = tidy_up s.kernel me }) me n
