-- ===== src/Kernel/FileTests.antt =====
-- Pipes (kernel/pipe.c), the log (kernel/log.c) and the buffer cache (kernel/bio.c) at small states.
use g20_os_lab_project.Common.{
  ℕ, ◌+◌, ◌*◌, ◌-◌, ◌^◌, ◌<◌, ◌≤◌, ◌≡◌, ◌≢◌, Bool, ◌⊎◌, inl, refl, true, false, some, none, pos,
  arith, [], ◌∷◌, ◌++◌, length, List,
}
use g20_os_lab_project.Kernel.Types.{other_chan}
use g20_os_lab_project.Kernel.Sched.{killed, tidy_up}
use g20_os_lab_project.Kernel.Samples.{kernel}
use g20_os_lab_project.Kernel.Pipe.{
  Pipe, Piped, pipesize, wrote, write_waits, pipewrite, pipewrite_resume, piperead, piperead_resume,
  read, read_waits, write_loop, new_pipe, put_byte, take_byte,
}
use g20_os_lab_project.Kernel.Pipe.Bytes.{contents, IsPipe}
use g20_os_lab_project.Kernel.Pipe.Flow.{after_write, after_read, written_by, delivered}
use g20_os_lab_project.Kernel.Pipe.Traffic.{start, then_write, then_read, Traffic-contents}
use g20_os_lab_project.Kernel.Log.{
  LogHeader, LogState, Logged, begin_op, end_op, end_commit, log_write, Store, commit, boot,
  recover_from_log,
}
use g20_os_lab_project.Kernel.Log.Crash.{IsOld, IsNew}
use g20_os_lab_project.Kernel.Log.Replay.{recover_all}
use g20_os_lab_project.Kernel.Log.Recovery.{recover_from_log-commit}
use g20_os_lab_project.Kernel.Log.Noting.{Noted}
use g20_os_lab_project.Kernel.Log.Room.{total, idle, HasNoDuplicates, HasRoom, LogRun}
use g20_os_lab_project.Kernel.Log.Panics.{log_write-LogRun}
use g20_os_lab_project.Kernel.Cache.{
  Bcache, nbuf, binit, bget, find_cached, find_unused, recycle, read_buf, brelse, bpin, bunpin,
  backwards, unlink,
}
use g20_os_lab_project.Kernel.Cache
use g20_os_lab_project.Kernel.Cache.Coherent.{Holds}
use g20_os_lab_project.Kernel.Cache.Reach.{CacheRun, CacheRun-bget}

-- A page as the pipe that pipealloc makes of it.
abbrev page : Pipe
page = record {
  bytes = λ i. 7;
  nread = 9;
  nwrite = 9;
  readopen = false;
  writeopen = false;
  nread_chan = other_chan 8;
  nwrite_chan = other_chan 9;
}

-- The counters of the pipe are about to wrap round.
abbrev old_pipe : Piped
old_pipe = record {
  kernel = kernel;
  pipe = record (new_pipe page) { nread = 2 ^ 32 - 1; nwrite = 2 ^ 32 - 1 };
}

old_pipe-IsPipe : IsPipe old_pipe.pipe
old_pipe-IsPipe = record { nread = omega arith; nwrite = omega arith; room = omega arith }

abbrev filled : Piped
filled = after_write (write_loop old_pipe 0 0 (some 65 ∷ some 66 ∷ none ∷ []))

abbrev drained : Piped
drained = after_read (piperead (λ i. true) filled 0 1)

Traffic-contents_example :
    (contents old_pipe.pipe ++ ([] ++ written_by old_pipe 0 (some 65 ∷ some 66 ∷ none ∷ []))
      ≡ ([] ++ delivered (piperead (λ i. true) filled 0 1)) ++ contents drained.pipe)
    × (length (contents drained.pipe) ≤ pipesize)
    × IsPipe drained.pipe
Traffic-contents_example =
    Traffic-contents old_pipe-IsPipe
      (then_read (λ i. true) 0 1 (then_write 0 0 (some 65 ∷ some 66 ∷ none ∷ []) start))

-- A write of two bytes of which one can be read: the call returns 1.
short_write : ((s : Piped) × (pipewrite old_pipe 0 (some 65 ∷ none ∷ []) ≡ wrote (pos 1) s))
unfolding pipewrite write_loop killed put_byte
short_write = (_, refl)

-- A write that sleeps, and goes on when the pipe has room.
full_pipe : Piped
full_pipe = record { kernel = kernel; pipe = record (new_pipe page) { nwrite = 512 } }

waits_then_writes :
    ((s : Piped) × (pipewrite full_pipe 0 (some 65 ∷ []) ≡ write_waits s 0 (some 65 ∷ [])))
    × ((s : Piped) × (pipewrite_resume
            (record full_pipe { pipe = take_byte full_pipe.pipe })
            0
            0
            (some 65 ∷ [])
          ≡ wrote (pos 1) s))
unfolding pipewrite pipewrite_resume write_loop full_pipe take_byte killed tidy_up
waits_then_writes = ((_, refl), (_, refl))

-- A reader of an empty pipe sleeps, and finds what was written.
waits_then_reads :
    ((s : Piped) × (piperead (λ i. true) old_pipe 0 4 ≡ read_waits s))
    × ((s : Piped) × (piperead_resume (λ i. true) filled 0 4 ≡ read (pos 2) (65 ∷ 66 ∷ []) s))
unfolding piperead piperead_resume write_loop killed put_byte take_byte
waits_then_reads = ((_, refl), (_, refl))

-- Blocks 3 and 4 are to become 21 and 28.
abbrev header : LogHeader
header = record { n = 2; block = λ j. j + 3 }

abbrev store : Store ℕ
store = record {
  disk = record { head = record { n = 0; block = λ j. 0 }; blocks = λ b. b };
  cache = λ b. b * 7;
  pins = λ b. 1;
  power = 4;
}

recover_from_log-commit_example :
    ((4 ≤ 2)
      × IsOld 100 header store.disk.blocks store.cache
          (recover_from_log 100
            (boot (recover_all 100 (commit 100 header store).disk (1 ∷ 0 ∷ [])) 3)).disk)
    ⊎ ((2 < 4)
        × IsNew 100 header store.disk.blocks store.cache
            (recover_from_log 100
              (boot (recover_all 100 (commit 100 header store).disk (1 ∷ 0 ∷ [])) 3)).disk)
recover_from_log-commit_example =
    recover_from_log-commit 100 header store (1 ∷ 0 ∷ []) 3 (λ j low. inl (omega (arith, low)))
      (omega arith) (omega arith) refl (omega arith)

abbrev idle_log : LogState
idle_log = record {
  start = 100;
  outstanding = 0;
  committing = false;
  lh = record { n = 0; block = λ j. 0 };
}

abbrev logged : Logged
logged = record { kernel = kernel; log = idle_log; asleep = false }

-- An operation that writes a block twice.
one_operation :
    ((begin_op logged 0).log.outstanding ≡ 1)
    × ((l : LogState) × (log_write (begin_op logged 0).log 5 ≡ some (l, true))
        × ((m : LogState) × (log_write l 5 ≡ some (m, false)) × (m.lh.n ≡ 1)))
    × ((s : Logged) × (end_op (begin_op logged 0) 0 ≡ some (s, true))
        × ((end_commit s 0).log.committing ≡ false))
unfolding begin_op log_write end_op end_commit
one_operation = (refl, (_, refl, (_, refl, refl)), (_, refl, refl))

idle_log-HasRoom : HasRoom idle_log []
idle_log-HasRoom = record {
  count = refl;
  budgets = idle;
  room = omega arith;
  quiet = λ e. refl;
  distinct = λ i j low high. absurd (omega (arith, high));
}

abbrev begun : LogState
begun = record idle_log { outstanding = 1 }

abbrev ten : List ℕ
ten = 10 ∷ []

-- In a log with one operation.
log_write-LogRun_example :
    ((total ten ≡ 0)
      ⊎ ((l' : LogState) × (fresh : Bool) × (log_write begun 5 ≡ some (l', fresh))
          × Noted begun 5 l' fresh
          × HasNoDuplicates l'.lh
          × (l'.lh.n ≤ 30)))
    × ((ten ≡ [])
        ⊎ ((t' : Logged) × (last : Bool) × (end_op (record logged { log = begun }) 0
              ≡ some (t', last))
            × (last ≡ true)))
unfolding begin_op
log_write-LogRun_example =
    log_write-LogRun {s = logged} 5 0 idle_log-HasRoom (LogRun.begin 0 LogRun.start refl)

-- A machine that has just started, with a disk.
abbrev fresh_cache : Bcache ℕ
fresh_cache = record {
  buf = λ i. record { valid = false; dev = 0; blockno = 0; refcnt = 0; bytes = 0 };
  order = [];
  disk = λ b. b * 3;
}

-- Block 5 of device 1 is in buffer 0, the last of the list.
abbrev one_cached : Bcache ℕ
one_cached = recycle (binit fresh_cache) 1 5 0

CacheRun-bget_example :
    (((d' : Bcache ℕ) × (k : ℕ) × (bget one_cached 1 6 ≡ some (d', k))
        × (k < nbuf)
        × Holds 1 6 (d'.buf k)
        × (0 < (d'.buf k).refcnt)
        × (((read_buf d' k).buf k).bytes ≡ 18)
        × ((j : ℕ) → j < nbuf → Holds 1 6 (d'.buf j) → j ≡ k))
      ⊎ ((bget one_cached 1 6 ≡ none) × ((j : ℕ) → j < nbuf → 0 < (one_cached.buf j).refcnt)))
    × (((one_cached.buf 0).refcnt ≡ 0)
        ⊎ (((one_cached.buf 0).dev ≢ 1) ⊎ (((read_buf one_cached 0).buf 0).bytes ≡ 15)))
unfolding binit bget find_cached find_unused
CacheRun-bget_example =
    CacheRun-bget 1 fresh_cache 0 6 (λ j e. omega (arith, e)) (CacheRun.get 5 CacheRun.start refl)
      (omega arith)

-- The buffer is released, and is then the first of the list; with a pin it stays where it was.
pinned_or_released :
    ((brelse one_cached 0).order ≡ 0 ∷ unlink 0 (backwards 30))
    × ((brelse (bpin one_cached 0) 0).order ≡ one_cached.order)
    × (((bunpin (bpin one_cached 0) 0).buf 0).refcnt ≡ 1)
    × ((Cache.bwrite (read_buf one_cached 0) 0).disk 5 ≡ 15)
unfolding brelse binit bpin bunpin Cache.bwrite read_buf
pinned_or_released = (refl, refl, refl, refl)
