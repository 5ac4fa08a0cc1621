-- ===== src/Kernel/Log.antt =====
-- The log of the file system: kernel/log.c. A block is a value of any type; the buffer cache of
-- kernel/bio.c is what bread gives for a block number, and keeps a block that is pinned. A crash is a
-- number of disk writes after which no write takes effect any more: the power that is left. Entries of
-- a header from `n` on are never read, and are not told apart. end_op comes after a begin_op, so
-- that `outstanding` is at least 1.
pub mod Writing
pub mod Installing
pub mod Crash
pub mod Noting
pub mod Room
pub mod Reserving
pub mod Panics
pub mod Replay
pub mod Recovery
use g20_os_lab_project.Common.{
  ℕ, zero, suc, ◌+◌, ◌-◌, ◌*◌, ◌==◌, ◌||◌, ltb, leb, if◌then◌else◌, Bool, true, false, update,
  Option, none, some,
}
use g20_os_lab_project.Kernel.Types.{Kernel, Channel, other_chan}
use g20_os_lab_project.Kernel.Sched.{sleep_on, wakeup}

abbrev pub maxopblocks : ℕ
maxopblocks = 10

abbrev pub logblocks : ℕ
logblocks = 30

pub record LogHeader : Type 0 where
  pub n : ℕ
  pub block : ℕ → ℕ

-- `lh` is the header in memory.
pub record LogState : Type 0 where
  pub start : ℕ
  pub outstanding : ℕ
  pub committing : Bool
  pub lh : LogHeader

-- The channel `&log`.
abbrev pub log_chan : Channel
log_chan = other_chan 1

-- A process and the log: whether the call sleeps.
pub record Logged : Type 0 where
  pub kernel : Kernel
  pub log : LogState
  pub asleep : Bool

-- One round of the loop of begin_op: the call sleeps, or is entered.
unfoldable pub begin_op : Logged → (me : ℕ) → Logged
begin_op s me =
    if s.log.committing || ltb logblocks (s.log.lh.n + (s.log.outstanding + 1) * maxopblocks)
    then record s { kernel = sleep_on s.kernel me log_chan; asleep = true }
    else record s { log = record s.log { outstanding = s.log.outstanding + 1 }; asleep = false }

-- The first part of end_op: the state, and whether the call commits. `none` is a panic.
unfoldable pub end_op : Logged → (me : ℕ) → Option (Logged × Bool)
end_op s me =
    let outstanding = s.log.outstanding - 1 in
    if s.log.committing
    then none
    else if outstanding == 0
    then some
        (record s { log = record s.log { outstanding = outstanding; committing = true } }, true)
    else some (
      record s {
        kernel = wakeup s.kernel me log_chan;
        log = record s.log { outstanding = outstanding };
      },
      false,
    )

-- What end_op does after the commit.
unfoldable pub end_commit : Logged → (me : ℕ) → Logged
end_commit s me = record s {
  kernel = wakeup s.kernel me log_chan;
  log = record s.log { committing = false; lh = record s.log.lh { n = 0 } };
}

-- The first index below `i + left` whose block is `b`, or `i + left`.
unfoldable pub find_block : LogHeader → (b i left : ℕ) → ℕ
find_block h b i zero = i
find_block h b i (suc left) =
    let rest = find_block h b (i + 1) left in if h.block i == b then i else rest

-- The log after log_write of the block `b`, and whether the block is new and was pinned. `none` is a
-- panic.
unfoldable pub log_write : LogState → (b : ℕ) → Option (LogState × Bool)
unfolding find_block
log_write l b =
    let i = find_block l.lh b 0 l.lh.n in
    if leb logblocks l.lh.n || ltb l.outstanding 1
    then none
    else some (
      record l {
        lh = record {
          n = if i == l.lh.n then l.lh.n + 1 else l.lh.n;
          block = update l.lh.block i b;
        };
      },
      i == l.lh.n,
    )

-- The disk: the header block of the log, and the other blocks.
pub record Disk (Block : Type 0) : Type 0 where
  pub head : LogHeader
  pub blocks : ℕ → Block

-- The disk, the buffer cache with the number of pins of each block, and the power that is left.
pub record Store (Block : Type 0) : Type 0 where
  pub disk : Disk Block
  pub cache : ℕ → Block
  pub pins : ℕ → ℕ
  pub power : ℕ

module _ {Block : Type 0} where
  unfoldable pub bwrite : Store Block → ℕ → Store Block
  bwrite s b = if s.power == 0 then s else record s {
    disk = record s.disk { blocks = update s.disk.blocks b (s.cache b) };
    power = s.power - 1;
  }

  unfoldable pub write_head : LogHeader → Store Block → Store Block
  write_head h s =
      if s.power == 0
      then s
      else record s { disk = record s.disk { head = h }; power = s.power - 1 }

  -- `memmove(to->data, from->data, BSIZE)` of two buffers.
  abbrev pub copy_block : Store Block → (to from : ℕ) → Store Block
  copy_block s to from = record s { cache = update s.cache to (s.cache from) }

  -- The loop of write_log from `tail` on, with `left` rounds to go.
  unfoldable pub write_log : (start : ℕ) → LogHeader → Store Block → (tail left : ℕ) → Store Block
  unfolding bwrite
  write_log start h s tail zero = s
  write_log start h s tail (suc left) =
      write_log start h (bwrite (copy_block s (start + tail + 1) (h.block tail)) (start + tail + 1))
        (tail + 1) left

  abbrev pub unpin : Bool → ℕ → Store Block → Store Block
  unpin true b s = s
  unpin false b s = record s { pins = update s.pins b (s.pins b - 1) }

  -- The loop of install_trans.
  unfoldable pub install_trans :
      (recovering : Bool) (start : ℕ) → LogHeader → Store Block → (tail left : ℕ) → Store Block
  unfolding bwrite
  install_trans recovering start h s tail zero = s
  install_trans recovering start h s tail (suc left) =
      install_trans recovering start h
        (unpin recovering (h.block tail)
          (bwrite (copy_block s (h.block tail) (start + tail + 1)) (h.block tail)))
        (tail + 1) left

  unfoldable pub commit : (start : ℕ) → LogHeader → Store Block → Store Block
  unfolding write_log write_head install_trans
  commit start h s =
      if ltb 0 h.n
      then write_head (record h { n = 0 })
          (install_trans false start h (write_head h (write_log start h s 0 h.n)) 0 h.n)
      else s

  -- At boot the cache is empty: bread gives what is on the disk.
  abbrev pub boot : Disk Block → (power : ℕ) → Store Block
  boot d power = record { disk = d; cache = d.blocks; pins = λ b. 0; power = power }

  -- read_head, install_trans(1) and the cleared header.
  unfoldable pub recover_from_log : (start : ℕ) → Store Block → Store Block
  unfolding write_head install_trans
  recover_from_log start s =
      let h = s.disk.head in write_head (record h { n = 0 }) (install_trans true start h s 0 h.n)
