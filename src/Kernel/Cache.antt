-- ===== src/Kernel/Cache.antt =====
-- The buffer cache: kernel/bio.c. The circular list of the buffers is a list of their indices, the
-- most recently used first. bread is cut at acquiresleep: bget up to there, and read_buf after it. A
-- block of the disk is read and written by virtio_disk_rw in one step.
use g20_os_lab_project.Common.{
  ℕ, zero, suc, ◌+◌, ◌-◌, ◌==◌, ◌&&◌, if◌then◌else◌, Bool, true, false, update, Option, none, some,
  List, [], ◌∷◌,
}
pub mod Coherent
pub mod Keeping
pub mod Getting
pub mod Releasing
pub mod Reach

abbrev pub nbuf : ℕ
nbuf = 30

pub record Buf (Block : Type 0) : Type 0 where
  pub valid : Bool
  pub dev : ℕ
  pub blockno : ℕ
  pub refcnt : ℕ
  pub bytes : Block

pub record Bcache (Block : Type 0) : Type 0 where
  pub buf : ℕ → Buf Block
  pub order : List ℕ
  pub disk : ℕ → Block

-- The indices `n - 1` to 0.
abbrev pub backwards : ℕ → List ℕ
backwards zero = []
backwards (suc n) = n ∷ backwards n

-- The list without a buffer.
abbrev pub unlink : ℕ → List ℕ → List ℕ
unlink i [] = []
unlink i (j ∷ order) = let rest = unlink i order in if j == i then order else j ∷ rest

module _ {Block : Type 0} where
  unfoldable pub binit : Bcache Block → Bcache Block
  binit c = record c { order = backwards nbuf }

  -- The first buffer of the list with the block.
  unfoldable pub find_cached : (ℕ → Buf Block) → (dev blockno : ℕ) → List ℕ → Option ℕ
  find_cached buf dev blockno [] = none
  find_cached buf dev blockno (i ∷ order) =
      let rest = find_cached buf dev blockno order in
      if ((buf i).dev == dev) && ((buf i).blockno == blockno) then some i else rest

  -- The last buffer of the list that nobody uses.
  unfoldable pub find_unused : (ℕ → Buf Block) → List ℕ → Option ℕ
  find_unused buf [] = none
  find_unused buf (i ∷ order) = elim (find_unused buf order) [
    | some j ↦ some j
    | none ↦ if (buf i).refcnt == 0 then some i else none
  ]

  abbrev pub set_buf : Bcache Block → ℕ → Buf Block → Bcache Block
  set_buf c i b = record c { buf = update c.buf i b }

  abbrev pub hit : Bcache Block → ℕ → Bcache Block
  hit c i = set_buf c i (record (c.buf i) { refcnt = (c.buf i).refcnt + 1 })

  abbrev pub recycle : Bcache Block → (dev blockno : ℕ) → ℕ → Bcache Block
  recycle c dev blockno i =
      set_buf c i (record (c.buf i) { dev = dev; blockno = blockno; valid = false; refcnt = 1 })

  -- The cache and the buffer. `none` is a panic.
  unfoldable pub bget : Bcache Block → (dev blockno : ℕ) → Option (Bcache Block × ℕ)
  unfolding find_cached find_unused
  bget c dev blockno = elim (find_cached c.buf dev blockno c.order) [
    | some i ↦ some (hit c i, i)
    | none ↦ elim (find_unused c.buf c.order) [
      | some i ↦ some (recycle c dev blockno i, i)
      | none ↦ none
    ]
  ]

  unfoldable pub read_buf : Bcache Block → ℕ → Bcache Block
  read_buf c i =
      if (c.buf i).valid
      then c
      else set_buf c i (record (c.buf i) { bytes = c.disk (c.buf i).blockno; valid = true })

  unfoldable pub bwrite : Bcache Block → ℕ → Bcache Block
  bwrite c i = record c { disk = update c.disk (c.buf i).blockno (c.buf i).bytes }

  abbrev pub drop_ref : Bcache Block → ℕ → Bcache Block
  drop_ref c i = set_buf c i (record (c.buf i) { refcnt = (c.buf i).refcnt - 1 })

  unfoldable pub brelse : Bcache Block → ℕ → Bcache Block
  brelse c i =
      let c' = drop_ref c i in
      if (c'.buf i).refcnt == 0 then record c' { order = i ∷ unlink i c'.order } else c'

  unfoldable pub bpin : Bcache Block → ℕ → Bcache Block
  bpin c i = hit c i

  unfoldable pub bunpin : Bcache Block → ℕ → Bcache Block
  bunpin c i = drop_ref c i
