-- ===== src/Kernel/Log/Room.antt =====
-- The space that operations of the file system reserve in the log. (kernel/log.c)
use g20_os_lab_project.Common.{
  ℕ, suc, ◌+◌, ◌*◌, ◌≤◌, ◌<◌, ◌≡◌, ◌≢◌, arith, Bool, true, false, some, List, [], ◌∷◌, length,
}
use g20_os_lab_project.Kernel.Types.{Kernel}
use g20_os_lab_project.Kernel.Log.{
  LogHeader, LogState, Logged, begin_op, end_op, end_commit, log_write, logblocks, maxopblocks,
}

-- The new blocks that each operation may still write.
abbrev pub total : List ℕ → ℕ
total [] = 0
total (k ∷ ks) = k + total ks

-- One of the operations writes a new block.
pub data Spend : List ℕ → List ℕ → Type 0 where
  first : {k : ℕ} {ks : List ℕ} → Spend (suc k ∷ ks) (k ∷ ks)
  later : {k : ℕ} {ks ls : List ℕ} → Spend ks ls → Spend (k ∷ ks) (k ∷ ls)

-- One of the operations ends.
pub data Leave : List ℕ → List ℕ → Type 0 where
  leave_first : {k : ℕ} {ks : List ℕ} → Leave (k ∷ ks) ks
  leave_later : {k : ℕ} {ks ls : List ℕ} → Leave ks ls → Leave (k ∷ ks) (k ∷ ls)

pub data AreBudgets : List ℕ → Type 0 where
  idle : AreBudgets []
  busy : {k : ℕ} {ks : List ℕ} → k ≤ maxopblocks → AreBudgets ks → AreBudgets (k ∷ ks)

pub Spend_lem :
    {ks ls : List ℕ}
    → Spend ks ls
    → AreBudgets ks
    → (total ks ≡ total ls + 1) × (length ks ≡ length ls) × (0 < length ks) × AreBudgets ls
Spend_lem (first {k} {ks}) (busy low all) =
    (omega arith, omega arith, omega arith, busy (omega (arith, low)) all)
Spend_lem (later {k} {ks} {ls} s) (busy low all) =
    let (sum, len, some_op, all') = Spend_lem s all in
    (omega (arith, sum), omega (arith, len), omega arith, busy low all')

pub Leave_lem :
    {ks ls : List ℕ}
    → Leave ks ls
    → AreBudgets ks
    → (total ls ≤ total ks) × (length ks ≡ length ls + 1) × AreBudgets ls
Leave_lem (leave_first {k} {ks}) (busy low all) = (omega arith, omega arith, all)
Leave_lem (leave_later {k} {ks} {ls} s) (busy low all) =
    let (sum, len, all') = Leave_lem s all in
    (omega (arith, sum), omega (arith, len), busy low all')

pub total_bound : (ks : List ℕ) → AreBudgets ks → total ks ≤ length ks * maxopblocks
total_bound [] idle = omega arith
total_bound (k ∷ ks) (busy low all) = omega (arith, low, total_bound ks all)

abbrev pub HasNoDuplicates : LogHeader → Type 0
HasNoDuplicates h = (i j : ℕ) → i < j → j < h.n → h.block i ≢ h.block j

-- The log has room for what its operations may still write; there are none during a commit.
pub record HasRoom (l : LogState) (ks : List ℕ) : Type 0 where
  pub count : l.outstanding ≡ length ks
  pub budgets : AreBudgets ks
  pub room : l.lh.n + total ks ≤ logblocks
  pub quiet : l.committing ≡ true → l.outstanding ≡ 0
  pub distinct : HasNoDuplicates l.lh

-- Operations begin, wait, write new or known blocks and end, in any order, commits end, and the rest of
-- the kernel goes on.
pub data LogRun (s : Logged) : Logged → List ℕ → Type 0 where
  start : LogRun s s []
  begin :
      {t : Logged} {ks : List ℕ} (me : ℕ)
      → LogRun s t ks
      → (begin_op t me).asleep ≡ false
      → LogRun s (begin_op t me) (maxopblocks ∷ ks)
  begin_waits :
      {t : Logged} {ks : List ℕ} (me : ℕ)
      → LogRun s t ks
      → (begin_op t me).asleep ≡ true
      → LogRun s (begin_op t me) ks
  write :
      {t : Logged} {ks ls : List ℕ} {l : LogState} {fresh : Bool} (b : ℕ)
      → LogRun s t ks
      → Spend ks ls
      → log_write t.log b ≡ some (l, fresh)
      → LogRun s (record t { log = l }) ls
  write_known :
      {t : Logged} {ks ls : List ℕ} {l : LogState} (b : ℕ)
      → LogRun s t ks
      → Leave ks ls
      → log_write t.log b ≡ some (l, false)
      → LogRun s (record t { log = l }) ks
  finish :
      {t t' : Logged} {ks ls : List ℕ} {last : Bool} (me : ℕ)
      → LogRun s t ks
      → Leave ks ls
      → end_op t me ≡ some (t', last)
      → LogRun s t' ls
  committed :
      {t : Logged} {ks : List ℕ} (me : ℕ)
      → LogRun s t ks
      → t.log.committing ≡ true
      → LogRun s (end_commit t me) ks
  elsewhere :
      {t : Logged} {ks : List ℕ} (k : Kernel)
      → LogRun s t ks
      → LogRun s (record t { kernel = k }) ks
