-- ===== src/Kernel/Log/Crash.antt =====
-- A commit of the log, a crash at any write, and recovery. (kernel/log.c)
use g20_os_lab_project.Common.{
  ℕ, zero, suc, ◌+◌, ◌≤◌, ◌<◌, ◌≡◌, ◌≢◌, ◌⊎◌, inl, inr, refl, ◌∙◌, arith, Bool, true, false,
  Bool-cases, ◌==◌, ==→eq, ==→ne,
}
use g20_os_lab_project.Kernel.Log.{
  LogHeader, Disk, Store, bwrite, copy_block, unpin, write_head, install_trans, logblocks,
}
use g20_os_lab_project.Kernel.Log.Writing.{IsHome}
use g20_os_lab_project.Kernel.Log.Installing.{Member, Installed}

module _ {Block : Type 0} where
  -- Without power nothing changes on the disk.
  abbrev pub Frozen : Store Block → Store Block → Type 0
  Frozen s s' = (s'.disk ≡ s.disk) × (s'.power ≡ 0)

  pub write_head-off : (h : LogHeader) (s : Store Block) → s.power ≡ 0 → Frozen s (write_head h s)
  unfolding write_head
  write_head-off h s off = rw off (refl, refl)

  unpin-disk :
      (r : Bool) (b : ℕ) (s : Store Block)
      → ((unpin r b s).disk ≡ s.disk) × ((unpin r b s).power ≡ s.power)
  unpin-disk true b s = (refl, refl)
  unpin-disk false b s = (refl, refl)

  bwrite-Frozen :
      (s : Store Block) (b : ℕ)
      → s.power ≡ 0
      → ((bwrite s b).disk ≡ s.disk) × ((bwrite s b).power ≡ 0)
  unfolding bwrite
  bwrite-Frozen s b off = rw off (refl, refl)

  pub install_trans-off :
      (r : Bool) (start : ℕ) (h : LogHeader) (s : Store Block) (tail left : ℕ)
      → s.power ≡ 0
      → Frozen s (install_trans r start h s tail left)
  unfolding install_trans
  install_trans-off r start h s tail zero off = (refl, off)
  install_trans-off r start h s tail (suc left) off =
      let c = copy_block s (h.block tail) (start + tail + 1) in
      let (d1, p1) = bwrite-Frozen c (h.block tail) off in
      let (d2, p2) = unpin-disk r (h.block tail) (bwrite c (h.block tail)) in
      let (d3, p3) =
        install_trans-off r start h (unpin r (h.block tail) (bwrite c (h.block tail))) (tail + 1)
          left (p2 ∙ p1) in
      (d3 ∙ d2 ∙ d1, p3)

-- A transaction of the header `h` from the disk blocks `old`; `v` are the blocks that it writes.
module _ {Block : Type 0} (start : ℕ) (h : LogHeader) (old v : ℕ → Block) where
  -- The log is empty, and the blocks outside of the log are the old ones.
  pub record IsOld (d : Disk Block) : Type 0 where
    pub cleared : d.head.n ≡ 0
    pub home : (b : ℕ) → IsHome start b → d.blocks b ≡ old b

  -- The log is empty; the blocks of the transaction are new and the others old.
  pub record IsNew (d : Disk Block) : Type 0 where
    pub cleared : d.head.n ≡ 0
    pub written : (b : ℕ) → Member h 0 h.n b → d.blocks b ≡ v b
    pub home : (b : ℕ) → IsHome start b → (Member h 0 h.n b → ⊥) → d.blocks b ≡ old b

  -- The header and the blocks of the log are on the disk, and some blocks may be installed.
  pub record IsCommitted (d : Disk Block) : Type 0 where
    pub head : d.head ≡ h
    pub logged : (j : ℕ) → j < h.n → d.blocks (start + j + 1) ≡ v (h.block j)
    pub mixed :
        (b : ℕ) → IsHome start b → (d.blocks b ≡ old b) ⊎ (Member h 0 h.n b × (d.blocks b ≡ v b))

  IsCommitted-Installed :
      {r : Bool} {s s' : Store Block}
      → h.n ≤ logblocks
      → IsCommitted s.disk
      → Installed r start h v s s' 0 h.n
      → IsCommitted s'.disk
  IsCommitted-Installed small c w = record {
    head = w.head ∙ c.head;
    logged = λ j low. w.log_disk j (omega (arith, low, small)) ∙ c.logged j low;
    mixed = λ b home. elim (w.mixed b) [
      | inr new ↦ inr new
      | inl same ↦ elim (c.mixed b home) [ inl e ↦ inl (same ∙ e) | inr (m, e) ↦ inr (m, same ∙ e) ]
    ];
  }

  -- The end of the installation: the header is cleared, if there is power.
  pub clear_head :
      {r : Bool} (s s' : Store Block)
      → h.n ≤ logblocks
      → IsCommitted s.disk
      → Installed r start h v s s' 0 h.n
      → ((IsCommitted (write_head (record h { n = 0 }) s').disk) × (s.power ≤ h.n))
        ⊎ IsNew (write_head (record h { n = 0 }) s').disk
  unfolding write_head
  clear_head s s' small c w = elim (Bool-cases (s'.power == 0)) [
    | inl off ↦ rw off (inl (IsCommitted-Installed small c w, few (==→eq s'.power 0 off) w.result))
    | inr on ↦ rw on (
        inr (record {
          cleared = refl;
          written = all (==→ne s'.power 0 on) w.result;
          home = λ b home other. kept b home other (w.mixed b);
        }))
  ]
    where
      few :
          s'.power ≡ 0
          → ((s'.power ≡ 0) × (s.power < h.n))
            ⊎ ((s'.power + h.n ≡ s.power) × ((b : ℕ) → Member h 0 h.n b → s'.disk.blocks b ≡ v b))
          → s.power ≤ h.n
      few off (inl (off', low)) = omega (arith, low)
      few off (inr (sum, every)) = omega (arith, sum, off)

      all :
          s'.power ≢ 0
          → ((s'.power ≡ 0) × (s.power < h.n))
            ⊎ ((s'.power + h.n ≡ s.power) × ((b : ℕ) → Member h 0 h.n b → s'.disk.blocks b ≡ v b))
          → (b : ℕ) → Member h 0 h.n b
          → s'.disk.blocks b ≡ v b
      all on (inl (off, low)) = absurd (on off)
      all on (inr (sum, every)) = every

      kept :
          (b : ℕ)
          → IsHome start b
          → (Member h 0 h.n b → ⊥)
          → (s'.disk.blocks b ≡ s.disk.blocks b) ⊎ (Member h 0 h.n b × (s'.disk.blocks b ≡ v b))
          → s'.disk.blocks b ≡ old b
      kept b home other (inr (m, e)) = absurd (other m)
      kept b home other (inl same) = elim (c.mixed b home) [
        | inl e ↦ same ∙ e
        | inr (m, e) ↦ absurd (other m)
      ]
