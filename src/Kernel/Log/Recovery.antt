-- ===== src/Kernel/Log/Recovery.antt =====
-- Recovery of the log after a crash of the commit or of a recovery. (kernel/log.c)
use g20_os_lab_project.Common.{
  ℕ, ◌+◌, ◌≤◌, ◌<◌, ◌≡◌, ◌≢◌, ◌-◌, ◌⊎◌, inl, inr, refl, ap, ◌∙◌, sym, subst, arith, false, List,
  ==_of_ne, lt→ltb,
}
use native.Mathlib.Decide.{ℕ_discrete}
use g20_os_lab_project.Kernel.Log.{
  LogHeader, Disk, Store, write_head, write_log, install_trans, commit, boot, recover_from_log,
  logblocks,
}
use g20_os_lab_project.Kernel.Log.Writing.{HasHomes, LogWritten, write_log-LogWritten}
use g20_os_lab_project.Kernel.Log.Installing.{install_trans-Installed}
use g20_os_lab_project.Kernel.Log.Crash.{
  Frozen, write_head-off, install_trans-off, IsOld, IsNew, IsCommitted, clear_head,
}
use g20_os_lab_project.Kernel.Log.Replay.{
  recover_all, IsDurable, recover_from_log-IsOld, recover_all-IsOld, recover_all-IsDurable,
  recovered,
}

module _ {Block : Type 0} (start : ℕ) (h : LogHeader) (s : Store Block) where
  abbrev IsOutcome : Disk Block → Type 0
  IsOutcome d =
      ((s.power ≤ h.n) × IsOld start h s.disk.blocks s.cache d)
      ⊎ ((h.n < s.power) × IsDurable start h s.disk.blocks s.cache d)

  -- Where the power fails before the header is written.
  before_head :
      (s1 : Store Block)
      → s.disk.head.n ≡ 0
      → LogWritten start h s s1 0 h.n
      → s1.power ≡ 0
      → s.power ≤ h.n
      → IsOutcome
          (write_head
            (record h { n = 0 })
            (install_trans false start h (write_head h s1) 0 h.n)).disk
  before_head s1 empty w off few = inl (
    few,
    subst (λ (d : Disk Block). IsOld start h s.disk.blocks s.cache d) (sym same)
        (record { cleared = ap (λ (x : LogHeader). x.n) w.head ∙ empty; home = w.home_disk }),
  )
    where
      f1 : Frozen s1 (write_head h s1)
      f1 = write_head-off h s1 off

      f2 : Frozen (write_head h s1) (install_trans false start h (write_head h s1) 0 h.n)
      f2 = install_trans-off false start h (write_head h s1) 0 h.n f1.1

      same :
          (write_head
            (record h { n = 0 })
            (install_trans false start h (write_head h s1) 0 h.n)).disk
          ≡ s1.disk
      same = (write_head-off (record h { n = 0 }) _ f2.1).0 ∙ f2.0 ∙ f1.0

  -- Where the header is written.
  after_head :
      (s1 : Store Block)
      → HasHomes start h
      → h.n ≤ logblocks
      → LogWritten start h s s1 0 h.n
      → s1.power ≢ 0
      → s1.power + h.n ≡ s.power
      → ((j : ℕ)
          → 0 ≤ j
          → j < h.n
          → (s1.disk.blocks (start + j + 1) ≡ s.cache (h.block j))
            × (s1.cache (start + j + 1) ≡ s.cache (h.block j)))
      → IsOutcome
          (write_head
            (record h { n = 0 })
            (install_trans false start h (write_head h s1) 0 h.n)).disk
  unfolding write_head
  after_head s1 homes small w on paid all = rw (==_of_ne s1.power 0 on) (
      inr (
        omega (arith, on, paid),
        durable (
            clear_head start h s.disk.blocks s.cache s2 _ small c (
              install_trans-Installed false start h s.cache s2 0 h.n homes small (omega arith)
                (λ j low high. (all j low (omega (arith, high))).1))),
      ))
    where
      s2 : Store Block
      s2 = record s1 { disk = record s1.disk { head = h }; power = s1.power - 1 }

      c : IsCommitted start h s.disk.blocks s.cache s2.disk
      c = record {
        head = refl;
        logged = λ j low. (all j (omega arith) low).0;
        mixed = λ b home. inl (w.home_disk b home);
      }

      durable :
          {d' : Disk Block}
          → (IsCommitted start h s.disk.blocks s.cache d' × (s2.power ≤ h.n))
            ⊎ IsNew start h s.disk.blocks s.cache d'
          → IsDurable start h s.disk.blocks s.cache d'
      durable (inl (c', few)) = inl c'
      durable (inr new) = inr new

  commit-IsOutcome :
      HasHomes start h
      → h.n ≤ logblocks
      → 0 < h.n
      → s.disk.head.n ≡ 0
      → IsOutcome (commit start h s).disk
  unfolding commit
  commit-IsOutcome homes small some_block empty = rw (lt→ltb 0 h.n some_block) (split w.result)
    where
      s1 : Store Block
      s1 = write_log start h s 0 h.n

      w : LogWritten start h s s1 0 h.n
      w = write_log-LogWritten start h s 0 h.n homes small (omega arith)

      split :
          ((s1.power ≡ 0) × (s.power < h.n))
            ⊎ ((s1.power + h.n ≡ s.power)
                × ((j : ℕ)
                    → 0 ≤ j
                    → j < 0 + h.n
                    → (s1.disk.blocks (start + j + 1) ≡ s.cache (h.block j))
                      × (s1.cache (start + j + 1) ≡ s.cache (h.block j))))
          → IsOutcome
              (write_head
                (record h { n = 0 })
                (install_trans false start h (write_head h s1) 0 h.n)).disk
      split (inl (off, few)) = before_head s1 empty w off (omega (arith, few))
      split (inr (paid, all)) = elim (ℕ_discrete s1.power 0) [
        | yes off ↦ before_head s1 empty w off (omega (arith, paid, off))
        | no on ↦
            after_head s1 homes small w on paid (λ j low high. all j low (omega (arith, high)))
      ]

  -- A commit of 1 to 30 blocks outside of the log, on a disk whose log is empty, is stopped
  -- after any number of writes; any number of recoveries are stopped too, and the last one has the
  -- writes that it needs. The disk then has all the blocks of the transaction if the commit had more
  -- writes than the log has blocks, which is when the header was written, and none of them if not; the
  -- other blocks outside of the log are as they were, and the log is empty.
  pub recover_from_log-commit :
      (crashes : List ℕ) (power : ℕ)
      → HasHomes start h
      → h.n ≤ logblocks
      → 0 < h.n
      → s.disk.head.n ≡ 0
      → h.n < power
      → let d = recover_all start (commit start h s).disk crashes in
        let d' = (recover_from_log start (boot d power)).disk in
        ((s.power ≤ h.n) × IsOld start h s.disk.blocks s.cache d')
        ⊎ ((h.n < s.power) × IsNew start h s.disk.blocks s.cache d')
  recover_from_log-commit crashes power homes small some_block empty enough =
      elim (commit-IsOutcome homes small some_block empty) [
        | inl (few, o) ↦ inl (
          few,
          recover_from_log-IsOld start h s.disk.blocks s.cache _ power
              (recover_all-IsOld start h s.disk.blocks s.cache _ crashes o),
        )
        | inr (many, c) ↦ inr (
          many,
          recovered start h s.disk.blocks s.cache _ power homes small enough
              (recover_all-IsDurable start h s.disk.blocks s.cache _ crashes homes small c),
        )
      ]
