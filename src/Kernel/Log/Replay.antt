-- ===== src/Kernel/Log/Replay.antt =====
-- Recoveries of the log, which may crash, on each kind of disk that a commit leaves. (kernel/log.c)
use g20_os_lab_project.Common.{
  ℕ, zero, suc, ◌≤◌, ◌<◌, ◌≡◌, ◌⊎◌, inl, inr, refl, ap, ◌∙◌, sym, subst, arith, true, List, [], ◌∷◌,
  Bool-cases, ◌==◌,
}
use g20_os_lab_project.Kernel.Log.{
  LogHeader, Disk, Store, write_head, install_trans, boot, recover_from_log, logblocks,
}
use g20_os_lab_project.Kernel.Log.Writing.{HasHomes}
use g20_os_lab_project.Kernel.Log.Installing.{install_trans-Installed}
use g20_os_lab_project.Kernel.Log.Crash.{IsOld, IsNew, IsCommitted, clear_head}

module _ {Block : Type 0} where
  -- Recoveries that crash too: one for each number of writes.
  pub recover_all : (start : ℕ) → Disk Block → List ℕ → Disk Block
  recover_all start d [] = d
  recover_all start d (power ∷ more) =
      recover_all start (recover_from_log start (boot d power)).disk more

  -- An empty log: only the header is written.
  recover_from_log-empty :
      (start : ℕ) (s : Store Block)
      → s.disk.head.n ≡ 0
      → ((recover_from_log start s).disk.head.n ≡ 0)
        × ((recover_from_log start s).disk.blocks ≡ s.disk.blocks)
  unfolding recover_from_log write_head install_trans
  recover_from_log-empty start s empty = go s.disk.head.n empty
    where
      cleared :
          ((write_head (record s.disk.head { n = 0 }) s).disk.head.n ≡ 0)
          × ((write_head (record s.disk.head { n = 0 }) s).disk.blocks ≡ s.disk.blocks)
      cleared = elim (Bool-cases (s.power == 0)) [
        | inl off ↦ rw off (empty, refl)
        | inr on ↦ rw on (refl, refl)
      ]

      go :
          (n : ℕ)
          → n ≡ 0
          → let s' =
              write_head
                (record s.disk.head { n = 0 })
                (install_trans true start s.disk.head s 0 n) in
            (s'.disk.head.n ≡ 0) × (s'.disk.blocks ≡ s.disk.blocks)
      go zero e = cleared
      go (suc n) e = absurd (omega (arith, e))

module _ {Block : Type 0} (start : ℕ) (h : LogHeader) (old v : ℕ → Block) where
  -- The header of the transaction is on the disk: it is committed.
  abbrev pub IsDurable : Disk Block → Type 0
  IsDurable d = IsCommitted start h old v d ⊎ IsNew start h old v d

  pub recover_from_log-IsOld :
      (d : Disk Block) (power : ℕ)
      → IsOld start h old v d
      → IsOld start h old v (recover_from_log start (boot d power)).disk
  recover_from_log-IsOld d power o =
      let (n, same) = recover_from_log-empty start (boot d power) o.cleared in
      record { cleared = n; home = λ b home. ap (λ (f : ℕ → Block). f b) same ∙ o.home b home }

  recover_from_log-IsNew :
      (d : Disk Block) (power : ℕ)
      → IsNew start h old v d
      → IsNew start h old v (recover_from_log start (boot d power)).disk
  recover_from_log-IsNew d power o =
      let (n, same) = recover_from_log-empty start (boot d power) o.cleared in
      record {
        cleared = n;
        written = λ b m. ap (λ (f : ℕ → Block). f b) same ∙ o.written b m;
        home = λ b home other. ap (λ (f : ℕ → Block). f b) same ∙ o.home b home other;
      }

  recover_from_log-IsCommitted :
      (d : Disk Block) (power : ℕ)
      → HasHomes start h
      → h.n ≤ logblocks
      → IsCommitted start h old v d
      → ((IsCommitted start h old v (recover_from_log start (boot d power)).disk) × (power ≤ h.n))
        ⊎ IsNew start h old v (recover_from_log start (boot d power)).disk
  unfolding recover_from_log
  recover_from_log-IsCommitted d power homes small c =
      subst
        (λ (x : LogHeader).
          let s' =
            write_head (record x { n = 0 }) (install_trans true start x (boot d power) 0 x.n) in
          (IsCommitted start h old v s'.disk × (power ≤ h.n)) ⊎ IsNew start h old v s'.disk)
        (sym c.head)
        (clear_head start h old v (boot d power) _ small c (
          install_trans-Installed true start h v (boot d power) 0 h.n homes small (omega arith)
            (λ j low high. c.logged j (omega (arith, high)))))

  pub recover_all-IsOld :
      (d : Disk Block) (crashes : List ℕ)
      → IsOld start h old v d
      → IsOld start h old v (recover_all start d crashes)
  unfolding recover_all
  recover_all-IsOld d [] o = o
  recover_all-IsOld d (power ∷ more) o =
      recover_all-IsOld (recover_from_log start (boot d power)).disk more
        (recover_from_log-IsOld d power o)

  pub recover_all-IsDurable :
      (d : Disk Block) (crashes : List ℕ)
      → HasHomes start h
      → h.n ≤ logblocks
      → IsDurable d
      → IsDurable (recover_all start d crashes)
  unfolding recover_all
  recover_all-IsDurable d [] homes small c = c
  recover_all-IsDurable d (power ∷ more) homes small (inr new) =
      recover_all-IsDurable (recover_from_log start (boot d power)).disk more homes small
        (inr (recover_from_log-IsNew d power new))
  recover_all-IsDurable d (power ∷ more) homes small (inl c) =
      recover_all-IsDurable (recover_from_log start (boot d power)).disk more homes small
        (again (recover_from_log-IsCommitted d power homes small c))
    where
      again :
          {d' : Disk Block}
          → (IsCommitted start h old v d' × (power ≤ h.n)) ⊎ IsNew start h old v d'
          → IsDurable d'
      again (inl (c', few)) = inl c'
      again (inr new) = inr new

  -- The last recovery, which has the power to end.
  pub recovered :
      (d : Disk Block) (power : ℕ)
      → HasHomes start h
      → h.n ≤ logblocks
      → h.n < power
      → IsDurable d
      → IsNew start h old v (recover_from_log start (boot d power)).disk
  recovered d power homes small enough (inr new) = recover_from_log-IsNew d power new
  recovered d power homes small enough (inl c) =
      done (recover_from_log-IsCommitted d power homes small c)
    where
      done :
          {d' : Disk Block}
          → (IsCommitted start h old v d' × (power ≤ h.n)) ⊎ IsNew start h old v d'
          → IsNew start h old v d'
      done (inl (c', few)) = absurd (omega (arith, few, enough))
      done (inr new) = new
