-- ===== src/Kernel/Log/Writing.antt =====
-- What write_log of kernel/log.c has on the disk when it ends or the power fails.
use g20_os_lab_project.Common.{
  ℕ, zero, suc, ◌+◌, ◌≤◌, ◌<◌, ◌≡◌, ◌≢◌, ◌⊎◌, inl, inr, refl, ◌∙◌, subst, arith, update_self,
  update_ne, ◌==◌, Bool-cases, ==→ne, ==→eq,
}
use native.Mathlib.Decide.{ℕ_discrete}
use g20_os_lab_project.Kernel.Log.{LogHeader, Store, bwrite, copy_block, write_log, logblocks}

-- A block before or after the log: its header and its 30 blocks.
abbrev pub IsHome : (start b : ℕ) → Type 0
IsHome start b = (b < start) ⊎ (start + logblocks < b)

pub home_apart : {start b i : ℕ} → IsHome start b → i < logblocks → b ≢ start + i + 1
home_apart (inl before) low e = omega (arith, before, e)
home_apart (inr after) low e = omega (arith, after, e, low)

abbrev pub HasHomes : (start : ℕ) → LogHeader → Type 0
HasHomes start h = (j : ℕ) → j < h.n → IsHome start (h.block j)

module _ {Block : Type 0} (start : ℕ) (h : LogHeader) where
  pub record LogWritten (s s' : Store Block) (tail left : ℕ) : Type 0 where
    pub head : s'.disk.head ≡ s.disk.head
    pub home_disk : (b : ℕ) → IsHome start b → s'.disk.blocks b ≡ s.disk.blocks b
    pub home_cache : (b : ℕ) → IsHome start b → s'.cache b ≡ s.cache b
    pub before :
        (j : ℕ)
        → j < tail
        → (s'.disk.blocks (start + j + 1) ≡ s.disk.blocks (start + j + 1))
          × (s'.cache (start + j + 1) ≡ s.cache (start + j + 1))
    pub result :
        ((s'.power ≡ 0) × (s.power < left))
        ⊎ ((s'.power + left ≡ s.power)
            × ((j : ℕ)
                → tail ≤ j
                → j < tail + left
                → (s'.disk.blocks (start + j + 1) ≡ s.cache (h.block j))
                  × (s'.cache (start + j + 1) ≡ s.cache (h.block j))))

  -- One block, copied in the cache and written.
  pub record OneWritten (s s' : Store Block) (to : ℕ) (value : Block) : Type 0 where
    pub head : s'.disk.head ≡ s.disk.head
    pub others : (b : ℕ) → b ≢ to → (s'.disk.blocks b ≡ s.disk.blocks b) × (s'.cache b ≡ s.cache b)
    pub here : s'.cache to ≡ value
    pub result :
        ((s.power ≡ 0) × (s'.power ≡ 0) × (s'.disk.blocks to ≡ s.disk.blocks to))
        ⊎ ((s'.power + 1 ≡ s.power) × (s'.disk.blocks to ≡ value))

  pub one_written :
      (s : Store Block) (to from : ℕ)
      → OneWritten s (bwrite (copy_block s to from) to) to (s.cache from)
  unfolding bwrite
  one_written s to from = elim (Bool-cases (s.power == 0)) [
    | inl off ↦ rw off (record {
      head = refl;
      others = λ b ne. (refl, update_ne s.cache to b (s.cache from) ne);
      here = update_self s.cache to (s.cache from);
      result = let e = ==→eq s.power 0 off in inl (e, e, refl);
    })
    | inr on ↦ rw on (record {
      head = refl;
      others =
          λ b ne. (update_ne s.disk.blocks to b _ ne, update_ne s.cache to b (s.cache from) ne);
      here = update_self s.cache to (s.cache from);
      result =
          let ne = ==→ne s.power 0 on in
          inr (
            omega (arith, ne),
            update_self s.disk.blocks to _ ∙ update_self s.cache to (s.cache from),
          );
    })
  ]

  -- The step of the induction, over the writes that follow.
  step_written :
      (s s1 s' : Store Block) (tail left : ℕ)
      → HasHomes start h
      → h.n ≤ logblocks
      → tail + suc left ≤ h.n
      → OneWritten s s1 (start + tail + 1) (s.cache (h.block tail))
      → LogWritten s1 s' (suc tail) left
      → LogWritten s s' tail (suc left)
  step_written s s1 s' tail left homes small inside one more = record {
    head = more.head ∙ one.head;
    home_disk = λ b home. more.home_disk b home ∙ (one.others b (apart b home)).0;
    home_cache = λ b home. more.home_cache b home ∙ (one.others b (apart b home)).1;
    before = λ j low.
        let (disk, cache) = more.before j (omega arith) in
        let (disk', cache') = one.others (start + j + 1) (λ e. omega (arith, e, low)) in
        (disk ∙ disk', cache ∙ cache');
    result = go one.result more.result;
  }
    where
      apart : (b : ℕ) → IsHome start b → b ≢ start + tail + 1
      apart b home = home_apart home (omega arith)

      go :
          ((s.power ≡ 0)
              × (s1.power ≡ 0)
              × (s1.disk.blocks (start + tail + 1) ≡ s.disk.blocks (start + tail + 1)))
            ⊎ ((s1.power + 1 ≡ s.power)
                × (s1.disk.blocks (start + tail + 1) ≡ s.cache (h.block tail)))
          → ((s'.power ≡ 0) × (s1.power < left))
            ⊎ ((s'.power + left ≡ s1.power)
                × ((j : ℕ)
                    → suc tail ≤ j
                    → j < suc tail + left
                    → (s'.disk.blocks (start + j + 1) ≡ s1.cache (h.block j))
                      × (s'.cache (start + j + 1) ≡ s1.cache (h.block j))))
          → ((s'.power ≡ 0) × (s.power < suc left))
            ⊎ ((s'.power + suc left ≡ s.power)
                × ((j : ℕ)
                    → tail ≤ j
                    → j < tail + suc left
                    → (s'.disk.blocks (start + j + 1) ≡ s.cache (h.block j))
                      × (s'.cache (start + j + 1) ≡ s.cache (h.block j))))
      go (inl (off, off1, same)) (inl (off', few)) = inl (off', omega (arith, off))
      go (inl (off, off1, same)) (inr (sum, all)) =
          inl (omega (arith, sum, off1), omega (arith, off))
      go (inr (paid, written)) (inl (off', few)) = inl (off', omega (arith, paid, few))
      go (inr (paid, written)) (inr (sum, all)) = inr (
        omega (arith, paid, sum),
        λ j low high. elim (ℕ_discrete j tail) [
          | yes e ↦ rw e (
              let (disk, cache) = more.before tail (omega arith) in
              (disk ∙ written, cache ∙ one.here))
          | no ne ↦
              let (disk, cache) = all j (omega (arith, low, ne)) (omega (arith, high)) in
              let (d1, c1) =
                one.others (h.block j)
                  (apart (h.block j) (homes j (omega (arith, high, inside)))) in
              (disk ∙ c1, cache ∙ c1)
        ],
      )

  pub write_log-LogWritten :
      (s : Store Block) (tail left : ℕ)
      → HasHomes start h
      → h.n ≤ logblocks
      → tail + left ≤ h.n
      → LogWritten s (write_log start h s tail left) tail left
  unfolding write_log
  write_log-LogWritten s tail zero homes small inside = record {
    head = refl;
    home_disk = λ b home. refl;
    home_cache = λ b home. refl;
    before = λ j low. (refl, refl);
    result = inr (omega arith, λ j low high. absurd (omega (arith, low, high)));
  }
  write_log-LogWritten s tail (suc left) homes small inside =
      step_written s _ _ tail left homes small inside
        (one_written s (start + tail + 1) (h.block tail))
        (next (
          write_log-LogWritten
            (bwrite (copy_block s (start + tail + 1) (h.block tail)) (start + tail + 1)) (tail + 1)
            left homes small (omega (arith, inside))))
    where
      next :
          {s1 s' : Store Block}
          → LogWritten s1 s' (tail + 1) left
          → LogWritten s1 s' (suc tail) left
      next {s1} {s'} w = subst (λ (t : ℕ). LogWritten s1 s' t left) (omega arith) w
