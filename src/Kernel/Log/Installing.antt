-- ===== src/Kernel/Log/Installing.antt =====
-- What install_trans of kernel/log.c has on the disk when it ends or the power fails.
use g20_os_lab_project.Common.{
  ℕ, zero, suc, ◌+◌, ◌≤◌, ◌<◌, ◌≡◌, ◌⊎◌, inl, inr, refl, ap, ◌∙◌, sym, subst, arith, Bool, true,
  false,
}
use native.Mathlib.Decide.{ℕ_discrete}
use g20_os_lab_project.Kernel.Log.{
  LogHeader, Store, bwrite, copy_block, unpin, install_trans, logblocks,
}
use g20_os_lab_project.Kernel.Log.Writing.{home_apart, HasHomes, OneWritten, one_written}

-- The block `b` is one of `left` blocks of the header from `tail` on.
abbrev pub Member : LogHeader → (tail left b : ℕ) → Type 0
Member h tail left b = (j : ℕ) × (tail ≤ j) × (j < tail + left) × (h.block j ≡ b)

module _ {Block : Type 0} (recovering : Bool) (start : ℕ) (h : LogHeader) (v : ℕ → Block) where
  pub record Installed (s s' : Store Block) (tail left : ℕ) : Type 0 where
    pub head : s'.disk.head ≡ s.disk.head
    pub log_disk :
        (i : ℕ) → i < logblocks → s'.disk.blocks (start + i + 1) ≡ s.disk.blocks (start + i + 1)
    pub mixed :
        (b : ℕ)
        → (s'.disk.blocks b ≡ s.disk.blocks b) ⊎ (Member h tail left b × (s'.disk.blocks b ≡ v b))
    pub result :
        ((s'.power ≡ 0) × (s.power < left))
        ⊎ ((s'.power + left ≡ s.power) × ((b : ℕ) → Member h tail left b → s'.disk.blocks b ≡ v b))

  abbrev HasValues : Store Block → (tail left : ℕ) → Type 0
  HasValues s tail left =
      (j : ℕ) → tail ≤ j → j < tail + left → s.cache (start + j + 1) ≡ v (h.block j)

  unpinned :
      {s s1 : Store Block} {to : ℕ} {value : Block} (b : ℕ)
      → OneWritten start h s s1 to value
      → OneWritten start h s (unpin recovering b s1) to value
  unpinned {s} {s1} {to} {value} b one = go recovering
    where
      go : (r : Bool) → OneWritten start h s (unpin r b s1) to value
      go true = one
      go false = record {
        head = one.head;
        others = one.others;
        here = one.here;
        result = one.result;
      }

  install_step :
      (s s1 s' : Store Block) (tail left : ℕ)
      → HasHomes start h
      → h.n ≤ logblocks
      → tail + suc left ≤ h.n
      → s.cache (start + tail + 1) ≡ v (h.block tail)
      → OneWritten start h s s1 (h.block tail) (s.cache (start + tail + 1))
      → Installed s1 s' (suc tail) left
      → Installed s s' tail (suc left)
  install_step s s1 s' tail left homes small inside value one more = record {
    head = more.head ∙ one.head;
    log_disk = λ i low.
        more.log_disk i low
        ∙ (one.others (start + i + 1)
            (λ e. home_apart (homes tail (omega (arith, inside))) low (sym e))).0;
    mixed = λ b. mix b (more.mixed b);
    result = go one.result more.result;
  }
    where
      later : {b : ℕ} → Member h (suc tail) left b → Member h tail (suc left) b
      later (j, low, high, e) = (j, omega (arith, low), omega (arith, high), e)

      first : Member h tail (suc left) (h.block tail)
      first = (tail, omega arith, omega arith, refl)

      one_mixed :
          (b : ℕ)
          → (s1.disk.blocks b ≡ s.disk.blocks b)
            ⊎ (Member h tail (suc left) b × (s1.disk.blocks b ≡ v b))
      one_mixed b = elim (ℕ_discrete b (h.block tail)) [
        | no ne ↦ inl (one.others b ne).0
        | yes e ↦ rw e (here one.result)
      ]
        where
          here :
              ((s.power ≡ 0)
                  × (s1.power ≡ 0)
                  × (s1.disk.blocks (h.block tail) ≡ s.disk.blocks (h.block tail)))
                ⊎ ((s1.power + 1 ≡ s.power)
                    × (s1.disk.blocks (h.block tail) ≡ s.cache (start + tail + 1)))
              → (s1.disk.blocks (h.block tail) ≡ s.disk.blocks (h.block tail))
                ⊎ (Member h tail (suc left) (h.block tail)
                    × (s1.disk.blocks (h.block tail) ≡ v (h.block tail)))
          here (inl (off, off1, same)) = inl same
          here (inr (paid, written)) = inr (first, written ∙ value)

      mix :
          (b : ℕ)
          → (s'.disk.blocks b ≡ s1.disk.blocks b)
            ⊎ (Member h (suc tail) left b × (s'.disk.blocks b ≡ v b))
          → (s'.disk.blocks b ≡ s.disk.blocks b)
            ⊎ (Member h tail (suc left) b × (s'.disk.blocks b ≡ v b))
      mix b (inr (m, e)) = inr (later m, e)
      mix b (inl same) = elim (one_mixed b) [
        | inl e ↦ inl (same ∙ e)
        | inr (m, e) ↦ inr (m, same ∙ e)
      ]

      go :
          ((s.power ≡ 0)
              × (s1.power ≡ 0)
              × (s1.disk.blocks (h.block tail) ≡ s.disk.blocks (h.block tail)))
            ⊎ ((s1.power + 1 ≡ s.power)
                × (s1.disk.blocks (h.block tail) ≡ s.cache (start + tail + 1)))
          → ((s'.power ≡ 0) × (s1.power < left))
            ⊎ ((s'.power + left ≡ s1.power)
                × ((b : ℕ) → Member h (suc tail) left b → s'.disk.blocks b ≡ v b))
          → ((s'.power ≡ 0) × (s.power < suc left))
            ⊎ ((s'.power + suc left ≡ s.power)
                × ((b : ℕ) → Member h tail (suc left) b → s'.disk.blocks b ≡ v b))
      go (inl (off, off1, same)) (inl (off', few)) = inl (off', omega (arith, off))
      go (inl (off, off1, same)) (inr (sum, all)) =
          inl (omega (arith, sum, off1), omega (arith, off))
      go (inr (paid, written)) (inl (off', few)) = inl (off', omega (arith, paid, few))
      go (inr (paid, written)) (inr (sum, all)) = inr (omega (arith, paid, sum), every)
        where
          every : (b : ℕ) → Member h tail (suc left) b → s'.disk.blocks b ≡ v b
          every b (j, low, high, e) = elim (ℕ_discrete j tail) [
            | no ne ↦ all b (j, omega (arith, low, ne), omega (arith, high), e)
            | yes at ↦ at_first b (ap h.block (sym at) ∙ e) (more.mixed b)
          ]
            where
              at_first :
                  (b : ℕ)
                  → h.block tail ≡ b
                  → (s'.disk.blocks b ≡ s1.disk.blocks b)
                    ⊎ (Member h (suc tail) left b × (s'.disk.blocks b ≡ v b))
                  → s'.disk.blocks b ≡ v b
              at_first b e (inr (m, new)) = new
              at_first b e (inl same) = same ∙ ap s1.disk.blocks (sym e) ∙ written ∙ value ∙ ap v e

  pub install_trans-Installed :
      (s : Store Block) (tail left : ℕ)
      → HasHomes start h
      → h.n ≤ logblocks
      → tail + left ≤ h.n
      → HasValues s tail left
      → Installed s (install_trans recovering start h s tail left) tail left
  unfolding install_trans
  install_trans-Installed s tail zero homes small inside values = record {
    head = refl;
    log_disk = λ i low. refl;
    mixed = λ b. inl refl;
    result = inr (omega arith, nobody);
  }
    where
      nobody : (b : ℕ) → Member h tail 0 b → s.disk.blocks b ≡ v b
      nobody b (j, low, high, e) = absurd (omega (arith, low, high))
  install_trans-Installed s tail (suc left) homes small inside values =
      install_step s s1 _ tail left homes small inside (values tail (omega arith) (omega arith)) one
        (next
          (install_trans-Installed s1 (tail + 1) left homes small (omega (arith, inside)) values'))
    where
      s1 : Store Block
      s1 =
          unpin recovering (h.block tail)
            (bwrite (copy_block s (h.block tail) (start + tail + 1)) (h.block tail))

      one : OneWritten start h s s1 (h.block tail) (s.cache (start + tail + 1))
      one = unpinned (h.block tail) (one_written start h s (h.block tail) (start + tail + 1))

      values' : HasValues s1 (tail + 1) left
      values' j low high =
          (one.others (start + j + 1) (λ e.
            home_apart (homes tail (omega (arith, inside))) (omega (arith, inside, high, small))
              (sym e))).1
          ∙ values j (omega (arith, low)) (omega (arith, high))

      next : {t t' : Store Block} → Installed t t' (tail + 1) left → Installed t t' (suc tail) left
      next {t} {t'} w = subst (λ (x : ℕ). Installed t t' x left) (omega arith) w
