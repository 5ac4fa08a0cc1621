-- ===== src/Kernel/Cache/Releasing.antt =====
-- Writing and releasing buffers of kernel/bio.c.
use g20_os_lab_project.Common.{
  ℕ, ◌-◌, ◌<◌, ◌≡◌, ◌⊎◌, inl, inr, refl, ap, ◌∙◌, sym, arith, true, Bool-cases, ◌==◌, update,
  update_self, update_ne,
}
use native.Mathlib.Decide.{ℕ_discrete}
use g20_os_lab_project.Kernel.Cache.{Bcache, nbuf, set_buf, bwrite, drop_ref, brelse}
use g20_os_lab_project.Kernel.Cache.Coherent.{count-unlink, Backs, IsCoherent}
use g20_os_lab_project.Kernel.Cache.Keeping.{set_buf-IsCoherent, apart_lem, of_list}

-- The owner of a buffer changes its bytes.
abbrev pub modify : {Block : Type 0} → Bcache Block → ℕ → Block → Bcache Block
modify c i y = set_buf c i (record (c.buf i) { bytes = y })

module _ {Block : Type 0} (dev : ℕ) (v : ℕ → Block) (c : Bcache Block) (i : ℕ) where
  pub modify-IsCoherent :
      (y : Block)
      → i < nbuf
      → Backs dev (c.buf i).blockno (c.buf i)
      → IsCoherent dev v c
      → IsCoherent dev (update v (c.buf i).blockno y) (modify c i y)
  modify-IsCoherent y low ((di, e), valid, busy) w =
      set_buf-IsCoherent dev v (update v (c.buf i).blockno y) c i (record (c.buf i) { bytes = y })
        low w (apart_lem dev v c i low w) (λ dx valid'. sym (update_self v (c.buf i).blockno y))
        (λ j lj ji dj.
          update_ne v (c.buf i).blockno (c.buf j).blockno y
            (λ same. ji (w.single j i lj low dj di same)))
        (λ b. elim (ℕ_discrete b (c.buf i).blockno) [
          | yes same ↦ inr ((di, sym same), valid, busy)
          | no other ↦ inl (update_ne v (c.buf i).blockno b y other)
        ])
        (λ b at. let (holds, valid', busy') = at in inr (holds, valid', busy'))

  pub bwrite-IsCoherent :
      i < nbuf
      → (c.buf i).dev ≡ dev
      → (c.buf i).valid ≡ true
      → IsCoherent dev v c
      → IsCoherent dev v (bwrite c i) × ((bwrite c i).disk (c.buf i).blockno ≡ v (c.buf i).blockno)
  unfolding bwrite
  bwrite-IsCoherent low di valid w = (
    record {
      listed = w.listed;
      single = w.single;
      bytes = w.bytes;
      backed = λ b. back b (w.backed b);
    },
    update_self c.disk (c.buf i).blockno (c.buf i).bytes ∙ w.bytes i low di valid,
  )
    where
      back :
          (b : ℕ)
          → (c.disk b ≡ v b) ⊎ ((j : ℕ) × (j < nbuf) × Backs dev b (c.buf j))
          → (update c.disk (c.buf i).blockno (c.buf i).bytes b ≡ v b)
            ⊎ ((j : ℕ) × (j < nbuf) × Backs dev b (c.buf j))
      back b (inr at) = inr at
      back b (inl clean) = elim (ℕ_discrete b (c.buf i).blockno) [
        | yes same ↦ inl (
            ap (update c.disk (c.buf i).blockno (c.buf i).bytes) same
            ∙ update_self c.disk (c.buf i).blockno (c.buf i).bytes
            ∙ w.bytes i low di valid
            ∙ ap v (sym same))
        | no other ↦ inl (update_ne c.disk (c.buf i).blockno b (c.buf i).bytes other ∙ clean)
      ]

  -- A buffer that was changed is pinned or written before its last user leaves it.
  pub drop_ref-IsCoherent :
      i < nbuf
      → (1 < (c.buf i).refcnt) ⊎ (c.disk (c.buf i).blockno ≡ v (c.buf i).blockno)
      → IsCoherent dev v c
      → IsCoherent dev v (drop_ref c i)
  drop_ref-IsCoherent low safe w =
      set_buf-IsCoherent dev v v c i (record (c.buf i) { refcnt = (c.buf i).refcnt - 1 }) low w
        (apart_lem dev v c i low w) (w.bytes i low) (λ j lj ji dj. refl) (λ b. inl refl)
        (λ b at. keep b at safe)
    where
      keep :
          (b : ℕ)
          → Backs dev b (c.buf i)
          → (1 < (c.buf i).refcnt) ⊎ (c.disk (c.buf i).blockno ≡ v (c.buf i).blockno)
          → (c.disk b ≡ v b) ⊎ Backs dev b (record (c.buf i) { refcnt = (c.buf i).refcnt - 1 })
      keep b (holds, valid, busy) (inl shared) = inr (holds, valid, omega (arith, shared))
      keep b ((di, e), valid, busy) (inr clean) = inl (ap c.disk (sym e) ∙ clean ∙ ap v e)

  pub brelse-IsCoherent :
      i < nbuf
      → (1 < (c.buf i).refcnt) ⊎ (c.disk (c.buf i).blockno ≡ v (c.buf i).blockno)
      → IsCoherent dev v c
      → IsCoherent dev v (brelse c i)
  unfolding brelse
  brelse-IsCoherent low safe w =
      let w' = drop_ref-IsCoherent low safe w in
      elim (Bool-cases (((drop_ref c i).buf i).refcnt == 0)) [
        | inr still_used ↦ rw still_used w'
        | inl last ↦ rw last (record {
          listed = λ j. count-unlink i c.order j (of_list dev v c i w low) ∙ w'.listed j;
          single = w'.single;
          bytes = w'.bytes;
          backed = w'.backed;
        })
      ]
