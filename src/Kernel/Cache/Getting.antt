-- ===== src/Kernel/Cache/Getting.antt =====
-- Getting and reading buffers of kernel/bio.c.
use g20_os_lab_project.Common.{
  ℕ, ◌<◌, ◌≡◌, ◌⊎◌, inl, inr, refl, ap, ◌∙◌, sym, arith, true, false, none, some, Bool-cases,
  update_self,
}
use g20_os_lab_project.Kernel.Cache.{Bcache, nbuf, bget, hit, recycle, read_buf}
use g20_os_lab_project.Kernel.Cache.Coherent.{
  Holds, Backs, find_cached_lem, find_unused_lem, IsCoherent,
}
use g20_os_lab_project.Kernel.Cache.Keeping.{
  set_buf-IsCoherent, apart_lem, hit-IsCoherent, recycle-IsCoherent, in_list, of_list,
}

module _ {Block : Type 0} (dev : ℕ) where
  -- bget gives a buffer of the block, or all buffers are in use.
  pub bget_lem :
      (v : ℕ → Block) (c : Bcache Block) (blockno : ℕ)
      → IsCoherent dev v c
      → ((c' : Bcache Block) × (i : ℕ) × (bget c dev blockno ≡ some (c', i))
          × (i < nbuf)
          × Holds dev blockno (c'.buf i)
          × (0 < (c'.buf i).refcnt)
          × IsCoherent dev v c')
        ⊎ ((bget c dev blockno ≡ none) × ((j : ℕ) → j < nbuf → 0 < (c.buf j).refcnt))
  unfolding bget
  bget_lem v c blockno w = elim (find_cached_lem c.buf dev blockno c.order) [
    | inl (i, e, some_i, at) ↦
        let low = in_list dev v c i w some_i in
        inl (
          hit c i,
          i,
          rw (bget, e) refl,
          low,
          rw (update_self c.buf i _) at,
          rw (update_self c.buf i _) (omega arith),
          hit-IsCoherent dev v c i low w,
        )
    | inr (e, absent) ↦ elim (find_unused_lem c.buf c.order) [
      | inl (i, e', some_i, free) ↦
          let low = in_list dev v c i w some_i in
          inl (
            recycle c dev blockno i,
            i,
            rw (bget, e, e') refl,
            low,
            rw (update_self c.buf i _) (refl, refl),
            rw (update_self c.buf i _) (omega arith),
            recycle-IsCoherent dev v c blockno i low w free
                (λ j lj. absent j (of_list dev v c j w lj)),
          )
      | inr (e', busy) ↦ inr (rw (bget, e, e') refl, λ j lj. busy j (of_list dev v c j w lj))
    ]
  ]

  pub read_buf-IsCoherent :
      (v : ℕ → Block) (c : Bcache Block) (i : ℕ)
      → i < nbuf
      → (c.buf i).dev ≡ dev
      → 0 < (c.buf i).refcnt
      → IsCoherent dev v c
      → IsCoherent dev v (read_buf c i)
        × (((read_buf c i).buf i).valid ≡ true)
        × (((read_buf c i).buf i).bytes ≡ v (c.buf i).blockno)
  unfolding read_buf
  read_buf-IsCoherent v c i low di busy w = elim (Bool-cases (c.buf i).valid) [
    | inl valid ↦ rw valid (w, valid, w.bytes i low di valid)
    | inr invalid ↦
        let e = on_disk invalid (w.backed (c.buf i).blockno) in
        rw invalid (
          set_buf-IsCoherent dev v v c i
              (record (c.buf i) { bytes = c.disk (c.buf i).blockno; valid = true }) low w
              (apart_lem dev v c i low w) (λ dx valid. e) (λ j lj ji dj. refl) (λ b. inl refl)
              (λ b at. let (holds, valid, used_i) = at in inr (holds, refl, used_i)),
          rw (update_self c.buf i _) refl,
          rw (update_self c.buf i _) e,
        )
  ]
    where
      on_disk :
          (c.buf i).valid ≡ false
          → (c.disk (c.buf i).blockno ≡ v (c.buf i).blockno)
            ⊎ ((j : ℕ) × (j < nbuf) × Backs dev (c.buf i).blockno (c.buf j))
          → c.disk (c.buf i).blockno ≡ v (c.buf i).blockno
      on_disk invalid (inl e) = e
      on_disk invalid (inr (j, lj, ((dj, same), valid, used_j))) = absurd (
          true_false (
            sym valid ∙ ap (λ (k : ℕ). (c.buf k).valid) (w.single j i lj low dj di same) ∙ invalid))
        where
          true_false : true ≡ false → ⊥
          true_false e = cc
