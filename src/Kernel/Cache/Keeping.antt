-- ===== src/Kernel/Cache/Keeping.antt =====
-- The operations of kernel/bio.c keep the buffer cache coherent.
use g20_os_lab_project.Common.{
  ℕ, ◌+◌, ◌<◌, ◌≡◌, ◌≢◌, ◌⊎◌, inl, inr, refl, ◌∙◌, sym, subst, arith, true, false, update,
  update_self, update_ne, count,
}
use native.Mathlib.Decide.{ℕ_discrete}
use g20_os_lab_project.Kernel.Cache.{Buf, Bcache, nbuf, hit, recycle, set_buf}
use g20_os_lab_project.Kernel.Cache.Coherent.{Holds, Backs, IsCoherent}

module _ {Block : Type 0} (dev : ℕ) where
  pub set_buf-IsCoherent :
      (v v' : ℕ → Block) (c : Bcache Block) (i : ℕ) (x : Buf Block)
      → i < nbuf
      → IsCoherent dev v c
      → ((j : ℕ)
          → j < nbuf
          → j ≢ i
          → (c.buf j).dev ≡ dev
          → x.dev ≡ dev
          → (c.buf j).blockno ≢ x.blockno)
      → (x.dev ≡ dev → x.valid ≡ true → x.bytes ≡ v' x.blockno)
      → ((j : ℕ)
          → j < nbuf
          → j ≢ i
          → (c.buf j).dev ≡ dev
          → v' (c.buf j).blockno ≡ v (c.buf j).blockno)
      → ((b : ℕ) → (v' b ≡ v b) ⊎ Backs dev b x)
      → ((b : ℕ) → Backs dev b (c.buf i) → (c.disk b ≡ v b) ⊎ Backs dev b x)
      → IsCoherent dev v' (set_buf c i x)
  set_buf-IsCoherent v v' c i x low w apart good others same keep = record {
    listed = w.listed;
    single = single;
    bytes = bytes;
    backed = λ b. back b (same b) (w.backed b);
  }
    where
      single :
          (j k : ℕ)
          → j < nbuf
          → k < nbuf
          → (update c.buf i x j).dev ≡ dev
          → (update c.buf i x k).dev ≡ dev
          → (update c.buf i x j).blockno ≡ (update c.buf i x k).blockno
          → j ≡ k
      single j k lj lk dj dk e = elim (ℕ_discrete j i) [
        | yes ji ↦ elim (ℕ_discrete k i) [
          | yes ki ↦ ji ∙ sym ki
          | no ki ↦ absurd (
              apart k lk ki (rw (update_ne c.buf i k x ki) at dk)
                (rw (ji, update_self c.buf i x) at dj)
                (sym (rw (ji, update_self c.buf i x, update_ne c.buf i k x ki) at e)))
        ]
        | no ji ↦ elim (ℕ_discrete k i) [
          | yes ki ↦ absurd (
              apart j lj ji (rw (update_ne c.buf i j x ji) at dj)
                (rw (ki, update_self c.buf i x) at dk)
                (rw (ki, update_self c.buf i x, update_ne c.buf i j x ji) at e))
          | no ki ↦
              w.single j k lj lk (rw (update_ne c.buf i j x ji) at dj)
                (rw (update_ne c.buf i k x ki) at dk)
                (rw (update_ne c.buf i j x ji, update_ne c.buf i k x ki) at e)
        ]
      ]

      bytes :
          (j : ℕ)
          → j < nbuf
          → (update c.buf i x j).dev ≡ dev
          → (update c.buf i x j).valid ≡ true
          → (update c.buf i x j).bytes ≡ v' (update c.buf i x j).blockno
      bytes j lj dj vj = elim (ℕ_discrete j i) [
        | yes ji ↦
            rw (ji, update_self c.buf i x)
              (good (rw (ji, update_self c.buf i x) at dj) (rw (ji, update_self c.buf i x) at vj))
        | no ji ↦
            let at = rw (update_ne c.buf i j x ji) at dj in
            rw (update_ne c.buf i j x ji)
              (w.bytes j lj at (rw (update_ne c.buf i j x ji) at vj) ∙ sym (others j lj ji at))
      ]

      Backed : ℕ → Type 0
      Backed b = (c.disk b ≡ v' b) ⊎ ((j : ℕ) × (j < nbuf) × Backs dev b (update c.buf i x j))

      now : (b : ℕ) → Backs dev b x → Backed b
      now b at =
          inr (i, low, subst (λ (y : Buf Block). Backs dev b y) (sym (update_self c.buf i x)) at)

      back :
          (b : ℕ)
          → (v' b ≡ v b) ⊎ Backs dev b x
          → (c.disk b ≡ v b) ⊎ ((j : ℕ) × (j < nbuf) × Backs dev b (c.buf j))
          → Backed b
      back b (inr at) before = now b at
      back b (inl e) (inl clean) = inl (clean ∙ sym e)
      back b (inl e) (inr (j, lj, at)) = elim (ℕ_discrete j i) [
        | no ji ↦
            inr
              (j, lj, subst (λ (y : Buf Block). Backs dev b y) (sym (update_ne c.buf i j x ji)) at)
        | yes ji ↦ elim (keep b (subst (λ (k : ℕ). Backs dev b (c.buf k)) ji at)) [
          | inl clean ↦ inl (clean ∙ sym e)
          | inr at' ↦ now b at'
        ]
      ]

  pub apart_lem :
      (v : ℕ → Block) (c : Bcache Block) (i : ℕ)
      → i < nbuf
      → IsCoherent dev v c
      → (j : ℕ) → j < nbuf
      → j ≢ i
      → (c.buf j).dev ≡ dev
      → (c.buf i).dev ≡ dev
      → (c.buf j).blockno ≢ (c.buf i).blockno
  apart_lem v c i low w j lj ji dj di e = ji (w.single j i lj low dj di e)

  pub hit-IsCoherent :
      (v : ℕ → Block) (c : Bcache Block) (i : ℕ)
      → i < nbuf
      → IsCoherent dev v c
      → IsCoherent dev v (hit c i)
  hit-IsCoherent v c i low w =
      set_buf-IsCoherent v v c i (record (c.buf i) { refcnt = (c.buf i).refcnt + 1 }) low w
        (apart_lem v c i low w) (w.bytes i low) (λ j lj ji dj. refl) (λ b. inl refl)
        (λ b at. let (holds, valid, busy) = at in inr (holds, valid, omega arith))

  pub recycle-IsCoherent :
      (v : ℕ → Block) (c : Bcache Block) (blockno i : ℕ)
      → i < nbuf
      → IsCoherent dev v c
      → (c.buf i).refcnt ≡ 0
      → ((j : ℕ) → j < nbuf → Holds dev blockno (c.buf j) → ⊥)
      → IsCoherent dev v (recycle c dev blockno i)
  recycle-IsCoherent v c blockno i low w free absent =
      set_buf-IsCoherent v v c i _ low w (λ j lj ji dj dx e. absent j lj (dj, e))
        (λ dx valid. absurd (false_true valid)) (λ j lj ji dj. refl) (λ b. inl refl)
        (λ b at. let (holds, valid, busy) = at in absurd (omega (arith, busy, free)))
    where
      false_true : false ≡ true → ⊥
      false_true e = cc

  pub in_list :
      (v : ℕ → Block) (c : Bcache Block) (i : ℕ)
      → IsCoherent dev v c
      → 0 < count i c.order
      → i < nbuf
  in_list v c i w some_i = let e = w.listed i in ground arith

  pub of_list :
      (v : ℕ → Block) (c : Bcache Block) (i : ℕ)
      → IsCoherent dev v c
      → i < nbuf
      → 0 < count i c.order
  of_list v c i w low = let e = w.listed i in ground arith
