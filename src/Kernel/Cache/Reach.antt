-- ===== src/Kernel/Cache/Reach.antt =====
-- The buffer cache of kernel/bio.c through any sequence of its operations.
use g20_os_lab_project.Common.{
  ap, arith, ℕ, ◌<◌, ◌≡◌, ◌≢◌, ◌⊎◌, inl, inr, ◌∙◌, sym, subst, true, none, some, update,
}
use native.Mathlib.Decide.{ℕ_discrete}
use g20_os_lab_project.Sim.Parser.Bursts.{some_injective}
use g20_os_lab_project.Kernel.Cache.{
  Bcache, nbuf, binit, bget, read_buf, bwrite, brelse, bpin, bunpin,
}
use g20_os_lab_project.Kernel.Cache.Coherent.{Holds, Backs, IsCoherent, binit-IsCoherent}
use g20_os_lab_project.Kernel.Cache.Keeping.{hit-IsCoherent}
use g20_os_lab_project.Kernel.Cache.Getting.{bget_lem, read_buf-IsCoherent}
use g20_os_lab_project.Kernel.Cache.Releasing.{
  modify, modify-IsCoherent, bwrite-IsCoherent, drop_ref-IsCoherent, brelse-IsCoherent,
}

-- The calls of bio.c on the device `dev`, in any order, with the contents that the blocks have: those
-- of the start, until the owner of a buffer that was read changes them. A buffer is left to others by
-- its last user only when the disk has its contents.
pub data CacheRun {Block : Type 0} (dev : ℕ) (c : Bcache Block) (v : ℕ → Block)
    : Bcache Block → (ℕ → Block) → Type 0 where
  start : CacheRun dev c v c v
  get :
      {d d' : Bcache Block} {u : ℕ → Block} {i : ℕ} (blockno : ℕ)
      → CacheRun dev c v d u
      → bget d dev blockno ≡ some (d', i)
      → CacheRun dev c v d' u
  read :
      {d : Bcache Block} {u : ℕ → Block} (i : ℕ)
      → CacheRun dev c v d u
      → i < nbuf
      → (d.buf i).dev ≡ dev
      → 0 < (d.buf i).refcnt
      → CacheRun dev c v (read_buf d i) u
  change :
      {d : Bcache Block} {u : ℕ → Block} (i : ℕ) (y : Block)
      → CacheRun dev c v d u
      → i < nbuf
      → Backs dev (d.buf i).blockno (d.buf i)
      → CacheRun dev c v (modify d i y) (update u (d.buf i).blockno y)
  write :
      {d : Bcache Block} {u : ℕ → Block} (i : ℕ)
      → CacheRun dev c v d u
      → i < nbuf
      → (d.buf i).dev ≡ dev
      → (d.buf i).valid ≡ true
      → CacheRun dev c v (bwrite d i) u
  pin :
      {d : Bcache Block} {u : ℕ → Block} (i : ℕ)
      → CacheRun dev c v d u
      → i < nbuf
      → CacheRun dev c v (bpin d i) u
  unpin :
      {d : Bcache Block} {u : ℕ → Block} (i : ℕ)
      → CacheRun dev c v d u
      → i < nbuf
      → (1 < (d.buf i).refcnt) ⊎ (d.disk (d.buf i).blockno ≡ u (d.buf i).blockno)
      → CacheRun dev c v (bunpin d i) u
  release :
      {d : Bcache Block} {u : ℕ → Block} (i : ℕ)
      → CacheRun dev c v d u
      → i < nbuf
      → (1 < (d.buf i).refcnt) ⊎ (d.disk (d.buf i).blockno ≡ u (d.buf i).blockno)
      → CacheRun dev c v (brelse d i) u

module _ {Block : Type 0} (dev : ℕ) where
  bget-IsCoherent :
      (u : ℕ → Block) (d d' : Bcache Block) (i blockno : ℕ)
      → IsCoherent dev u d
      → bget d dev blockno ≡ some (d', i)
      → IsCoherent dev u d'
  bget-IsCoherent u d d' i blockno w e = elim (bget_lem dev u d blockno w) [
    | inl (d0, i0, e0, low, holds, busy, w0) ↦
        subst (λ (x : Bcache Block × ℕ). IsCoherent dev u x.0)
          (some_injective (d0, i0) (d', i) (sym e0 ∙ e)) w0
    | inr (e0, full) ↦ absurd (none_some (sym e0 ∙ e))
  ]
    where
      none_some : {a : Bcache Block × ℕ} → none ≡ some a → ⊥
      none_some e = cc

  CacheRun-IsCoherent :
      {c : Bcache Block} {v : ℕ → Block} {d : Bcache Block} {u : ℕ → Block}
      → IsCoherent dev v c
      → CacheRun dev c v d u
      → IsCoherent dev u d
  unfolding bpin bunpin
  CacheRun-IsCoherent w start = w
  CacheRun-IsCoherent w (get {d} {d'} {u} {i} blockno r e) =
      bget-IsCoherent u d d' i blockno (CacheRun-IsCoherent w r) e
  CacheRun-IsCoherent w (read {d} {u} i r low di busy) =
      (read_buf-IsCoherent dev u d i low di busy (CacheRun-IsCoherent w r)).0
  CacheRun-IsCoherent w (change {d} {u} i y r low at) =
      modify-IsCoherent dev u d i y low at (CacheRun-IsCoherent w r)
  CacheRun-IsCoherent w (write {d} {u} i r low di valid) =
      (bwrite-IsCoherent dev u d i low di valid (CacheRun-IsCoherent w r)).0
  CacheRun-IsCoherent w (pin {d} {u} i r low) =
      hit-IsCoherent dev u d i low (CacheRun-IsCoherent w r)
  CacheRun-IsCoherent w (unpin {d} {u} i r low safe) =
      drop_ref-IsCoherent dev u d i low safe (CacheRun-IsCoherent w r)
  CacheRun-IsCoherent w (release {d} {u} i r low safe) =
      brelse-IsCoherent dev u d i low safe (CacheRun-IsCoherent w r)

-- From binit on, when no buffer belongs to the device, through any sequence of calls in which a
-- changed buffer is pinned or written before its last user leaves it: bget gives a buffer of the block
-- that is asked for, in use, which no other buffer holds, and reading it gives the last contents of the
-- block, those of the disk at the start if nobody changed them; or it panics where all 30
-- buffers are in use. And each of the 30 buffers is free, or belongs to another device, or gives the
-- last contents of its block when it is read.
pub CacheRun-bget :
    {Block : Type 0} (dev : ℕ) (c : Bcache Block) {d : Bcache Block} {u : ℕ → Block} (i blockno : ℕ)
    → ((j : ℕ) → (c.buf j).dev ≢ dev)
    → CacheRun dev (binit c) c.disk d u
    → i < nbuf
    → (((d' : Bcache Block) × (k : ℕ) × (bget d dev blockno ≡ some (d', k))
          × (k < nbuf)
          × Holds dev blockno (d'.buf k)
          × (0 < (d'.buf k).refcnt)
          × (((read_buf d' k).buf k).bytes ≡ u blockno)
          × ((j : ℕ) → j < nbuf → Holds dev blockno (d'.buf j) → j ≡ k))
        ⊎ ((bget d dev blockno ≡ none) × ((j : ℕ) → j < nbuf → 0 < (d.buf j).refcnt)))
      × (((d.buf i).refcnt ≡ 0)
          ⊎ (((d.buf i).dev ≢ dev) ⊎ (((read_buf d i).buf i).bytes ≡ u (d.buf i).blockno)))
CacheRun-bget dev c {d} {u} i blockno others r low = (
  elim (bget_lem dev u d blockno w) [
    | inl (d', k, e, lk, (dk, bk), used_k, w') ↦
        let (w'', valid, bytes) = read_buf-IsCoherent dev u d' k lk dk used_k w' in
        inl (
          d',
          k,
          e,
          lk,
          (dk, bk),
          used_k,
          bytes ∙ ap u bk,
          λ j lj at. let (dj, bj) = at in w'.single j k lj lk dj dk (bj ∙ sym bk),
        )
    | inr full ↦ inr full
  ],
  elim (ℕ_discrete (d.buf i).refcnt 0) [
    | yes free ↦ inl free
    | no busy ↦ inr (elim (ℕ_discrete (d.buf i).dev dev) [
      | no other ↦ inl other
      | yes di ↦
          let (w', valid, bytes) = read_buf-IsCoherent dev u d i low di (omega (arith, busy)) w in
          inr bytes
    ])
  ],
)
  where
    w : IsCoherent dev u d
    w = CacheRun-IsCoherent dev (binit-IsCoherent dev c others) r
