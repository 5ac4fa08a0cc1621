-- ===== src/Kernel/Cache/Coherent.antt =====
-- What the buffer cache of kernel/bio.c promises, and its searches.
use g20_os_lab_project.Common.{
  ℕ, zero, suc, ◌+◌, ◌<◌, ◌≡◌, ◌≢◌, ◌⊎◌, inl, inr, refl, ap, sym, subst, arith, true, false, none,
  some, List, [], ◌∷◌, Bool-cases, ◌==◌, ◌&&◌, ==→eq, count, bit, ltb,
}
use native.Mathlib.Decide.{ℕ_discrete}
use g20_os_lab_project.Kernel.Cache.{
  Buf, Bcache, nbuf, find_cached, find_unused, unlink, backwards, binit,
}

-- Moving a buffer to the front keeps what is in the list.
pub count-unlink :
    (i : ℕ) (order : List ℕ) (j : ℕ)
    → 0 < count i order
    → count j (i ∷ unlink i order) ≡ count j order
count-unlink i [] j some_i = absurd (omega (arith, some_i))
count-unlink i (k ∷ order) j some_i = elim (Bool-cases (k == i)) [
  | inl same ↦
      rw same (let e = ==→eq k i same in ap (λ (x : ℕ). bit (x == j) + count j order) (sym e))
  | inr other ↦
      let low = rw other at some_i in
      rw other (omega (arith, count-unlink i order j (omega (arith, low))))
]

module _ {Block : Type 0} where
  abbrev pub Holds : (dev blockno : ℕ) → Buf Block → Type 0
  Holds dev blockno b = (b.dev ≡ dev) × (b.blockno ≡ blockno)

  -- A buffer in use has the block.
  abbrev pub Backs : (dev blockno : ℕ) → Buf Block → Type 0
  Backs dev blockno b = Holds dev blockno b × (b.valid ≡ true) × (0 < b.refcnt)

  -- Whether a buffer has been found.
  pub find_cached_lem :
      (buf : ℕ → Buf Block) (dev blockno : ℕ) (order : List ℕ)
      → ((i : ℕ) × (find_cached buf dev blockno order ≡ some i)
          × (0 < count i order)
          × Holds dev blockno (buf i))
        ⊎ ((find_cached buf dev blockno order ≡ none)
            × ((j : ℕ) → 0 < count j order → Holds dev blockno (buf j) → ⊥))
  unfolding find_cached
  find_cached_lem buf dev blockno [] = inr (refl, λ j some_j. absurd (omega (arith, some_j)))
  find_cached_lem buf dev blockno (i ∷ order) =
      elim (Bool-cases (((buf i).dev == dev) && ((buf i).blockno == blockno))) [
        | inl yes_i ↦ inl (i, rw yes_i refl, ground arith, both yes_i)
        | inr no_i ↦ elim (find_cached_lem buf dev blockno order) [
          | inl (k, e, low, at) ↦ inl (k, rw no_i e, omega (arith, low), at)
          | inr (e, absent) ↦ inr (
            rw no_i e,
            λ j low at. elim (ℕ_discrete j i) [
              | yes same ↦ not_at no_i (subst (λ (x : ℕ). Holds dev blockno (buf x)) same at)
              | no other ↦ absent j (ground arith) at
            ],
          )
        ]
      ]
    where
      both :
          (((buf i).dev == dev) && ((buf i).blockno == blockno)) ≡ true → Holds dev blockno (buf i)
      both e = ground arith

      not_at :
          (((buf i).dev == dev) && ((buf i).blockno == blockno)) ≡ false
          → Holds dev blockno (buf i)
          → ⊥
      not_at e at = ground arith

  pub find_unused_lem :
      (buf : ℕ → Buf Block) (order : List ℕ)
      → ((i : ℕ) × (find_unused buf order ≡ some i) × (0 < count i order) × ((buf i).refcnt ≡ 0))
        ⊎ ((find_unused buf order ≡ none) × ((j : ℕ) → 0 < count j order → 0 < (buf j).refcnt))
  unfolding find_unused
  find_unused_lem buf [] = inr (refl, λ j some_j. absurd (omega (arith, some_j)))
  find_unused_lem buf (i ∷ order) = elim (find_unused_lem buf order) [
    | inl (k, e, low, free) ↦ inl (k, rw e refl, omega (arith, low), free)
    | inr (e, used_all) ↦ elim (Bool-cases ((buf i).refcnt == 0)) [
      | inl free ↦ inl (i, rw (e, free) refl, ground arith, ==→eq (buf i).refcnt 0 free)
      | inr busy ↦ inr (
        rw (e, busy) refl,
        λ j low. elim (ℕ_discrete j i) [
          | yes same ↦ rw same (positive busy)
          | no other ↦ used_all j (ground arith)
        ],
      )
    ]
  ]
    where
      positive : ((buf i).refcnt == 0) ≡ false → 0 < (buf i).refcnt
      positive e = ground arith

-- Every buffer is in the list once; of the buffers of the device `dev` no two hold the same block, and
-- one that is valid has the contents `v` of its block; a block has them on the disk, or in a buffer that
-- is in use.
pub record IsCoherent {Block : Type 0} (dev : ℕ) (v : ℕ → Block) (c : Bcache Block) : Type 0 where
  pub listed : (i : ℕ) → count i c.order ≡ bit (ltb i nbuf)
  pub single :
      (i j : ℕ)
      → i < nbuf
      → j < nbuf
      → (c.buf i).dev ≡ dev
      → (c.buf j).dev ≡ dev
      → (c.buf i).blockno ≡ (c.buf j).blockno
      → i ≡ j
  pub bytes :
      (i : ℕ)
      → i < nbuf
      → (c.buf i).dev ≡ dev
      → (c.buf i).valid ≡ true
      → (c.buf i).bytes ≡ v (c.buf i).blockno
  pub backed : (b : ℕ) → (c.disk b ≡ v b) ⊎ ((i : ℕ) × (i < nbuf) × Backs dev b (c.buf i))

count-backwards : (n i : ℕ) → count i (backwards n) ≡ bit (ltb i n)
count-backwards zero i = ground arith
count-backwards (suc n) i = let e = count-backwards n i in ground arith

-- After binit, before any block of the device is read.
pub binit-IsCoherent :
    {Block : Type 0} (dev : ℕ) (c : Bcache Block)
    → ((i : ℕ) → (c.buf i).dev ≢ dev)
    → IsCoherent dev c.disk (binit c)
unfolding binit
binit-IsCoherent dev c others = record {
  listed = count-backwards nbuf;
  single = λ i j li lj di dj e. absurd (others i di);
  bytes = λ i low di valid. absurd (others i di);
  backed = λ b. inl refl;
}
