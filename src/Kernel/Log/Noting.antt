-- ===== src/Kernel/Log/Noting.antt =====
-- What log_write of kernel/log.c notes in the header.
use g20_os_lab_project.Common.{
  ℕ, zero, suc, ◌+◌, ◌≤◌, ◌<◌, ◌≡◌, ◌≢◌, ◌⊎◌, inl, inr, refl, ap, ◌∙◌, sym, arith, Bool, true,
  false, some, Bool-cases, ◌==◌, ◌||◌, ==→eq, ==→ne, update, update_self, update_ne, if◌then◌else◌,
  ltb, leb,
}
use native.Mathlib.Decide.{ℕ_discrete}
use g20_os_lab_project.Kernel.Log.{LogHeader, LogState, find_block, log_write, logblocks}

-- The search ends at the first entry with the block, or after the last entry.
record Searched (h : LogHeader) (b i left r : ℕ) : Type 0 where
  low : i ≤ r
  before : (j : ℕ) → i ≤ j → j < r → h.block j ≢ b
  result : (r ≡ i + left) ⊎ ((r < i + left) × (h.block r ≡ b))

find_block-Searched : (h : LogHeader) (b i left : ℕ) → Searched h b i left (find_block h b i left)
unfolding find_block
find_block-Searched h b i zero = record {
  low = omega arith;
  before = λ j low high. absurd (omega (arith, low, high));
  result = inl (omega arith);
}
find_block-Searched h b i (suc left) = elim (Bool-cases (h.block i == b)) [
  | inl hit ↦ rw hit (record {
    low = omega arith;
    before = λ j low high. absurd (omega (arith, low, high));
    result = inr (omega arith, ==→eq (h.block i) b hit);
  })
  | inr other ↦
      let s = find_block-Searched h b (i + 1) left in
      rw other (record {
        low = omega (arith, s.low);
        before = λ j low high. elim (ℕ_discrete j i) [
          | yes e ↦ rw e (==→ne (h.block i) b other)
          | no ne ↦ s.before j (omega (arith, low, ne)) high
        ];
        result = elim s.result [
          | inl end ↦ inl (omega (arith, end))
          | inr (inside, e) ↦ inr (omega (arith, inside), e)
        ];
      })
]

-- The block `b` is noted: a new block at the end, and a known one where it is.
pub record Noted (l : LogState) (b : ℕ) (l' : LogState) (fresh : Bool) : Type 0 where
  pub size :
      ((fresh ≡ true)
        × (l'.lh.n ≡ l.lh.n + 1)
        × (l'.lh.block l.lh.n ≡ b)
        × ((i : ℕ) → i < l.lh.n → l.lh.block i ≢ b))
      ⊎ ((fresh ≡ false) × (l'.lh.n ≡ l.lh.n) × ((i : ℕ) × (i < l.lh.n) × (l.lh.block i ≡ b)))
  pub kept : (i : ℕ) → i < l.lh.n → l'.lh.block i ≡ l.lh.block i
  pub outstanding : l'.outstanding ≡ l.outstanding
  pub committing : l'.committing ≡ l.committing

pub log_write-Noted :
    (l : LogState) (b : ℕ)
    → l.lh.n < logblocks
    → 0 < l.outstanding
    → (l' : LogState) × (fresh : Bool) × (log_write l b ≡ some (l', fresh)) × Noted l b l' fresh
unfolding log_write
log_write-Noted l b room inside = (
  noted (if r == l.lh.n then l.lh.n + 1 else l.lh.n),
  r == l.lh.n,
  rw guard refl,
  elim (Bool-cases (r == l.lh.n)) [
    | inl end ↦ rw end (at_end (==→eq r l.lh.n end))
    | inr known ↦ rw known (at_known (==→ne r l.lh.n known) s.result)
  ],
)
  where
    r : ℕ
    r = find_block l.lh b 0 l.lh.n

    s : Searched l.lh b 0 l.lh.n r
    s = find_block-Searched l.lh b 0 l.lh.n

    guard : (leb logblocks l.lh.n || ltb l.outstanding 1) ≡ false
    guard = ground arith

    noted : ℕ → LogState
    noted n = record l { lh = record { n = n; block = update l.lh.block r b } }

    at_end : r ≡ l.lh.n → Noted l b (noted (l.lh.n + 1)) true
    at_end e = record {
      size = inl (
        refl,
        refl,
        ap (update l.lh.block r b) (sym e) ∙ update_self l.lh.block r b,
        λ i low. s.before i (omega arith) (omega (arith, low, e)),
      );
      kept = λ i low. update_ne l.lh.block r i b (λ same. omega (arith, same, low, e));
      outstanding = refl;
      committing = refl;
    }

    at_known :
        r ≢ l.lh.n
        → (r ≡ 0 + l.lh.n) ⊎ ((r < 0 + l.lh.n) × (l.lh.block r ≡ b))
        → Noted l b (noted l.lh.n) false
    at_known ne (inl e) = absurd (ne (omega (arith, e)))
    at_known ne (inr (low, e)) = record {
      size = inr (refl, refl, (r, omega (arith, low), e));
      kept = λ i small. elim (ℕ_discrete i r) [
        | yes same ↦
            ap (update l.lh.block r b) same
            ∙ update_self l.lh.block r b
            ∙ sym e
            ∙ ap l.lh.block (sym same)
        | no other ↦ update_ne l.lh.block r i b other
      ];
      outstanding = refl;
      committing = refl;
    }
