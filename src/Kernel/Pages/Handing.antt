-- ===== src/Kernel/Pages/Handing.antt =====
-- The free list of kernel/kalloc.c through any sequence of its calls.
use g20_os_lab_project.Kernel.Types.{junk}
use g20_os_lab_project.Common.{
  ℕ, ◌+◌, ◌%◌, ◌<◌, ◌≤◌, ◌≡◌, ◌≢◌, ◌⊎◌, inl, inr, refl, sym, subst, arith, true, false, some, List,
  [], ◌∷◌, ◌==◌, ◌||◌, not, ltb, leb, ==_self, update, update_self, update_ne, count,
}
use g20_os_lab_project.Kernel.Cache.{unlink}
use g20_os_lab_project.Kernel.Cache.Coherent.{count-unlink}
use g20_os_lab_project.Kernel.Pages.{Kmem, pgsize, phystop, kfree, kalloc}

-- The pages that the links join, from `p` to a null pointer.
pub data Chain (next : ℕ → ℕ) : (p : ℕ) → List ℕ → Type 0 where
  stop : Chain next 0 []
  link : {p : ℕ} {ps : List ℕ} → 0 < p → Chain next (next p) ps → Chain next p (p ∷ ps)

-- A change outside of the chain.
pub Chain-update :
    (next : ℕ → ℕ) (p q w : ℕ) (ps : List ℕ)
    → count q ps ≡ 0
    → Chain next p ps
    → Chain (update next q w) p ps
Chain-update next _ q w _ absent (stop) = stop
Chain-update next _ q w _ absent (link {p} {ps} low more) = link low (
    subst (λ (x : ℕ). Chain (update next q w) x ps) (sym (update_ne next q p w (ne absent)))
      (Chain-update next (next p) q w ps (omega (arith, absent)) more))
  where
    ne : count q (p ∷ ps) ≡ 0 → p ≢ q
    ne absent e = ground arith

abbrev pub IsPage : (end p : ℕ) → Type 0
IsPage end p = (p % pgsize ≡ 0) × (end ≤ p) × (p < phystop)

-- The pages of the start are free or held, never both and none twice.
pub record IsShared (end : ℕ) (start : List ℕ) (k : Kmem) (held : List ℕ) : Type 0 where
  pub left : List ℕ
  pub chain : Chain k.next k.freelist left
  pub sum : (p : ℕ) → count p left + count p held ≡ count p start
  pub once : (p : ℕ) → count p start ≤ 1
  pub pages : (p : ℕ) → 0 < count p start → IsPage end p

-- Calls of kalloc and kfree and writes into pages that are held, with the pages that are held.
pub data PageRun (end : ℕ) (k : Kmem) : Kmem → List ℕ → Type 0 where
  begin : PageRun end k k []
  alloc :
      {d d' : Kmem} {held : List ℕ} {p : ℕ}
      → PageRun end k d held
      → kalloc d ≡ (d', p)
      → p ≢ 0
      → PageRun end k d' (p ∷ held)
  alloc_fails :
      {d d' : Kmem} {held : List ℕ}
      → PageRun end k d held
      → kalloc d ≡ (d', 0)
      → PageRun end k d' held
  free :
      {d d' : Kmem} {held : List ℕ} (p : ℕ)
      → PageRun end k d held
      → 0 < count p held
      → kfree end d p ≡ some d'
      → PageRun end k d' (unlink p held)
  write :
      {d : Kmem} {held : List ℕ} (p word : ℕ)
      → PageRun end k d held
      → 0 < count p held
      → PageRun end k (record d { next = update d.next p word }) held

module _ (end : ℕ) (start : List ℕ) where
  -- A page is taken from the list, or there is none.
  pub kalloc_lem :
      (d : Kmem) (held : List ℕ)
      → 0 < end
      → IsShared end start d held
      → ((d' : Kmem) × (p : ℕ) × (kalloc d ≡ (d', p))
          × (0 < p)
          × (count p held ≡ 0)
          × (0 < count p start)
          × IsShared end start d' (p ∷ held))
        ⊎ ((kalloc d ≡ (d, 0)) × ((p : ℕ) → count p held ≡ count p start))
  unfolding kalloc
  kalloc_lem d held positive w = go d.freelist refl w.left w.chain w.sum
    where
      go :
          (p : ℕ)
          → d.freelist ≡ p
          → (ps : List ℕ) → Chain d.next p ps
          → ((q : ℕ) → count q ps + count q held ≡ count q start)
          → ((d' : Kmem) × (p : ℕ) × (kalloc d ≡ (d', p))
              × (0 < p)
              × (count p held ≡ 0)
              × (0 < count p start)
              × IsShared end start d' (p ∷ held))
            ⊎ ((kalloc d ≡ (d, 0)) × ((p : ℕ) → count p held ≡ count p start))
      go _ e _ (stop) sum = inr (rw (empty e) refl, λ q. omega (arith, sum q))
        where
          empty : d.freelist ≡ 0 → (d.freelist == 0) ≡ true
          empty e = ground arith
      go _ e _ (link {p} {ps} low more) sum = inl (
        record { freelist = d.next d.freelist; next = update d.next d.freelist junk },
        d.freelist,
        rw (filled low e) refl,
        omega (arith, e, low),
        taken,
        some_start,
        record {
          left = ps;
          chain =
              subst (λ (x : ℕ). Chain (update d.next x junk) (d.next x) ps) (sym e)
                (Chain-update d.next (d.next p) p junk ps absent more);
          sum = λ q.
              let s = sum q in
              subst (λ (x : ℕ). count q ps + count q (x ∷ held) ≡ count q start) (sym e)
                (omega (arith, s));
          once = w.once;
          pages = w.pages;
        },
      )
        where
          filled : 0 < p → d.freelist ≡ p → (d.freelist == 0) ≡ false
          filled low e = ground arith

          at_p : (1 + count p ps) + count p held ≡ count p start
          at_p = let s = sum p in rw (==_self p) at s

          absent : count p ps ≡ 0
          absent = omega (arith, at_p, w.once p)

          taken : count d.freelist held ≡ 0
          taken = subst (λ (x : ℕ). count x held ≡ 0) (sym e) (omega (arith, at_p, w.once p))

          some_start : 0 < count d.freelist start
          some_start = subst (λ (x : ℕ). 0 < count x start) (sym e) (omega (arith, at_p))

  -- A page that is held goes back to the front of the list.
  pub kfree_lem :
      (d : Kmem) (held : List ℕ) (p : ℕ)
      → 0 < end
      → IsShared end start d held
      → 0 < count p held
      → (d' : Kmem) × (kfree end d p ≡ some d') × IsShared end start d' (unlink p held)
  unfolding kfree
  kfree_lem d held p positive w has = (
    record { freelist = p; next = update d.next p d.freelist },
    rw guard refl,
    record {
      left = p ∷ w.left;
      chain = link (omega (arith, positive, page.1)) (
          subst (λ (x : ℕ). Chain (update d.next p d.freelist) x w.left)
            (sym (update_self d.next p d.freelist))
            (Chain-update d.next d.freelist p d.freelist w.left
              (omega (arith, w.sum p, w.once p, has)) w.chain));
      sum = λ q. omega (arith, w.sum q, count-unlink p held q has);
      once = w.once;
      pages = w.pages;
    },
  )
    where
      page : IsPage end p
      page = w.pages p (omega (arith, w.sum p, has))

      guard : (not (p % pgsize == 0) || ltb p end || leb phystop p) ≡ false
      guard = let (aligned, low, high) = page in ground arith

  pub write-IsShared :
      (d : Kmem) (held : List ℕ) (p word : ℕ)
      → IsShared end start d held
      → 0 < count p held
      → IsShared end start (record d { next = update d.next p word }) held
  write-IsShared d held p word w has = record {
    left = w.left;
    chain =
        Chain-update d.next d.freelist p word w.left (omega (arith, w.sum p, w.once p, has))
          w.chain;
    sum = w.sum;
    once = w.once;
    pages = w.pages;
  }
