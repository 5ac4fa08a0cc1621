-- ===== src/Kernel/Pages/Booting.antt =====
-- kinit of kernel/kalloc.c fills the free list.
use g20_os_lab_project.Common.{
  ℕ, zero, suc, ◌+◌, ◌-◌, ◌*◌, ◌/◌, ◌%◌, ◌<◌, ◌≤◌, ◌≡◌, ◌≢◌, refl, ap, sym, subst, arith, false,
  Option, none, some, List, [], ◌∷◌, ◌==◌, ◌||◌, not, ltb, leb, update, update_self, count, bit,
}
use native.Mathlib.Decide.{ℕ_discrete}
use g20_os_lab_project.Kernel.Pages.{
  Kmem, pgsize, phystop, kfree, free_pages, freerange, kinit, round_up,
}
use g20_os_lab_project.Kernel.Pages.Handing.{Chain, stop, link, Chain-update, IsPage, IsShared}

-- The pages that the loop frees, the last one first.
abbrev pub region : (p left : ℕ) → List ℕ → List ℕ
region p zero ps = ps
region p (suc left) ps = region (p + pgsize) left (p ∷ ps)

region-count : (p left : ℕ) (ps : List ℕ) (q : ℕ) → count q ps ≤ count q (region p left ps)
region-count p zero ps q = omega arith
region-count p (suc left) ps q =
    let e = region-count (p + pgsize) left (p ∷ ps) q in omega (arith, e)

region_covers :
    (p left : ℕ) (ps : List ℕ) (q : ℕ)
    → p % pgsize ≡ 0
    → q % pgsize ≡ 0
    → p ≤ q
    → q < p + left * pgsize
    → 0 < count q (region p left ps)
region_covers p zero ps q ap aq low high = absurd (omega (arith, low, high))
region_covers p (suc left) ps q ap aq low high = elim (ℕ_discrete p q) [
  | yes e ↦ let more = region-count (p + pgsize) left (p ∷ ps) q in omega (arith, more, here e)
  | no ne ↦
      region_covers (p + pgsize) left (p ∷ ps) q (omega (arith, ap)) aq
        (omega (arith, ap, aq, low, ne)) (omega (arith, high))
]
  where
    here : p ≡ q → 0 < count q (p ∷ ps)
    here e = ground arith

-- One more page.
add_page :
    (end : ℕ) (ps : List ℕ) (k : Kmem) (p : ℕ)
    → IsShared end ps k []
    → IsPage end p
    → 0 < p
    → ((q : ℕ) → 0 < count q ps → q < p)
    → IsShared end (p ∷ ps) (record { freelist = p; next = update k.next p k.freelist }) []
add_page end ps k p w page positive below = record {
  left = p ∷ w.left;
  chain = link positive (
      subst (λ (x : ℕ). Chain (update k.next p k.freelist) x w.left)
        (sym (update_self k.next p k.freelist))
        (Chain-update k.next k.freelist p k.freelist w.left (omega (arith, w.sum p, absent))
          w.chain));
  sum = λ q. omega (arith, w.sum q);
  once = λ q. elim (ℕ_discrete q p) [
    | yes e ↦ subst (λ (x : ℕ). count x (p ∷ ps) ≤ 1) (sym e) (omega (arith, absent, one))
    | no ne ↦ omega (arith, w.once q, other q ne)
  ];
  pages = λ q some_q. elim (ℕ_discrete q p) [
    | yes e ↦ rw e page
    | no ne ↦ w.pages q (omega (arith, some_q, other q ne))
  ];
}
  where
    absent : count p ps ≡ 0
    absent = elim (ℕ_discrete (count p ps) 0) [
      | yes e ↦ e
      | no ne ↦ absurd (omega (arith, below p (omega (arith, ne))))
    ]

    one : bit (p == p) ≡ 1
    one = ground arith

    other : (q : ℕ) → q ≢ p → bit (p == q) ≡ 0
    other q ne = ground arith

free_pages-IsShared :
    (end : ℕ) (ps : List ℕ) (k : Kmem) (p left : ℕ)
    → 0 < end
    → end ≤ p
    → p % pgsize ≡ 0
    → p + left * pgsize ≤ phystop
    → ((q : ℕ) → 0 < count q ps → q < p)
    → IsShared end ps k []
    → (k' : Kmem) × (free_pages end k p left ≡ some k') × IsShared end (region p left ps) k' []
unfolding free_pages kfree
free_pages-IsShared end ps k p zero positive low aligned high below w = (k, refl, w)
free_pages-IsShared end ps k p (suc left) positive low aligned high below w =
    let (k', e, w') =
      free_pages-IsShared end (p ∷ ps) (record { freelist = p; next = update k.next p k.freelist })
        (p + pgsize) left positive (omega (arith, low)) (omega (arith, aligned))
        (omega (arith, high)) below'
        (add_page end ps k p w (aligned, low, omega (arith, high)) (omega (arith, positive, low))
          below) in
    (
      k',
      subst
          (λ (o : Option Kmem).
            (elim o [ none ↦ none | some k1 ↦ free_pages end k1 (p + pgsize) left ]) ≡ some k')
          (sym freed) e,
      w',
    )
  where
    guard : (not (p % pgsize == 0) || ltb p end || leb phystop p) ≡ false
    guard = ground arith

    freed : kfree end k p ≡ some (record { freelist = p; next = update k.next p k.freelist })
    freed = rw guard refl

    below' : (q : ℕ) → 0 < count q (p ∷ ps) → q < p + pgsize
    below' q some_q = elim (ℕ_discrete q p) [
      | yes e ↦ omega (arith, e)
      | no ne ↦ let h = below q (other ne some_q) in omega (arith, h)
    ]
      where
        other : q ≢ p → 0 < count q (p ∷ ps) → 0 < count q ps
        other ne some_q = ground arith

-- The pages between the kernel and the end of the memory.
abbrev pub all_pages : (end : ℕ) → List ℕ
all_pages end = region (round_up end) ((phystop - round_up end) / pgsize) []

pub kinit-IsShared :
    (end : ℕ) (k : Kmem)
    → 0 < end
    → end ≤ phystop
    → k.freelist ≡ 0
    → (k' : Kmem) × (kinit end k ≡ some k') × IsShared end (all_pages end) k' []
unfolding kinit freerange
kinit-IsShared end k positive low empty =
    free_pages-IsShared end [] k (round_up end) ((phystop - round_up end) / pgsize) positive
      (omega arith) (omega arith) (omega (arith, low)) (λ q some_q. absurd (omega (arith, some_q)))
      (record {
        left = [];
        chain = subst (λ (x : ℕ). Chain k.next x []) (sym empty) stop;
        sum = λ q. refl;
        once = λ q. omega arith;
        pages = λ q some_q. absurd (omega (arith, some_q));
      })

pub all_pages_lem : (end p : ℕ) → IsPage end p → 0 < count p (all_pages end)
all_pages_lem end p (aligned, low, high) =
    region_covers (round_up end) ((phystop - round_up end) / pgsize) [] p (omega arith) aligned
      (omega (arith, aligned, low)) (omega (arith, aligned, low, high))
