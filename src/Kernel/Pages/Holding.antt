-- ===== src/Kernel/Pages/Holding.antt =====
-- The pages that kernel/kalloc.c hands out, through any sequence of its calls.
use g20_os_lab_project.Common.{
  ℕ, ◌<◌, ◌≤◌, ◌≡◌, ◌≢◌, ◌⊎◌, inl, inr, ap, ◌∙◌, sym, subst, arith, Option, none, some, List, [],
  ◌∷◌, count,
}
use native.Mathlib.Decide.{ℕ_discrete}
use g20_os_lab_project.Sim.Parser.Bursts.{some_injective}
use g20_os_lab_project.Kernel.Cache.{unlink}
use g20_os_lab_project.Kernel.Pages.{Kmem, phystop, kfree, kalloc, kinit}
use g20_os_lab_project.Kernel.Pages.Handing.{
  IsPage, IsShared, PageRun, begin, alloc, alloc_fails, free, write, kalloc_lem, kfree_lem,
  write-IsShared,
}
use g20_os_lab_project.Kernel.Pages.Booting.{all_pages, kinit-IsShared, all_pages_lem}

-- The state after kinit, which does not panic.
abbrev pub after_kinit : (end : ℕ) → Kmem → Kmem
after_kinit end k = elim (kinit end k) [ some k' ↦ k' | none ↦ k ]

module _ (end : ℕ) (start : List ℕ) where
  alloc-IsShared :
      (d d' : Kmem) (held : List ℕ) (p : ℕ)
      → 0 < end
      → IsShared end start d held
      → kalloc d ≡ (d', p)
      → p ≢ 0
      → IsShared end start d' (p ∷ held)
  alloc-IsShared d d' held p positive w e ne = elim (kalloc_lem end start d held positive w) [
    | inl (d0, p0, e0, low, taken, some_start, w0) ↦
        subst (λ (x : Kmem × ℕ). IsShared end start x.0 (x.1 ∷ held)) (sym e0 ∙ e) w0
    | inr (e0, all) ↦ absurd (ne (ap (λ (x : Kmem × ℕ). x.1) (sym e ∙ e0)))
  ]

  alloc_fails-IsShared :
      (d d' : Kmem) (held : List ℕ)
      → 0 < end
      → IsShared end start d held
      → kalloc d ≡ (d', 0)
      → IsShared end start d' held
  alloc_fails-IsShared d d' held positive w e = elim (kalloc_lem end start d held positive w) [
    | inl (d0, p0, e0, low, taken, some_start, w0) ↦
        let same = ap (λ (x : Kmem × ℕ). x.1) (sym e0 ∙ e) in absurd (omega (arith, same, low))
    | inr (e0, all) ↦
        subst (λ (x : Kmem). IsShared end start x held) (ap (λ (x : Kmem × ℕ). x.0) (sym e0 ∙ e)) w
  ]

  free-IsShared :
      (d d' : Kmem) (held : List ℕ) (p : ℕ)
      → 0 < end
      → IsShared end start d held
      → 0 < count p held
      → kfree end d p ≡ some d'
      → IsShared end start d' (unlink p held)
  free-IsShared d d' held p positive w has e =
      let (d0, e0, w0) = kfree_lem end start d held p positive w has in
      subst (λ (x : Kmem). IsShared end start x (unlink p held)) (some_injective d0 d' (sym e0 ∙ e))
        w0

  PageRun-IsShared :
      {k d : Kmem} {held : List ℕ}
      → 0 < end
      → IsShared end start k []
      → PageRun end k d held
      → IsShared end start d held
  PageRun-IsShared positive w begin = w
  PageRun-IsShared positive w (alloc {d} {d'} {held} {p} r e ne) =
      alloc-IsShared d d' held p positive (PageRun-IsShared positive w r) e ne
  PageRun-IsShared positive w (alloc_fails {d} {d'} {held} r e) =
      alloc_fails-IsShared d d' held positive (PageRun-IsShared positive w r) e
  PageRun-IsShared positive w (free {d} {d'} {held} p r has e) =
      free-IsShared d d' held p positive (PageRun-IsShared positive w r) has e
  PageRun-IsShared positive w (write {d} {held} p word r has) =
      write-IsShared end start d held p word (PageRun-IsShared positive w r) has

-- Where the free list is empty and the kernel ends within the memory, not at address 0, kinit does not
-- panic. From there on, through any calls of kalloc, calls of kfree on pages that are held, and writes
-- into pages that are held: kalloc gives a whole page between the kernel and the end of the memory that
-- nobody holds, or gives 0 when every such page is held; and for every address, nobody holds it as
-- a page or kfree of it does not panic.
pub kalloc-PageRun :
    (end : ℕ) (k : Kmem) {d : Kmem} {held : List ℕ} (q : ℕ)
    → 0 < end
    → end ≤ phystop
    → k.freelist ≡ 0
    → PageRun end (after_kinit end k) d held
    → (kinit end k ≡ some (after_kinit end k))
      × (((d' : Kmem) × (p : ℕ) × (kalloc d ≡ (d', p))
            × IsPage end p
            × (0 < p)
            × (count p held ≡ 0))
          ⊎ ((kalloc d ≡ (d, 0)) × ((p : ℕ) → IsPage end p → 0 < count p held)))
      × ((count q held ≡ 0) ⊎ ((d' : Kmem) × (kfree end d q ≡ some d')))
kalloc-PageRun end k {d} {held} q positive low empty r =
    let (k', e, w) = kinit-IsShared end k positive low empty in
    let same = after k' e in
    let w' =
      PageRun-IsShared end (all_pages end) positive
        (subst (λ (x : Kmem). IsShared end (all_pages end) x []) (sym same) w) r in
    (
      e ∙ ap some (sym same),
      elim (kalloc_lem end (all_pages end) d held positive w') [
        | inl (d', p, e', low_p, taken, some_start, w'') ↦
            inl (d', p, e', w'.pages p some_start, low_p, taken)
        | inr (e', all) ↦
            inr (
              e',
              λ p page. let h = all_pages_lem end p page in let s = all p in omega (arith, h, s),
            )
      ],
      elim (ℕ_discrete (count q held) 0) [
        | yes nobody ↦ inl nobody
        | no has ↦
            let (d0, e0, w0) =
              kfree_lem end (all_pages end) d held q positive w' (omega (arith, has)) in
            inr (d0, e0)
      ],
    )
  where
    after : (k' : Kmem) → kinit end k ≡ some k' → after_kinit end k ≡ k'
    after k' e = ap (λ (o : Option Kmem). elim o [ some x ↦ x | none ↦ k ]) e
