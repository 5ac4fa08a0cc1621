-- ===== src/Kernel/PageTests.antt =====
-- The allocator of pages (kernel/kalloc.c) in a memory of two pages.
use g20_os_lab_project.Common.{ℕ, ◌-◌, ◌<◌, ◌≡◌, ◌⊎◌, refl, some, arith, [], ◌∷◌, count}
use g20_os_lab_project.Kernel.Pages.{Kmem, phystop, kfree, kalloc, kinit, freerange, free_pages}
use g20_os_lab_project.Kernel.Pages.Handing.{IsPage, PageRun}
use g20_os_lab_project.Kernel.Pages.Holding.{after_kinit, kalloc-PageRun}

abbrev end : ℕ
end = phystop - 8192

abbrev no_pages : Kmem
no_pages = record { freelist = 0; next = λ p. 7 }

-- The state after the first call of kalloc.
abbrev one_left : Kmem
one_left = (kalloc (after_kinit end no_pages)).0

kalloc-PageRun_example :
    (kinit end no_pages ≡ some (after_kinit end no_pages))
    × (((d' : Kmem) × (p : ℕ) × (kalloc one_left ≡ (d', p))
          × IsPage end p
          × (0 < p)
          × (count p ((phystop - 4096) ∷ []) ≡ 0))
        ⊎ ((kalloc one_left ≡ (one_left, 0))
            × ((p : ℕ) → IsPage end p → 0 < count p ((phystop - 4096) ∷ []))))
    × ((count (phystop - 4096) ((phystop - 4096) ∷ []) ≡ 0)
        ⊎ ((d' : Kmem) × (kfree end one_left (phystop - 4096) ≡ some d')))
unfolding kinit freerange free_pages kfree kalloc
kalloc-PageRun_example =
    kalloc-PageRun end no_pages (phystop - 4096) (omega arith) (omega arith) refl
      (PageRun.alloc PageRun.begin refl (λ e. omega (arith, e)))
