-- ===== src/Kernel/Pages.antt =====
-- The allocator of memory pages: kernel/kalloc.c. `next` is the first word of each page, which links
-- the free pages; a null pointer is 0. `end` is the first address after the kernel, which the linker
-- defines. The junk in the rest of a page is not part of the state.
use g20_os_lab_project.Kernel.Types.{junk}
use g20_os_lab_project.Common.{
  ℕ, zero, suc, ◌+◌, ◌-◌, ◌*◌, ◌/◌, ◌%◌, ◌^◌, ◌==◌, ◌||◌, not, ltb, leb, if◌then◌else◌, Bool, true,
  false, update, Option, none, some,
}
pub mod Handing
pub mod Booting
pub mod Holding

abbrev pub pgsize : ℕ
pgsize = 4096

abbrev pub phystop : ℕ
phystop = 2 ^ 31 + 128 * 1024 * 1024

pub record Kmem : Type 0 where
  pub freelist : ℕ
  pub next : ℕ → ℕ

-- `none` is a panic.
unfoldable pub kfree : (end : ℕ) → Kmem → (pa : ℕ) → Option Kmem
kfree end k pa =
    if not (pa % pgsize == 0) || ltb pa end || leb phystop pa
    then none
    else some (record { freelist = pa; next = update k.next pa k.freelist })

-- The page, or 0.
unfoldable pub kalloc : Kmem → Kmem × ℕ
kalloc k =
    if k.freelist == 0
    then (k, 0)
    else (record { freelist = k.next k.freelist; next = update k.next k.freelist junk }, k.freelist)

-- The loop from the page `p` on, for `left` pages.
unfoldable pub free_pages : (end : ℕ) → Kmem → (p left : ℕ) → Option Kmem
unfolding kfree
free_pages end k p zero = some k
free_pages end k p (suc left) = elim (kfree end k p) [
  | none ↦ none
  | some k' ↦ free_pages end k' (p + pgsize) left
]

abbrev pub round_up : ℕ → ℕ
round_up sz = (sz + pgsize - 1) / pgsize * pgsize

-- As many pages as fit below pa_end.
unfoldable pub freerange : (end : ℕ) → Kmem → (pa_start pa_end : ℕ) → Option Kmem
unfolding free_pages
freerange end k pa_start pa_end =
    free_pages end k (round_up pa_start) ((pa_end - round_up pa_start) / pgsize)

unfoldable pub kinit : (end : ℕ) → Kmem → Option Kmem
unfolding freerange
kinit end k = freerange end k end phystop
