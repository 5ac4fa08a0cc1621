-- ===== src/Kernel/Growth.antt =====
-- The size of a process's memory: growproc of kernel/proc.c, sys_sbrk of kernel/sysproc.c, and the
-- value that uvmdealloc of kernel/vm.c returns. Addresses are 64-bit words. Whether uvmalloc finds the
-- memory is an argument; the page tables are not part of the state.
pub mod Sizes
use g20_os_lab_project.Common.{
  ℕ, ◌+◌, ◌-◌, ◌*◌, ◌%◌, ◌^◌, suc, ◌==◌, ◌||◌, ltb, leb, if◌then◌else◌, ℤ, pos, negsuc, Bool, true,
  false, Option, none, some,
}
use g20_os_lab_project.Kernel.Types.{Proc}

-- TRAPFRAME of kernel/memlayout.h: two pages below MAXVA.
abbrev pub trapframe_page : ℕ
trapframe_page = 2 ^ 38 - 2 * 4096

-- `sz + n` in 64-bit arithmetic, for an `int` n.
abbrev pub add_word : ℕ → ℤ → ℕ
add_word sz (pos n) = (sz + n) % 2 ^ 64
add_word sz (negsuc n) = (sz + 2 ^ 64 - suc n) % 2 ^ 64

unfoldable pub uvmdealloc : (oldsz newsz : ℕ) → ℕ
uvmdealloc oldsz newsz = if leb oldsz newsz then oldsz else newsz

-- uvmalloc returns the new size, the old one for a smaller new size, or 0 without memory.
unfoldable pub uvmalloc : (grown : Bool) (oldsz newsz : ℕ) → ℕ
uvmalloc grown oldsz newsz = if ltb newsz oldsz then oldsz else if grown then newsz else 0

-- `none` is -1.
unfoldable pub growproc : (grown : Bool) → Proc → ℤ → Option Proc
growproc grown p (pos n) =
    if n == 0
    then some p
    else if ltb trapframe_page (add_word p.sz (pos n))
    then none
    else let sz = uvmalloc grown p.sz (add_word p.sz (pos n)) in
      if sz == 0 then none else some (record p { sz = sz })
growproc grown p (negsuc n) = some (record p { sz = uvmdealloc p.sz (add_word p.sz (negsuc n)) })

-- SBRK_EAGER is 1; the tests of sys_sbrk for a lazy growth by `n`.
unfoldable pub grow_lazily : Proc → ℕ → Option Proc
grow_lazily p n =
    if ltb (add_word p.sz (pos n)) p.sz
    then none
    else if ltb trapframe_page (add_word p.sz (pos n))
    then none
    else some (record p { sz = add_word p.sz (pos n) })

-- sys_sbrk with its arguments read.
unfoldable pub sbrk : (grown : Bool) → Proc → (n t : ℤ) → Option Proc
unfolding growproc grow_lazily
sbrk grown p (negsuc n) t = growproc grown p (negsuc n)
sbrk grown p (pos n) (pos t) = if t == 1 then growproc grown p (pos n) else grow_lazily p n
sbrk grown p (pos n) (negsuc t) = grow_lazily p n
