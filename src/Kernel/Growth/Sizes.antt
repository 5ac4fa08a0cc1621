-- ===== src/Kernel/Growth/Sizes.antt =====
-- The sizes that growproc (kernel/proc.c) and sys_sbrk (kernel/sysproc.c) can give a process.
use g20_os_lab_project.Common.{
  ℕ, ◌+◌, ◌-◌, ◌^◌, ◌≤◌, ◌<◌, ◌≡◌, ◌&&◌, ◌||◌, not, ◌==◌, suc, ltb, if◌then◌else◌, ℤ, pos, negsuc,
  Bool, Option, none, some, arith, eqb_ℤ,
}
use g20_os_lab_project.Kernel.Types.{Proc}
use g20_os_lab_project.Kernel.Growth.{
  trapframe_page, uvmdealloc, uvmalloc, growproc, grow_lazily, sbrk,
}

-- What sbrk gives by a plain account: a growth fails past TRAPFRAME, or if it is eager and the memory
-- is short; to shrink by more than there is changes nothing.
abbrev pub new_size : (grown : Bool) (sz : ℕ) (n t : ℤ) → Option ℕ
new_size grown sz (pos n) t =
    if ltb trapframe_page (sz + n) || (eqb_ℤ t (pos 1) && not (n == 0 || grown))
    then none
    else some (sz + n)
new_size grown sz (negsuc n) t = some (if ltb n sz then sz - suc n else sz)

abbrev pub resize : Proc → Option ℕ → Option Proc
resize p none = none
resize p (some sz) = some (record p { sz = sz })

abbrev pub IsInt : ℤ → Type 0
IsInt (pos n) = n < 2 ^ 31
IsInt (negsuc n) = n < 2 ^ 31

-- For a process of at most TRAPFRAME bytes and an `int` n, the 64-bit arithmetic of sys_sbrk never
-- misleads it: the call succeeds exactly where the plain account does, with the same new size and no
-- other change, for eager and lazy growth, for 0, and for shrinking.
pub sbrk_lem :
    (grown : Bool) (p : Proc) (n t : ℤ)
    → p.sz ≤ trapframe_page
    → IsInt n
    → sbrk grown p n t ≡ resize p (new_size grown p.sz n t)
unfolding sbrk growproc grow_lazily uvmalloc uvmdealloc
sbrk_lem grown p (negsuc n) t h small = ground arith
sbrk_lem grown p (pos n) (negsuc t) h small = ground arith
sbrk_lem grown p (pos n) (pos t) h small = ground arith

-- So a size that fits stays one that fits.
pub sbrk-sz :
    (grown : Bool) (p q : Proc) (n t : ℤ)
    → p.sz ≤ trapframe_page
    → IsInt n
    → sbrk grown p n t ≡ some q
    → q.sz ≤ trapframe_page
sbrk-sz grown p q (pos n) t h small e = ground (arith, sbrk_lem grown p (pos n) t h small)
sbrk-sz grown p q (negsuc n) t h small e = ground (arith, sbrk_lem grown p (negsuc n) t h small)
