-- ===== src/Kernel/Syscall.antt =====
-- Arguments of system calls: argraw, argint, argaddr, fetchaddr and fetchstr of kernel/syscall.c.
-- Whether copyin and copyinstr succeed, and what they read, are arguments.
use g20_os_lab_project.Common.{
  ℕ, ◌+◌, ◌*◌, ◌-◌, ◌%◌, ◌^◌, ◌==◌, ◌||◌, leb, ltb, if◌then◌else◌, ℤ, Option, none, to_int32,
}
use g20_os_lab_project.Kernel.Types.{Proc}
use g20_os_lab_project.Kernel.Signal.{trapframe_of}
use g20_os_lab_project.Kernel.Machine.{minus_word}

-- The offset of a1 in the trapframe; a2 to a7 follow.
abbrev pub a1_offset : ℕ
a1_offset = 120

abbrev pub a7_offset : ℕ
a7_offset = 168

-- The `return -1` stands after a panic; all callers pass 0, 1 or 2.
unfoldable pub argraw : Proc → ℕ → ℕ
argraw p n =
    if n == 0
    then (trapframe_of p).a0
    else if leb n 5
    then (trapframe_of p).others (a1_offset + 8 * (n - 1))
    else minus_word

unfoldable pub argint : Proc → ℕ → ℤ
unfolding argraw
argint p n = to_int32 (argraw p n)

unfoldable pub argaddr : Proc → ℕ → ℕ
unfolding argraw
argaddr p n = argraw p n

-- `copied` is the word that copyin reads; the addition wraps round.
unfoldable pub fetchaddr : Proc → (addr : ℕ) → (copied : Option ℕ) → Option ℕ
fetchaddr p addr copied = if leb p.sz addr || ltb p.sz ((addr + 8) % 2 ^ 64) then none else copied
