-- ===== src/Kernel/Priority.antt =====
-- Priorities: priority_valid, setpriority and getpriority of kernel/proc.c.
pub mod Range
use g20_os_lab_project.Common.{
  ℕ, Bool, true, false, leb, ◌&&◌, if◌then◌else◌, Option, none, some, ℤ, pos, negsuc, minus_one,
  pos_part,
}
use g20_os_lab_project.Kernel.Types.{Kernel, Proc}
use g20_os_lab_project.Kernel.Table.{find_proc, set_proc}
use g20_os_lab_project.Kernel.Signal.{is_live_pid}

abbrev pub max_priority : ℕ
max_priority = 100

-- MIN_PRIORITY is 0.
pub priority_valid : ℤ → Bool
priority_valid (pos n) = leb n max_priority
priority_valid (negsuc n) = false

unfoldable pub set_at : Kernel → ℕ → Option ℕ → ℤ × Kernel
set_at k priority none = (minus_one, k)
set_at k priority (some i) = (pos 0, set_proc k i (record (k.procs i) { priority = priority }))

unfoldable pub setpriority : Kernel → ℤ → ℤ → ℤ × Kernel
unfolding priority_valid set_at
setpriority k pid priority =
    if priority_valid priority
    then set_at k (pos_part priority) (find_proc (is_live_pid pid) k)
    else (minus_one, k)

pub get_at : Kernel → Option ℕ → ℤ
get_at k none = minus_one
get_at k (some i) = pos (k.procs i).priority

pub getpriority : Kernel → ℤ → ℤ
unfolding get_at
getpriority k pid = get_at k (find_proc (is_live_pid pid) k)
