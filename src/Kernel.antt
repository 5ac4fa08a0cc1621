-- ===== src/Kernel.antt =====
-- The kernel of G20_Project1_xv6CustomizeSystemCalls: its processes and their system calls.
pub mod Types
pub mod Table
pub mod Signal
pub mod Sched
pub mod Alloc
pub mod Priority
pub mod Semaphore
pub mod Mailbox
pub mod Family
pub mod Pipe
pub mod Log
pub mod Cache
pub mod Pages
pub mod Pids
pub mod Machine
pub mod Clock
pub mod Growth
pub mod Syscall
pub mod Calls
pub mod Trap
pub mod Samples
pub mod Tests
pub mod CallTests
pub mod TrapTests
pub mod PidTests
pub mod FileTests
pub mod PageTests
