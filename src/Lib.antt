-- ===== src/Lib.antt =====
-- The G20 operating systems project: the scheduling simulator of G20_Project2_2 and the process
-- system calls that G20_Project1_xv6CustomizeSystemCalls adds to xv6.
--
-- Parts.
-- Sim models the simulator. Sim/Types is include/sim.h. Sim/ReadyQueue is the array queue that the
-- four schedulers share; Sim/Mlfq, Sim/Lottery, Sim/Edf and Sim/Custom are src/schedulers/mlfq.c,
-- lottery.c, edf.c and custom.c (Sim/Scan is the search loop that the last two share). Sim/Scheduler is
-- the interface of include/scheduler.h and its dispatch in src/core/simulator.c; Sim/Scheduler/Laws says
-- what the simulator needs of a scheduler, Sim/Scheduler/Policies is about the four policies and
-- Sim/Scheduler/Implements about the dispatch.
-- Sim/Simulator is the loop of run_simulation over any such scheduler, one definition for each inner
-- loop; Sim/Simulation is run_simulation with its metrics. Sim/Parser is src/core/parser.c, and Sim/Text
-- what it uses of the C library on strings; Sim/Args is parse_args of src/main.c. Sim/Report is
-- src/core/report.c: Sim/Report/Text the texts that it writes, Sim/Report/Files the directories and files;
-- Sim/Main is main, over a file system that is a parameter. The parser's own
-- types keep every `int` signed; the simulator's types take the numbers that it accepts as natural
-- numbers.
-- Kernel models kernel/proc.c of the xv6 project. Kernel/Types is the process table (struct proc, struct
-- ksem and the global variables), Kernel/Table its loops. Kernel/Alloc: procinit, allocpid, allocproc,
-- freeproc. Kernel/Family: fork_with_priority, kfork, kforkprio, kclone, kjoin, reparent, kexit, kwait,
-- waitx. Kernel/Sched: sleep, wakeup, yield, the choice of scheduler(), kkill, killed, setkilled,
-- update_time, getpinfo. Kernel/Priority: setpriority, getpriority. Kernel/Semaphore: ksem_init,
-- ksem_wait, ksem_post. Kernel/Signal: setupsignal, sigalarm, sigreturn, sigsend, signaltick,
-- signalcheck, with the store of a system call's result in syscall.c. Kernel/Mailbox: msgsend, msgrecv.
-- Kernel/Machine adds the counter of clock ticks. Kernel/Clock: clockintr of kernel/trap.c, sys_pause and
-- sys_uptime. Kernel/Growth: growproc and sys_sbrk. Kernel/Syscall: argraw, argint, argaddr, fetchaddr of
-- kernel/syscall.c. Kernel/Calls: the functions of kernel/sysproc.c. Kernel/Trap: syscall, devintr,
-- usertrap, usertrapret, kerneltrap; a trap runs up to the point where the process gives up the CPU
-- or sleeps in a system call. Kernel/Pids: all calls as steps, and the numbers of the processes.
-- Kernel/Pipe: kernel/pipe.c. Kernel/Log: kernel/log.c, on disks that may fail after any number of
-- writes. Kernel/Cache: the buffer cache of kernel/bio.c.
-- Kernel/Pages: kernel/kalloc.c, with the links of the free pages.
-- Common holds what all share: Boolean tests, lists and sums over the native numbers, signed numbers,
-- counted loops. Sim/Tests, Sim/Parser/Tests, Sim/Args/Tests, Sim/Main/Tests, Kernel/Tests,
-- Kernel/CallTests, Kernel/TrapTests, Kernel/PidTests, Kernel/FileTests and Kernel/PageTests hold the
-- theorems at concrete inputs, Kernel/Samples the process tables.
--
-- Conventions.
-- An `int` that the code keeps at 0 or more is a natural number; other `int`s are signed numbers. An
-- index or pid of -1, and a null pointer, is `none`. Arrays are functions of their index. 32-bit
-- unsigned numbers (the lottery's generator, the kernel's times) wrap as written. Overflow of an `int`,
-- which is undefined in C, is left out: the theorem on the lottery asks for a ticket sum below 2^31.
-- The loop over the ticks recurs on the ticks that are left, and the boost of the multilevel queue on
-- the entries of the level that it empties, which is as many rounds as the loop makes.
-- Characters are their codes; fgets reads at most 1023 of them at a time, and a long has 64 bits.
-- What runs between taking and releasing a lock is one step. A call that sleeps is cut at its sleep:
-- it returns an Outcome, and a second definition (ksem_resume, msgrecv_resume, kjoin_resume,
-- kwait_resume) is what it does after a wakeup. Results of calls that a part does not model (kalloc and
-- proc_pagetable, uvmalloc, uvmcopy, copyinstr, copyin, copyout, malloc) are arguments. The drivers of the
-- devices, the system calls on files, mkdir, fopen, the pair of fprintf and fclose, and the printing
-- of a double are parameters. kexit is cut where its files are closed, which may sleep: kexit_resume
-- is the rest. The simulator takes a duration as a natural number: where the parser's conversion to
-- int made one negative, workload_of is not the workload that was read, and the theorem on main asks
-- that there is none.
--
-- Not modelled: in the kernel the context switch, page tables, devices and the file system above
-- its log, whose reference counts are not part of the state; the user programs.
pub mod Common
pub mod Sim
pub mod Kernel
