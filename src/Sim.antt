-- ===== src/Sim.antt =====
-- The scheduling simulator of G20_Project2_2.
pub mod Types
pub mod Text
pub mod Parser
pub mod Args
pub mod ReadyQueue
pub mod Scan
pub mod Mlfq
pub mod Lottery
pub mod Edf
pub mod Custom
pub mod Scheduler
pub mod Simulator
pub mod Simulation
pub mod Report
pub mod Main
pub mod Tests
