-- ===== src/Orchestration.antt =====
-- The coordination of long runs: tools/orchestration/.
pub mod Tasks
pub mod Reduce
