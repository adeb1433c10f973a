-- ===== src/Learning.antt =====
-- tools/graph/self-improve.mjs: learning, and the firewall around it.
pub mod Firewall
pub mod Store
pub mod Params
pub mod Candidate
pub mod Promotion
pub mod Judge
pub mod Consolidate
