-- ===== src/Guards.antt =====
-- The guards that a command passes before a tool may run it: guardrails/.
pub mod Host
pub mod Commands
pub mod Scan
pub mod Engagement
pub mod Invocation
pub mod Cluster
pub mod Hosts
pub mod Egress
pub mod Decide
pub mod Azure
