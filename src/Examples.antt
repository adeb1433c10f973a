-- ===== src/Examples.antt =====
-- Concrete runs of the models.
mod Js
mod Patterns
mod Guarded
mod Locked
mod Decided
mod Queued
mod Reduced
mod Graphs
mod Runs
mod Learned
