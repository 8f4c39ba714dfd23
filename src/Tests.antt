-- ===== src/Tests.antt =====
-- The examples: concrete services and objects, and each theorem at one of them.
mod Services
mod Examples
mod Runs
mod Batch
mod Labels
mod Executor
