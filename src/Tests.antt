-- ===== src/Tests.antt =====
-- Runs of the definitions, after tests/hackertyper.test.js where it has them, and the theorems at
-- inputs that meet their hypotheses.
mod Model
mod Highlighting
mod Samples
mod Session
mod Terminal
mod Services
mod Desktop
mod Orchestrator
