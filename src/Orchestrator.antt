-- ===== src/Orchestrator.antt =====
-- sources/task-orchestrator.ts, the bundled TypeScript source, read as the program that it is.
pub mod Decimal
pub mod Dict
pub mod Queue
pub mod Task
pub mod Machine
pub mod Events
pub mod Filing
pub mod Finished
pub mod Admission
pub mod Leasing
pub mod Finishing
pub mod Reclaiming
pub mod Steps
pub mod Simulation
pub mod Calls
pub mod History
pub mod Attempts
pub mod Sorted
pub mod Leases
pub mod Tally
pub mod Capacity
pub mod Snapshots
pub mod Owners
pub mod Draining
pub mod Sweep
pub mod Shards
pub mod Demo
