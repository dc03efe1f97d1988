-- ===== src/Runs.antt =====
-- The run of a task graph: src/core/run-store.js and src/core/run-scheduler.js.
pub mod Rows
pub mod Store
pub mod Blocking
pub mod Scheduler
pub mod Tables
pub mod Flights
pub mod Slots
pub mod Held
pub mod Stalled
pub mod Passes
pub mod Visits
pub mod Fallout
mod Tests
