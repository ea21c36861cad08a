-- ===== src/Observation.antt =====
-- The observation log of a room: src/nunchi/observation.py, `ObservationProvider`.
pub mod Types
pub mod Retention
pub mod Audit
pub mod Observe
pub mod Reopen
pub mod Select
mod Reopened
mod Restored
mod Order
mod Bounded
mod GapList
mod Bytes
mod Times
mod Uncertain
mod Runs
mod Keeps
mod Trimmed
mod Same
mod Known
mod Step
mod Once
mod Examples
