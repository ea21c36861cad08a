-- ===== src/Authorization.antt =====
-- Execution-time authorization of privileged actions: src/nunchi/authorization.py.
pub mod Types
pub mod Exec
pub mod Policy
pub mod Journal
pub mod Effects
pub mod Dispatch
pub mod Proposals
pub mod Binding
pub mod Coordinator
pub mod Approval
pub mod AtMostOnce
mod Examples
