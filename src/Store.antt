-- ===== src/Store.antt =====
-- configs/responder/store.py: the jobs, the statements that change them, the operations, and what
-- holds of them under every interleaving.
pub mod Data
pub mod Statements
pub mod Operations
pub mod Effects
pub mod Once
pub mod Invariant
pub mod Diagram
pub mod Approval
pub mod Claims
pub mod Race
pub mod Proposal
pub mod Each
pub mod Sweeps
pub mod Intake
pub mod Dedupe
