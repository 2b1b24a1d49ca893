-- ===== src/Domain.antt =====
-- internal/domain: the state machines and the records that the other packages share.
pub mod Transitions
pub mod Goal
pub mod Plan
pub mod Work
pub mod Attempt
pub mod Lease
pub mod Gate
pub mod Effect
pub mod Finding
pub mod Role
pub mod Authority
pub mod Evidence
pub mod Policy
pub mod Model
pub mod Machines
pub mod Histories
