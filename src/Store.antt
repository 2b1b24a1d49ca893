-- ===== src/Store.antt =====
-- internal/store: the memory store.
pub mod Memory
pub mod Claims
pub mod Ops
pub mod Step
pub mod Refinement
pub mod Abstract
pub mod Consistency
pub mod Track
pub mod Progress
pub mod Visits
pub mod Leases
pub mod Versions
pub mod Events
pub mod Guarantees
