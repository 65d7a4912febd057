-- ===== src/Dispatch.antt =====
-- civicbrain/domain/dispatch: work orders, citizen decisions, offline sync and its conflicts.
pub mod Models
pub mod WorkOrders
pub mod Evidence
pub mod Citizen
pub mod Answers
pub mod Sync
pub mod Conflicts
pub mod Lifecycle
