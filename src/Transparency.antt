-- ===== src/Transparency.antt =====
-- civicbrain/domain/transparency: the public ledger of milestones.
pub mod Models
pub mod Ledger
