-- ===== src/Intake.antt =====
-- civicbrain/domain/intake: the intake side of the program.
pub mod Models
pub mod Status
pub mod Recompute
pub mod Progress
pub mod Vision
pub mod Fractions
pub mod Similarity
pub mod Dedup
pub mod Routing
pub mod Photo
