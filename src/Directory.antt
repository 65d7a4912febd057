-- ===== src/Directory.antt =====
-- The staff directory of civicbrain/api/v1/hierarchy.py: departments, and the bulk import of
-- staff accounts.
pub mod Models
pub mod Cells
pub mod Phone
pub mod Rows
pub mod Batch
pub mod Import
pub mod Departments
