-- ===== src/Taxonomy.antt =====
-- The categories of incidents: civicbrain/domain/intake/taxonomy.py and
-- civicbrain/api/v1/taxonomy.py.
pub mod Rubric
pub mod Categories
