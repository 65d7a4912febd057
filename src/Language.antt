-- ===== src/Language.antt =====
-- The analysis of a citizen's text, civicbrain/domain/nlp/processor.py.
pub mod Lexicon
pub mod Search
pub mod Processor
