-- ===== src/Grounding.antt =====
-- app/grounding/
pub mod Tags
pub mod CitationValidator
pub mod Validation
