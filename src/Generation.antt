-- ===== src/Generation.antt =====
-- app/generation/
pub mod PromptBuilder
pub mod StreamingGenerator
