-- ===== src/Retrieval.antt =====
-- app/retrieval/
pub mod Fusion
pub mod Contradictions
pub mod Hybrid
