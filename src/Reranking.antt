-- ===== src/Reranking.antt =====
-- app/reranking/
pub mod CrossEncoder
