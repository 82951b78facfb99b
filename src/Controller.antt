-- ===== src/Controller.antt =====
-- app/controller/
pub mod Extraction
pub mod Suppression
pub mod RetrievalController
pub mod OnChunk
