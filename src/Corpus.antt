-- ===== src/Corpus.antt =====
-- A corpus on its way into the indexes: scripts/ingest_corpus.py with app/core/slots.py,
-- app/core/embeddings.py, app/retrieval/sparse_bm25.py and app/retrieval/dense.py.
pub mod Slots
pub mod Sections
pub mod Chunking
pub mod Bm25
pub mod Dense
pub mod Documents
pub mod Ingest
pub mod Embeddings
