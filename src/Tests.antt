-- ===== src/Tests.antt =====
-- The theorems applied at concrete inputs, one module for each part.
mod Data
mod Transcript
mod Turns
mod Evidence
mod Sessions
mod Telemetry
mod Corpus
mod Ingest
