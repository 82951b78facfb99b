-- ===== src/Decomposition.antt =====
-- app/decomposition/
pub mod CompoundSignal
pub mod MultiIntent
