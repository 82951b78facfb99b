-- ===== src/Session.antt =====
-- app/session/: the transcript buffer, the session record and the registry.
pub mod Buffer
pub mod Record
pub mod DeltaEngine
pub mod Store
