-- ===== src/Telemetry.antt =====
-- app/telemetry: the event log and the figures computed from it.
pub mod EventTypes
pub mod EventLogger
pub mod Metrics
