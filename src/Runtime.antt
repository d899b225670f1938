-- ===== src/Runtime.antt =====
-- The shared runtime (backend/pentagon5_runtime).
pub mod Uuid7
pub mod Envelopes
pub mod Config
pub mod Observability
