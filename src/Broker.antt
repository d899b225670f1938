-- ===== src/Broker.antt =====
-- The broker package (src/broker): its data model and the in-memory provider.
pub mod Models
pub mod Provider
mod Tests
