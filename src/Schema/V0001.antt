-- ===== src/Schema/V0001.antt =====
-- infrastructure/database/metadata_0001.py: the snapshot that the first migration creates.
pub mod Identity
pub mod Personalization
pub mod Workspaces
pub mod Operations
pub mod Market
pub mod Trading
pub mod Orders
pub mod Audit
pub mod Catalog
