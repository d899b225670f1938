-- ===== src/Auth.antt =====
-- The authentication service (services/authentication/pentagon5_auth).
pub mod Models
pub mod Config
pub mod Tables
pub mod Repository
pub mod Service
pub mod OidcClient
mod Tests
