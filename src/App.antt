-- ===== src/App.antt =====
-- The authentication application (services/authentication/pentagon5_auth/app.py).
pub mod Control
pub mod Sockets
pub mod Routes
mod Tests
