-- ===== src/Strategy.antt =====
-- The strategies and their runner (src/strategy), with the market data they read
-- (src/marketdata/models.py).
pub mod Models
pub mod Interface
pub mod Mock
pub mod Runner
mod Tests
