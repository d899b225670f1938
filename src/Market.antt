-- ===== src/Market.antt =====
-- The providers of market data (src/marketdata/provider.py).
pub mod Yahoo
mod Tests
