-- ===== src/Strategy/Interface.antt =====
-- src/strategy/strategy.py: the abstract class `Strategy`, as a record of its methods on the
-- instance's own fields `S`. The clock is an argument where a method reads it.
use pentagon5_foundation.Prelude.{ℕ, String, Option, Exec}
use pentagon5_foundation.Broker.Models.{Error}
use pentagon5_foundation.Strategy.Models.{Quote, Ohlcv, TradingSignal, StrategyState}

pub record Strategy (F S : Type 0) : Type 0 where
  pub name : String
  pub state : S → StrategyState
  pub start : ℕ → Exec Error S (Unit {0})
  pub stop : ℕ → Exec Error S (Unit {0})
  pub on_quote : Quote F → Exec Error S (Option TradingSignal)
  pub on_bar : Ohlcv F → Exec Error S (Option TradingSignal)
