-- ===== src/Strategy/Models.antt =====
-- src/strategy/models.py and src/marketdata/models.py. `F` stands for Python's `float`, which the
-- models only carry.
use pentagon5_foundation.Prelude.{ℕ, String, Option, Result, ok, check, and_then}
use pentagon5_foundation.Decimal.{Decimal, dec, le, lt}
use pentagon5_foundation.Broker.Models.{Error, value_error}

pub record Quote (F : Type 0) : Type 0 where
  pub symbol : String
  pub bid : F
  pub ask : F
  pub last_price : F
  pub volume : F
  pub timestamp : ℕ

pub record Ohlcv (F : Type 0) : Type 0 where
  pub symbol : String
  pub open_price : F
  pub high : F
  pub low : F
  pub close : F
  pub volume : F
  pub timestamp : ℕ
  pub interval : String

pub data StrategyStatus : Type 0 where
  stopped running error : StrategyStatus

pub data SignalType : Type 0 where
  buy sell hold : SignalType

pub record TradingSignal : Type 0 where
  pub symbol : String
  pub signal_type : SignalType
  pub generated_at : ℕ
  pub quantity : Decimal
  pub reason : String

unfoldable pub validate_signal : SignalType → Decimal → Result Error (Unit {0})
validate_signal buy q =
    check (le q (dec 0)) (value_error "quantity must be positive for buy and sell signals")
validate_signal sell q =
    check (le q (dec 0)) (value_error "quantity must be positive for buy and sell signals")
validate_signal hold q =
    check (lt q (dec 0)) (value_error "quantity cannot be negative for hold signals")

-- The constructor with `__post_init__`.
unfoldable pub make_signal : TradingSignal → Result Error TradingSignal
make_signal s = and_then (validate_signal s.signal_type s.quantity) λ _. ok s

pub record StrategyState : Type 0 where
  pub status : StrategyStatus
  pub updated_at : ℕ
  pub last_signal : Option TradingSignal
  pub error_message : Option String
