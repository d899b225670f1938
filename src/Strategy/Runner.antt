-- ===== src/Strategy/Runner.antt =====
-- src/strategy/runner.py: `StrategyRunner`, over any strategy and any broker that has `place_order`.
pub mod Orders
pub mod Events
use pentagon5_foundation.Prelude.{
  ℕ, Bool, true, false, not, Option, none, some, Result, ok, err, Exec, lift, pure, gets, raise_if,
  ◌>>=◌, ◌>>◌,
}
use pentagon5_foundation.Broker.Models.{
  Error, value_error, OrderRequest, Order, OrderSide, make_order_request, market,
}
use pentagon5_foundation.Broker.Models as Broker
use pentagon5_foundation.Strategy.Models.{
  Quote, Ohlcv, SignalType, buy, sell, hold, TradingSignal, StrategyStatus, stopped, running, error,
}
use pentagon5_foundation.Strategy.Interface.{Strategy}

pub record Runner (S B : Type 0) : Type 0 where
  pub strategy : S
  pub broker : B

-- A method of one of the two objects.
module _ {S B A : Type 0} where
  unfoldable pub on_strategy : Exec Error S A → Exec Error (Runner S B) A
  on_strategy m r = let (a, s) = m r.strategy in (a, record r { strategy = s })

  unfoldable pub on_broker : Exec Error B A → Exec Error (Runner S B) A
  on_broker m r = let (a, b) = m r.broker in (a, record r { broker = b })

abbrev pub is_running : StrategyStatus → Bool
is_running running = true
is_running _ = false

-- `OrderSide.BUY if signal.signal_type is SignalType.BUY else OrderSide.SELL`
abbrev pub side_of : SignalType → OrderSide
side_of buy = Broker.buy
side_of _ = Broker.sell

abbrev pub request_of : TradingSignal → OrderRequest
request_of s = record {
  symbol = s.symbol;
  side = side_of s.signal_type;
  order_type = market;
  quantity = s.quantity;
  requested_at = s.generated_at;
  limit_price = none;
}

abbrev pub is_hold : SignalType → Bool
is_hold hold = true
is_hold _ = false

module _ {F S B : Type 0} (strategy : Strategy F S)
    (place_order : OrderRequest → Exec Error B Order) where
  unfoldable pub start : ℕ → Exec Error (Runner S B) (Unit {0})
  start now = on_strategy (strategy.start now)

  unfoldable pub stop : ℕ → Exec Error (Runner S B) (Unit {0})
  stop now = on_strategy (strategy.stop now)

  unfoldable pub require_running : Exec Error (Runner S B) (Unit {0})
  require_running = do
    status ← gets (λ r. (strategy.state r.strategy).status)
    raise_if (not (is_running status)) (value_error "strategy must be running to process events")

  unfoldable pub submit_order : TradingSignal → Exec Error (Runner S B) (Option Order)
  submit_order signal = do
    request ← lift (make_order_request (request_of signal))
    order ← on_broker (place_order request)
    pure (some order)

  unfoldable pub submit_signal : Option TradingSignal → Exec Error (Runner S B) (Option Order)
  submit_signal none = pure none
  submit_signal (some signal) = elim (is_hold signal.signal_type) [
    | true ↦ pure none
    | false ↦ submit_order signal
  ]

  unfoldable pub on_quote : Quote F → Exec Error (Runner S B) (Option Order)
  on_quote quote = do
    require_running
    signal ← on_strategy (strategy.on_quote quote)
    submit_signal signal

  unfoldable pub on_bar : Ohlcv F → Exec Error (Runner S B) (Option Order)
  on_bar bar = do require_running; signal ← on_strategy (strategy.on_bar bar); submit_signal signal
