-- ===== src/Strategy/Tests.antt =====
-- The runner with a small strategy on the mock broker.
use pentagon5_foundation.Prelude.{
  ℕ, ◌≡◌, refl, true, none, some, List, [], ◌∷◌, ok, err, pure, modify, Exec, ◌⊎◌,
}
use pentagon5_foundation.Decimal.{dec, le, scaled}
use pentagon5_foundation.Prelude.Int.{gap, min_ℤ}
use pentagon5_foundation.Broker.Models.{Error, Order, OrderRequest}
use pentagon5_foundation.Broker.Provider
use pentagon5_foundation.Broker.Provider.{Broker, init}
use pentagon5_foundation.Broker.Provider.Placing.{IsValid}
use pentagon5_foundation.Broker.Provider.Runs as Runs
use pentagon5_foundation.Strategy.Models.{
  Quote, Ohlcv, TradingSignal, StrategyStatus, stopped, running, buy, make_signal, validate_signal,
  StrategyState,
}
use pentagon5_foundation.Strategy.Interface.{Strategy}
use pentagon5_foundation.Strategy.Runner.{
  Runner, on_quote, on_bar, is_running, request_of, submit_signal,
}
use pentagon5_foundation.Strategy.Runner.Orders.{Submitted, on_quote_submits, submit_signal_outcome}
use pentagon5_foundation.Strategy.Runner.Events.{
  Event, run, broker-run-IsValid, mock_strategy-accepts,
}
use pentagon5_foundation.Strategy.Mock.{state_with, mock_strategy}

abbrev quote : Quote ℕ
quote = record { symbol = "AAPL"; bid = 99; ask = 101; last_price = 100; volume = 5; timestamp = 7 }

abbrev bar : Ohlcv ℕ
bar = record {
  symbol = "AAPL";
  open_price = 99;
  high = 101;
  low = 98;
  close = 100;
  volume = 5;
  timestamp = 7;
  interval = "1m";
}

abbrev buy_ten : TradingSignal
buy_ten = record {
  symbol = "AAPL";
  signal_type = buy;
  generated_at = 7;
  quantity = dec 10;
  reason = "test";
}

-- It buys at each quote; its state is its status.
abbrev buyer : Strategy ℕ StrategyStatus
buyer = record {
  name = "buyer";
  state = λ s. record { status = s; updated_at = 0; last_signal = none; error_message = none };
  start = λ now. modify (λ _. running);
  stop = λ now. modify (λ _. stopped);
  on_quote = λ quote. pure (some buy_ten);
  on_bar = λ bar. pure none;
}

abbrev mock_order : OrderRequest → Exec Error Broker Order
mock_order request b = Provider.place_order request 9 "order" "execution" b

abbrev connected : Broker
connected = Runs.run (Runs.Call.connect ∷ []) (init 0 "account")

connected-IsValid : IsValid connected
connected-IsValid = Runs.run-IsValid 0 "account" (Runs.Call.connect ∷ [])

abbrev runner : Runner StrategyStatus Broker
runner = record { strategy = running; broker = connected }

submit_signal_outcome_example : submit_signal buyer mock_order (some buy_ten) runner ≡ (
    let (answer, b) = mock_order (request_of buy_ten) connected in
    (elim answer [ ok o ↦ ok (some o) | err e ↦ err e ], record runner { broker = b }))
unfolding make_signal validate_signal le scaled gap min_ℤ
submit_signal_outcome_example = submit_signal_outcome buyer mock_order buy_ten runner refl

on_quote_submits_example :
    ((on_quote buyer mock_order quote runner).1.broker ≡ connected)
    ⊎ ((is_running running ≡ true)
        × Submitted buyer mock_order
            (ok (some buy_ten))
            connected
            (on_quote buyer mock_order quote runner).1.broker)
on_quote_submits_example = on_quote_submits buyer mock_order quote runner

abbrev idle : Runner StrategyStatus Broker
idle = record runner { strategy = stopped }

abbrev mocked : Runner StrategyState Broker
mocked = record { strategy = state_with stopped 0; broker = connected }

-- The events start the strategy and end with a quote.
abbrev started_once : List (Event ℕ)
started_once = Event.started 3 ∷ Event.quoted quote ∷ []

mock_strategy-accepts_example :
    (on_quote
        (mock_strategy ℕ)
        mock_order
        quote
        (run (mock_strategy ℕ) mock_order started_once mocked)
      ≡ (ok none, run (mock_strategy ℕ) mock_order started_once mocked))
    × (on_bar
          (mock_strategy ℕ)
          mock_order
          bar
          (run (mock_strategy ℕ) mock_order started_once mocked)
        ≡ (ok none, run (mock_strategy ℕ) mock_order started_once mocked))
mock_strategy-accepts_example = mock_strategy-accepts mock_order started_once mocked quote bar

broker-run-IsValid_example :
    IsValid
      (run buyer mock_order
        (Event.started 3 ∷ Event.quoted quote ∷ Event.barred bar ∷ Event.stopped 4 ∷ [])
        idle).broker
broker-run-IsValid_example =
    broker-run-IsValid buyer (λ request b. 9) (λ request b. "order") (λ request b. "execution")
      (Event.started 3 ∷ Event.quoted quote ∷ Event.barred bar ∷ Event.stopped 4 ∷ []) idle
      connected-IsValid
