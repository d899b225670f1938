-- ===== src/Strategy/Mock.antt =====
-- src/strategy/mock_strategy.py: `MockStrategy`.
use pentagon5_foundation.Prelude.{ℕ, none, pure, modify}
use pentagon5_foundation.Strategy.Models.{StrategyState, StrategyStatus, stopped, running}
use pentagon5_foundation.Strategy.Interface.{Strategy}

abbrev pub state_with : StrategyStatus → ℕ → StrategyState
state_with status now = record {
  status = status;
  updated_at = now;
  last_signal = none;
  error_message = none;
}

unfoldable pub initial_state : ℕ → StrategyState
initial_state now = state_with stopped now

unfoldable pub mock_strategy : (F : Type 0) → Strategy F StrategyState
mock_strategy F = record {
  name = "MockStrategy";
  state = λ s. s;
  start = λ now. modify (λ _. state_with running now);
  stop = λ now. modify (λ _. state_with stopped now);
  on_quote = λ quote. pure none;
  on_bar = λ bar. pure none;
}
