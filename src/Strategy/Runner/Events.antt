-- ===== src/Strategy/Runner/Events.antt =====
-- src/strategy/runner.py: sequences of events, also with the brokers and strategies of the package.
use pentagon5_foundation.Prelude.{
  ℕ, String, ◌≡◌, refl, ◌∙◌, sym, List, [], ◌∷◌, Exec, inl, inr, subst, ap, Bool, true, false,
  Result, ok, err, Option, none, arith,
}
use pentagon5_foundation.Broker.Models.{Error, value_error, OrderRequest, Order}
use pentagon5_foundation.Broker.Provider
use pentagon5_foundation.Broker.Provider.{Broker}
use pentagon5_foundation.Broker.Provider.Placing.{IsValid}
use pentagon5_foundation.Broker.Provider.Runs.{place_order-IsValid}
use pentagon5_foundation.Strategy.Models.{Quote, Ohlcv, StrategyState}
use pentagon5_foundation.Strategy.Interface.{Strategy}
use pentagon5_foundation.Strategy.Mock.{mock_strategy}
use pentagon5_foundation.Strategy.Runner.{
  Runner, on_strategy, start, stop, on_quote, on_bar, request_of, is_running, require_running,
  submit_signal,
}
use pentagon5_foundation.Strategy.Runner.Orders.{on_quote_submits, on_bar_submits}

pub data Event (F : Type 0) : Type 0 where
  started stopped : ℕ → Event F
  quoted : Quote F → Event F
  barred : Ohlcv F → Event F

module _ {F S B : Type 0} (strategy : Strategy F S)
    (place_order : OrderRequest → Exec Error B Order) where
  unfoldable pub handle : Event F → Runner S B → Runner S B
  handle (started now) r = (start strategy place_order now r).1
  handle (stopped now) r = (stop strategy place_order now r).1
  handle (quoted quote) r = (on_quote strategy place_order quote r).1
  handle (barred bar) r = (on_bar strategy place_order bar r).1

  unfoldable pub run : List (Event F) → Runner S B → Runner S B
  run [] r = r
  run (e ∷ es) r = run es (handle e r)

  module _ (P : B → Type 0)
      (kept : (request : OrderRequest) (b : B) → P b → P (place_order request b).1) where
    handle_keeps : (e : Event F) (r : Runner S B) → P r.broker → P (handle e r).broker
    unfolding handle start stop on_strategy
    handle_keeps (started now) r h = h
    handle_keeps (stopped now) r h = h
    handle_keeps (quoted quote) r h = elim (on_quote_submits strategy place_order quote r) [
      | inl same ↦ subst P (sym same) h
      | inr (live, (signal, this, kind, sent)) ↦
          subst P (sym sent) (kept (request_of signal) r.broker h)
    ]
    handle_keeps (barred bar) r h = elim (on_bar_submits strategy place_order bar r) [
      | inl same ↦ subst P (sym same) h
      | inr (live, (signal, this, kind, sent)) ↦
          subst P (sym sent) (kept (request_of signal) r.broker h)
    ]

    -- What every order keeps true of the broker, every sequence of events keeps true.
    pub run_keeps : (es : List (Event F)) (r : Runner S B) → P r.broker → P (run es r).broker
    unfolding run
    run_keeps [] r h = h
    run_keeps (e ∷ es) r h = run_keeps es (handle e r) (handle_keeps e r h)

-- However a runner with the mock broker is used, with whatever strategy, the invariant of the broker
-- holds after it: each order reads the clock and two ids of its own.
pub broker-run-IsValid :
    {F S : Type 0} (strategy : Strategy F S) (now : OrderRequest → Broker → ℕ)
    (order_id execution_id : OrderRequest → Broker → String) (es : List (Event F))
    (r : Runner S Broker)
    → IsValid r.broker
    → IsValid
        (run strategy
          (λ request b.
            Provider.place_order request
              (now request b)
              (order_id request b)
              (execution_id request b)
              b)
          es
          r).broker
broker-run-IsValid strategy now order_id execution_id =
    run_keeps strategy
      (λ request b.
        Provider.place_order request (now request b) (order_id request b) (execution_id request b)
          b)
      IsValid
      (λ request b.
        place_order-IsValid request (now request b) (order_id request b) (execution_id request b) b)

mock_keeps :
    {F B : Type 0} (place_order : OrderRequest → Exec Error B Order) (e : Event F)
    (r : Runner StrategyState B)
    → (handle (mock_strategy F) place_order e r).broker ≡ r.broker
unfolding handle start stop on_strategy mock_strategy
mock_keeps place_order (started now) r = refl
mock_keeps place_order (stopped now) r = refl
mock_keeps {F = F} place_order (quoted quote) r =
    elim (on_quote_submits (mock_strategy F) place_order quote r) [
      | inl same ↦ same
      | inr (live, (signal, this, kind, sent)) ↦ cc (this)
    ]
mock_keeps {F = F} place_order (barred bar) r =
    elim (on_bar_submits (mock_strategy F) place_order bar r) [
      | inl same ↦ same
      | inr (live, (signal, this, kind, sent)) ↦ cc (this)
    ]

-- The mock strategy never trades: no sequence of events changes the broker.
pub mock_strategy_trades_nothing :
    {F B : Type 0} (place_order : OrderRequest → Exec Error B Order) (es : List (Event F))
    (r : Runner StrategyState B)
    → (run (mock_strategy F) place_order es r).broker ≡ r.broker
unfolding run
mock_strategy_trades_nothing place_order [] r = refl
mock_strategy_trades_nothing place_order (e ∷ es) r =
    mock_strategy_trades_nothing place_order es (handle (mock_strategy _) place_order e r)
    ∙ mock_keeps place_order e r

-- Whether the last start or stop among the events is a start; `b` says it of the time before them.
abbrev pub is_started : {F : Type 0} → Bool → List (Event F) → Bool
is_started b [] = b
is_started b (started now ∷ es) = is_started true es
is_started b (stopped now ∷ es) = is_started false es
is_started b (_ ∷ es) = is_started b es

abbrev pub mock_running : {B : Type 0} → Runner StrategyState B → Bool
mock_running r = is_running r.strategy.status

-- What the runner answers to a quote and to a bar while the strategy is started or not.
abbrev pub answer :
    {B : Type 0}
    → Bool
    → Runner StrategyState B
    → Result Error (Option Order) × Runner StrategyState B
answer true r = (ok none, r)
answer false r = (err (value_error "strategy must be running to process events"), r)

module _ {F B : Type 0} (place_order : OrderRequest → Exec Error B Order) where
  mock_answers :
      (r : Runner StrategyState B) (quote : Quote F) (bar : Ohlcv F)
      → (on_quote (mock_strategy F) place_order quote r ≡ answer (mock_running r) r)
        × (on_bar (mock_strategy F) place_order bar r ≡ answer (mock_running r) r)
  unfolding on_quote on_bar require_running on_strategy submit_signal mock_strategy
  mock_answers r quote bar = (ground arith, ground arith)

  mock_kept_quote :
      (r : Runner StrategyState B) (quote : Quote F)
      → mock_running (on_quote (mock_strategy F) place_order quote r).1 ≡ mock_running r
  unfolding on_quote require_running on_strategy submit_signal mock_strategy
  mock_kept_quote r quote = ground arith

  mock_kept_bar :
      (r : Runner StrategyState B) (bar : Ohlcv F)
      → mock_running (on_bar (mock_strategy F) place_order bar r).1 ≡ mock_running r
  unfolding on_bar require_running on_strategy submit_signal mock_strategy
  mock_kept_bar r bar = ground arith

  mock_running_after :
      (es : List (Event F)) (r : Runner StrategyState B)
      → mock_running (run (mock_strategy F) place_order es r) ≡ is_started (mock_running r) es
  unfolding run handle start stop on_strategy mock_strategy
  mock_running_after [] r = refl
  mock_running_after (started now ∷ es) r = mock_running_after es _
  mock_running_after (stopped now ∷ es) r = mock_running_after es _
  mock_running_after (quoted quote ∷ es) r =
      mock_running_after es _ ∙ ap (λ b. is_started b es) (mock_kept_quote r quote)
  mock_running_after (barred bar ∷ es) r =
      mock_running_after es _ ∙ ap (λ b. is_started b es) (mock_kept_bar r bar)

  -- After any events on a runner with the mock strategy, a quote and a bar are accepted without an
  -- order if the last start or stop was a start, and refused with the error if it was a stop or there
  -- was none and the strategy was not running before; in both cases the runner stays as it was.
  pub mock_strategy-accepts :
      (es : List (Event F)) (r : Runner StrategyState B) (quote : Quote F) (bar : Ohlcv F)
      → let r' = run (mock_strategy F) place_order es r in
        (on_quote (mock_strategy F) place_order quote r'
          ≡ answer (is_started (mock_running r) es) r')
        × (on_bar (mock_strategy F) place_order bar r' ≡ answer (is_started (mock_running r) es) r')
  mock_strategy-accepts es r quote bar =
      rw (← mock_running_after es r)
        (mock_answers (run (mock_strategy F) place_order es r) quote bar)
