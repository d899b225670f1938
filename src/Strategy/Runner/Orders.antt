-- ===== src/Strategy/Runner/Orders.antt =====
-- src/strategy/runner.py: which signals become orders.
use pentagon5_foundation.Prelude.{
  true, false, ◌≡◌, refl, Option, none, some, Result, ok, err, Exec, Bool-cases, Result-cases, ◌∙◌,
  ◌⊎◌, inl, inr, arith,
}
use pentagon5_foundation.Broker.Models.{
  Error, value_error, OrderRequest, Order, make_order_request, validate_positive,
  validate_limit_order,
}
use pentagon5_foundation.Strategy.Models.{Quote, Ohlcv, TradingSignal, make_signal, validate_signal}
use pentagon5_foundation.Strategy.Interface.{Strategy}
use pentagon5_foundation.Strategy.Runner.{
  Runner, on_strategy, on_broker, is_running, request_of, is_hold, require_running, submit_order,
  submit_signal, on_quote, on_bar,
}

-- An order request made of a signal that its constructor accepted passes its own checks.
request_is_made :
    (s : TradingSignal)
    → make_signal s ≡ ok s
    → is_hold s.signal_type ≡ false
    → make_order_request (request_of s) ≡ ok (request_of s)
unfolding make_signal validate_signal make_order_request validate_positive validate_limit_order
request_is_made s made h = ground arith

module _ {F S B : Type 0} (strategy : Strategy F S)
    (place_order : OrderRequest → Exec Error B Order) where
  -- Whether a broker's state comes from one order for a signal.
  abbrev pub Submitted : Result Error (Option TradingSignal) → B → B → Type 0
  Submitted signal b b' =
      (s : TradingSignal) × (signal ≡ ok (some s))
      × (is_hold s.signal_type ≡ false)
      × (b' ≡ (place_order (request_of s) b).1)

  submit_order_broker :
      (s : TradingSignal) (r : Runner S B)
      → ((submit_order strategy place_order s r).1.broker ≡ r.broker)
        ⊎ ((submit_order strategy place_order s r).1.broker
            ≡ (place_order (request_of s) r.broker).1)
  unfolding submit_order on_broker make_order_request
  submit_order_broker s r = ground arith

  submit_signal_broker :
      (signal : Option TradingSignal) (r : Runner S B)
      → ((submit_signal strategy place_order signal r).1.broker ≡ r.broker)
        ⊎ Submitted (ok signal) r.broker (submit_signal strategy place_order signal r).1.broker
  unfolding submit_signal
  submit_signal_broker none r = inl refl
  submit_signal_broker (some s) r = elim (Bool-cases (is_hold s.signal_type)) [
    | inl h ↦ inl (ground arith)
    | inr h ↦ elim (submit_order_broker s r) [
      | inl same ↦ inl (ground arith)
      | inr sent ↦ inr (s, refl, h, ground arith)
    ]
  ]

  -- A signal that its constructor accepted is never refused by the runner: a hold is dropped, and the
  -- answer to a buy or a sell is the broker's answer to a market order of the signal's quantity.
  pub submit_signal_outcome :
      (s : TradingSignal) (r : Runner S B)
      → make_signal s ≡ ok s
      → submit_signal strategy place_order (some s) r ≡ elim (is_hold s.signal_type) [
        | true ↦ (ok none, r)
        | false ↦
            let (answer, b) = place_order (request_of s) r.broker in
            (elim answer [ ok o ↦ ok (some o) | err e ↦ err e ], record r { broker = b })
      ]
  unfolding submit_signal submit_order on_broker
  submit_signal_outcome s r made = ground (arith, request_is_made s made)

  -- A running strategy's answer to an event, passed on to the broker.
  abbrev pub answered :
      Exec Error S (Option TradingSignal) → Runner S B → Result Error (Option Order) × Runner S B
  answered m r = elim (m r.strategy).0 [
    | ok signal ↦
        submit_signal strategy place_order signal (record r { strategy = (m r.strategy).1 })
    | err e ↦ (err e, record r { strategy = (m r.strategy).1 })
  ]

  pub on_quote_running :
      (quote : Quote F) (r : Runner S B)
      → is_running (strategy.state r.strategy).status ≡ true
      → on_quote strategy place_order quote r ≡ answered (strategy.on_quote quote) r
  unfolding on_quote require_running on_strategy
  on_quote_running quote r h = ground arith

  pub on_quote_stopped :
      (quote : Quote F) (r : Runner S B)
      → is_running (strategy.state r.strategy).status ≡ false
      → on_quote strategy place_order quote r
        ≡ (err (value_error "strategy must be running to process events"), r)
  unfolding on_quote require_running
  on_quote_stopped quote r h = ground arith

  pub on_bar_running :
      (bar : Ohlcv F) (r : Runner S B)
      → is_running (strategy.state r.strategy).status ≡ true
      → on_bar strategy place_order bar r ≡ answered (strategy.on_bar bar) r
  unfolding on_bar require_running on_strategy
  on_bar_running bar r h = ground arith

  pub on_bar_stopped :
      (bar : Ohlcv F) (r : Runner S B)
      → is_running (strategy.state r.strategy).status ≡ false
      → on_bar strategy place_order bar r
        ≡ (err (value_error "strategy must be running to process events"), r)
  unfolding on_bar require_running
  on_bar_stopped bar r h = ground arith

  answered_submits :
      (m : Exec Error S (Option TradingSignal)) (r : Runner S B)
      → ((answered m r).1.broker ≡ r.broker)
        ⊎ Submitted (m r.strategy).0 r.broker (answered m r).1.broker
  answered_submits m r = elim (Result-cases (m r.strategy).0) [
    | inl (signal, h) ↦
        elim (submit_signal_broker signal (record r { strategy = (m r.strategy).1 })) [
          | inl same ↦ inl (rw (h, answered) same)
          | inr (s, this, kind, sent) ↦ inr (s, h ∙ this, kind, rw (h, answered) sent)
        ]
    | inr (e, h) ↦ inl (rw (h, answered) refl)
  ]

  -- A quote changes the broker only where the strategy is running and answers with a buy or a sell,
  -- and then by one market order for that signal.
  pub on_quote_submits :
      (quote : Quote F) (r : Runner S B)
      → ((on_quote strategy place_order quote r).1.broker ≡ r.broker)
        ⊎ ((is_running (strategy.state r.strategy).status ≡ true)
            × Submitted
                (strategy.on_quote quote r.strategy).0
                r.broker
                (on_quote strategy place_order quote r).1.broker)
  on_quote_submits quote r = elim (Bool-cases (is_running (strategy.state r.strategy).status)) [
    | inl h ↦ elim (answered_submits (strategy.on_quote quote) r) [
      | inl same ↦ inl (rw (on_quote_running quote r h) same)
      | inr sent ↦ inr (h, rw (on_quote_running quote r h) sent)
    ]
    | inr h ↦ inl (rw (on_quote_stopped quote r h) refl)
  ]

  -- A bar changes the broker only where the strategy is running and answers with a buy or a sell,
  -- and then by one market order for that signal.
  pub on_bar_submits :
      (bar : Ohlcv F) (r : Runner S B)
      → ((on_bar strategy place_order bar r).1.broker ≡ r.broker)
        ⊎ ((is_running (strategy.state r.strategy).status ≡ true)
            × Submitted
                (strategy.on_bar bar r.strategy).0
                r.broker
                (on_bar strategy place_order bar r).1.broker)
  on_bar_submits bar r = elim (Bool-cases (is_running (strategy.state r.strategy).status)) [
    | inl h ↦ elim (answered_submits (strategy.on_bar bar) r) [
      | inl same ↦ inl (rw (on_bar_running bar r h) same)
      | inr sent ↦ inr (h, rw (on_bar_running bar r h) sent)
    ]
    | inr h ↦ inl (rw (on_bar_stopped bar r h) refl)
  ]
