-- ===== src/Broker/Provider/Runs.antt =====
-- Sequences of calls on one `MockBrokerProvider` (src/broker/provider.py), failing calls included.
use pentagon5_foundation.Prelude.{ℕ, String, ◌≡◌, refl, sym, List, [], ◌∷◌, Result, ok, err}
use pentagon5_foundation.Decimal.{dec, add, exact_add, fix, scaled, from_parts}
use pentagon5_foundation.Decimal.Digits.{digits}
use pentagon5_foundation.Prelude.Int.{min_ℤ, gap}
use pentagon5_foundation.Broker.Models
use pentagon5_foundation.Broker.Models.{Error, Order, OrderRequest}
use pentagon5_foundation.Broker.Provider
use pentagon5_foundation.Broker.Provider.{Broker, init, filled_order, market_execution}
use pentagon5_foundation.Broker.Provider.Book.{snapshot}
use pentagon5_foundation.Broker.Provider.Placing.{IsValid, Places, place_order_outcome}
use pentagon5_foundation.Broker.Provider.Orders.{cancel_order_outcome}

-- The methods that may change a provider, with the values of the clock and of `uuid4`.
pub data Call : Type 0 where
  connect disconnect : Call
  place_order : OrderRequest → ℕ → String → String → Call
  cancel_order : String → ℕ → Call

unfoldable pub step : Call → Broker → Broker
step Call.connect b = (Provider.connect b).1
step Call.disconnect b = (Provider.disconnect b).1
step (Call.place_order r now id x) b = (Provider.place_order r now id x b).1
step (Call.cancel_order id now) b = (Provider.cancel_order id now b).1

unfoldable pub run : List Call → Broker → Broker
unfolding step
run [] b = b
run (c ∷ cs) b = run cs (step c b)

Places-IsValid :
    (b : Broker) (o : Order) (e : Models.Execution) (r : Result Error Order × Broker)
    → IsValid b
    → Places b o e r
    → IsValid r.1
Places-IsValid b o e (ok p, b') v h = h.1
Places-IsValid b o e (err x, b') v h = rw h v

pub place_order-IsValid :
    (r : OrderRequest) (now : ℕ) (id x : String) (b : Broker)
    → IsValid b
    → IsValid (Provider.place_order r now id x b).1
place_order-IsValid r now id x b v =
    Places-IsValid b (filled_order r now id) (market_execution (filled_order r now id) now x)
      (Provider.place_order r now id x b) v (place_order_outcome b r now id x v)

step-IsValid : (c : Call) (b : Broker) → IsValid b → IsValid (step c b)
unfolding step Provider.connect Provider.disconnect
step-IsValid Call.connect b v = record {
  funded = record { cash = v.funded.cash; book = v.funded.book };
  positions = v.positions;
  buying_power = v.buying_power;
  equity = v.equity;
  orders = v.orders;
  executions = v.executions;
}
step-IsValid Call.disconnect b v = record {
  funded = record { cash = v.funded.cash; book = v.funded.book };
  positions = v.positions;
  buying_power = v.buying_power;
  equity = v.equity;
  orders = v.orders;
  executions = v.executions;
}
step-IsValid (Call.place_order r now id x) b v = place_order-IsValid r now id x b v
step-IsValid (Call.cancel_order id now) b v = rw (cancel_order_outcome b id now v, step) v

run_from-IsValid : (cs : List Call) (b : Broker) → IsValid b → IsValid (run cs b)
unfolding run
run_from-IsValid [] b v = v
run_from-IsValid (c ∷ cs) b v = run_from-IsValid cs (step c b) (step-IsValid c b v)

opening_equity : add (dec 100000) (dec 0) ≡ dec 100000
unfolding add exact_add fix scaled from_parts digits min_ℤ gap
opening_equity = refl

init-IsValid : (now : ℕ) (id : String) → IsValid (init now id)
unfolding init snapshot Provider.read_all Provider.sorted_keys Provider.market_value
init-IsValid now id = record {
  funded = record { cash = refl; book = tt };
  positions = refl;
  buying_power = refl;
  equity = sym opening_equity;
  orders = tt;
  executions = tt;
}

-- However a new provider is used, the invariant holds: the cash is not negative, every position is
-- stored once under its symbol with a positive quantity and average price, the account shows the
-- positions in the order of their symbols, its buying power is the cash and its equity the cash and
-- the positions at the market price, every order is filled and every execution names an order.
pub run-IsValid : (now : ℕ) (id : String) (cs : List Call) → IsValid (run cs (init now id))
run-IsValid now id cs = run_from-IsValid cs (init now id) (init-IsValid now id)
