-- ===== src/Broker/Provider.antt =====
-- src/broker/provider.py: `MockBrokerProvider`. A method is an action on the provider's fields; the
-- clock and `uuid4` are arguments. What was written before a raise stays written.
pub mod Book
pub mod Invariant
pub mod Placing
pub mod Trades
pub mod Orders
pub mod Runs
use Prim.Native.String
use Prim.Native.Nat.{Ordering}
use pentagon5_foundation.Prelude.{
  ℕ, String, Bool, true, false, not, Option, none, some, List, [], ◌∷◌, ◌++◌, ◌≡◌, refl, Result, ok,
  err, Exec, pure, raise, lift, gets, ◌>>=◌, ◌>>◌, modify, raise_if, or_raise, and_then, keep,
  str_eq, if◌then◌else◌,
}
use pentagon5_foundation.Prelude.Dict.{Dict, lookup, insert, erase, values}
use pentagon5_foundation.Decimal.{Decimal, dec, add, sub, mul, div, lt, eq}
use pentagon5_foundation.Broker.Models.{
  Error, value_error, not_implemented, key_error, division_by_zero, OrderSide, buy, sell, OrderType,
  market, limit, OrderStatus, pending, filled, cancelled, rejected, OrderRequest, Order, Execution,
  Position, Account, make_order, make_execution, make_position,
}

pub record Broker : Type 0 where
  pub connected : Bool
  pub orders : Dict Order
  pub executions : List Execution
  pub positions : Dict Position
  pub account : Account

abbrev pub Action : Type 0 → Type 0
Action A = Exec Error Broker A

abbrev pub market_price : Decimal
market_price = dec 100

abbrev pub starting_cash : Decimal
starting_cash = dec 100000

unfoldable pub init : ℕ → String → Broker
init now account_id = record {
  connected = false;
  orders = [];
  executions = [];
  positions = [];
  account = record {
    id = account_id;
    cash_balance = starting_cash;
    equity = starting_cash;
    buying_power = starting_cash;
    updated_at = now;
    positions = [];
  };
}

unfoldable pub connect : Action (Unit {0})
connect = modify (λ b. record b { connected = true })

unfoldable pub disconnect : Action (Unit {0})
disconnect = modify (λ b. record b { connected = false })

unfoldable pub is_connected : Action Bool
is_connected = gets (λ b. b.connected)

unfoldable pub require_connected : Action (Unit {0})
require_connected b = raise_if (not b.connected) (value_error "broker provider is disconnected") b

-- `sorted` on texts: by code points.
unfoldable pub insert_sorted : String → List String → List String
insert_sorted k [] = k ∷ []
insert_sorted k (j ∷ ks) = elim (String.compare k j) [
  | Ordering.gt ↦ j ∷ insert_sorted k ks
  | _ ↦ k ∷ j ∷ ks
]

unfoldable pub sorted_keys : Dict Position → List String
sorted_keys [] = []
sorted_keys ((k, p) ∷ d) = insert_sorted k (sorted_keys d)

-- `d[symbol] for symbol in …`
unfoldable pub read_all : List String → Dict Position → Result Error (List Position)
read_all [] d = ok []
read_all (k ∷ ks) d =
    let rest = read_all ks d in
    elim (lookup k d) [ none ↦ err (key_error k) | some p ↦ and_then rest λ ps. ok (p ∷ ps) ]

unfoldable pub get_positions : Action (List Position)
get_positions = do require_connected; d ← gets (λ b. b.positions); lift (read_all (sorted_keys d) d)

-- The quantity held and its cost, both 0 where there is no position.
unfoldable pub held : Option Position → Decimal × Decimal
held none = (dec 0, dec 0)
held (some p) = (p.quantity, mul p.quantity p.average_price)

-- The buying branch of `_apply_fill`; it returns the new cash balance.
unfoldable pub fill_buy : Execution → Option Position → Decimal → Action Decimal
fill_buy e existing notional = do
  cash ← gets (λ b. b.account.cash_balance)
  raise_if (lt cash notional) (value_error "insufficient cash")
  let previous = held existing
  let quantity = add previous.0 e.quantity
  average ← or_raise (div (add previous.1 notional) quantity) division_by_zero
  p ← lift (
      make_position (record {
        symbol = e.symbol;
        quantity = quantity;
        average_price = average;
        updated_at = e.executed_at;
      }))
  modify (λ b. record b { positions = insert e.symbol p b.positions })
  gets (λ b. sub b.account.cash_balance notional)

-- The end of the selling branch, for a position that covers the sale.
unfoldable pub reduce_position : Execution → Position → Decimal → Action (Unit {0})
reduce_position e p quantity =
    if eq quantity (dec 0)
    then modify (λ b. record b { positions = erase e.symbol b.positions })
    else do
      reduced ← lift (
          make_position (record {
            symbol = p.symbol;
            quantity = quantity;
            average_price = p.average_price;
            updated_at = e.executed_at;
          }))
      modify (λ b. record b { positions = insert e.symbol reduced b.positions })

unfoldable pub fill_sell : Execution → Option Position → Decimal → Action Decimal
fill_sell e none notional = raise (value_error "insufficient position")
fill_sell e (some p) notional = do
  raise_if (lt p.quantity e.quantity) (value_error "insufficient position")
  reduce_position e p (sub p.quantity e.quantity)
  gets (λ b. add b.account.cash_balance notional)

unfoldable pub fill : OrderSide → Execution → Option Position → Decimal → Action Decimal
fill buy = fill_buy
fill sell = fill_sell

-- The account that `_apply_fill` stores.
unfoldable pub filled_account : Execution → Decimal → List Position → Broker → Broker
filled_account e cash positions b = record b {
  account = record b.account {
    cash_balance = cash;
    buying_power = cash;
    updated_at = e.executed_at;
    positions = positions;
  };
}

unfoldable pub update_account : Execution → Decimal → Action (Unit {0})
update_account e cash = get_positions >>= λ ps. modify (filled_account e cash ps)

unfoldable pub apply_fill : Execution → Action (Unit {0})
apply_fill e b =
    let existing = lookup e.symbol b.positions in
    (fill e.side e existing (mul e.quantity e.price) >>= update_account e) b

-- The generator's sum, from the left.
unfoldable pub market_value : Decimal → Dict Position → Decimal
market_value acc [] = acc
market_value acc ((k, p) ∷ d) = market_value (add acc (mul p.quantity market_price)) d

-- The account that `_refresh_account` stores.
unfoldable pub refreshed_account : ℕ → List Position → Broker → Broker
refreshed_account updated_at positions b = record b {
  account = record b.account {
    equity = add b.account.cash_balance (market_value (dec 0) b.positions);
    buying_power = b.account.cash_balance;
    updated_at = updated_at;
    positions = positions;
  };
}

unfoldable pub refresh_account : ℕ → Action (Unit {0})
refresh_account updated_at = get_positions >>= λ ps. modify (refreshed_account updated_at ps)

unfoldable pub filled_order : OrderRequest → ℕ → String → Order
filled_order r now id = record {
  id = id;
  symbol = r.symbol;
  side = r.side;
  order_type = r.order_type;
  quantity = r.quantity;
  status = filled;
  created_at = now;
  updated_at = now;
  limit_price = none;
}

unfoldable pub market_execution : Order → ℕ → String → Execution
market_execution o now id = record {
  id = id;
  order_id = o.id;
  symbol = o.symbol;
  side = o.side;
  quantity = o.quantity;
  price = market_price;
  executed_at = now;
}

abbrev pub is_limit : OrderType → Bool
is_limit limit = true
is_limit market = false

-- The two records of a fill.
unfoldable pub stored_fill : Order → Execution → Broker → Broker
stored_fill order execution b = record b {
  orders = insert order.id order b.orders;
  executions = b.executions ++ execution ∷ [];
}

-- The statements of `place_order` behind the fill.
unfoldable pub record_fill : Order → Execution → ℕ → Action Order
record_fill order execution now b =
    (refresh_account now >>= λ _. pure order) (stored_fill order execution b)

unfoldable pub settle : Order → Execution → ℕ → Action Order
settle order execution now = apply_fill execution >> record_fill order execution now

unfoldable pub place_order : OrderRequest → ℕ → String → String → Action Order
place_order r now order_id execution_id = do
  require_connected
  raise_if (is_limit r.order_type)
      (not_implemented "MockBrokerProvider supports market orders only")
  order ← lift (make_order (filled_order r now order_id))
  execution ← lift (make_execution (market_execution order now execution_id))
  settle order execution now

unfoldable pub get_order : String → Action Order
get_order id = do
  require_connected
  found ← gets (λ b. lookup id b.orders)
  or_raise found (value_error (String.◌++◌ "unknown order: " id))

abbrev pub is_pending : OrderStatus → Bool
is_pending pending = true
is_pending filled = false
is_pending cancelled = false
is_pending rejected = false

unfoldable pub cancel_order : String → ℕ → Action Order
cancel_order id now = do
  require_connected
  order ← get_order id
  raise_if (not (is_pending order.status)) (value_error "only pending orders can be cancelled")
  changed ← lift (make_order (record order { status = cancelled; updated_at = now }))
  modify (λ b. record b { orders = insert id changed b.orders })
  pure changed

unfoldable pub get_executions : Option String → Action (List Execution)
get_executions none = do require_connected; gets (λ b. b.executions)
get_executions (some id) = do
  require_connected
  gets (λ b. keep (λ e. str_eq e.order_id id) b.executions)

unfoldable pub get_account : Action Account
get_account = do require_connected; gets (λ b. b.account)
