-- ===== src/Broker/Provider/Orders.antt =====
-- Reading and cancelling orders, and sequences of calls of `MockBrokerProvider`
-- (src/broker/provider.py).
use Prim.Native.String
use pentagon5_foundation.Prelude.{
  ℕ, String, ◌≡◌, refl, inl, inr, true, none, some, List, [], ◌∷◌, ◌++◌, ok, err, arith, str_eq,
  if◌then◌else◌, Option-cases, ap, ◌∙◌, keep, keep-append, eq_iff, eq_refl, All,
}
use pentagon5_foundation.Prelude.Dict.{Dict, lookup, insert, lookup-insert}
use pentagon5_foundation.Broker.Models.{Error, value_error, Order, OrderRequest, filled, Execution}
use pentagon5_foundation.Broker.Provider.{
  Broker, require_connected, place_order, cancel_order, get_order, get_executions, filled_order,
  market_execution,
}
use pentagon5_foundation.Broker.Provider.Placing.{IsValid, AllFilled, IsTraced, place_order_outcome}

lookup-filled :
    (k : String) (o : Order) (d : Dict Order)
    → AllFilled d
    → lookup k d ≡ some o
    → o.status ≡ filled
unfolding lookup
lookup-filled k o [] h e = ground arith
lookup-filled k o ((j, p) ∷ d) h e = ground (arith, lookup-filled k o d h.2)

-- The error of `cancel_order`, which no order of this broker escapes.
abbrev pub cancel_error : String → Broker → Error
cancel_error id b =
    if b.connected
    then elim (lookup id b.orders) [
      | none ↦ value_error (String.◌++◌ "unknown order: " id)
      | some o ↦ value_error "only pending orders can be cancelled"
    ]
    else value_error "broker provider is disconnected"

-- In a valid provider every call of `cancel_order` raises and changes nothing.
pub cancel_order_outcome :
    (b : Broker) (id : String) (now : ℕ)
    → IsValid b
    → cancel_order id now b ≡ (err (cancel_error id b), b)
unfolding cancel_order get_order require_connected
cancel_order_outcome b id now v = elim (Option-cases (lookup id b.orders)) [
  | inl missing ↦ ground arith
  | inr (o, found) ↦ ground (arith, lookup-filled id o b.orders v.orders found)
]

untraced :
    (id : String) (d : Dict Order) (es : List Execution)
    → lookup id d ≡ none
    → All (IsTraced d) es
    → keep (λ e. str_eq e.order_id id) es ≡ []
unfolding keep
untraced id d [] m h = refl
untraced id d (e ∷ es) m h = ground (arith, eq_iff e.order_id id, untraced id d es m h.1, h.0)

module _ (b : Broker) (r : OrderRequest) (now : ℕ) (id x : String) where
  -- What a later read of the provider shows of an order.
  abbrev pub Reads : Broker → Order → Type 0
  Reads b' o =
      (get_order id b' ≡ (ok o, b'))
      × (get_executions (some id) b' ≡ (ok (market_execution o now x ∷ []), b'))

  keep_placed :
      All (IsTraced b.orders) b.executions
      → lookup id b.orders ≡ none
      → keep
          (λ e. str_eq e.order_id id)
          (b.executions ++ market_execution (filled_order r now id) now x ∷ [])
        ≡ market_execution (filled_order r now id) now x ∷ []
  unfolding keep filled_order market_execution
  keep_placed h fresh = rw (keep-append, untraced id b.orders b.executions fresh h, eq_refl)

  Reads-placed :
      (o : Order) (b' : Broker)
      → b'.connected ≡ true
      → All (IsTraced b.orders) b.executions
      → lookup id b.orders ≡ none
      → o ≡ filled_order r now id
      → b'.orders ≡ insert id (filled_order r now id) b.orders
      → b'.executions ≡ b.executions ++ market_execution (filled_order r now id) now x ∷ []
      → Reads b' o
  unfolding get_order get_executions require_connected
  Reads-placed o b' c h fresh same orders executions = (
    ground (
      arith,
      ap (λ (d : Dict Order). lookup id d) orders,
      lookup-insert id id (filled_order r now id) b.orders,
      eq_refl id,
    ),
    ground (arith, ap (keep (λ e. str_eq e.order_id id)) executions, keep_placed h fresh),
  )

  -- After `place_order` has returned an order under an id that was not in use, `get_order` returns
  -- that order and `get_executions` returns exactly its one execution.
  pub read_back :
      (o : Order) (b' : Broker)
      → b.connected ≡ true
      → IsValid b
      → lookup id b.orders ≡ none
      → place_order r now id x b ≡ (ok o, b')
      → Reads b' o
  unfolding filled_order
  read_back o b' c v fresh e =
      let (same, valid, link, orders, executions) = rw e at (place_order_outcome b r now id x v) in
      Reads-placed o b' (link ∙ c) v.executions fresh same orders executions
