-- ===== src/Broker/Provider/Placing.antt =====
-- `place_order` of src/broker/provider.py: the invariant of a whole provider, and the two ways in
-- which a call ends.
use pentagon5_foundation.Prelude.{
  ℕ, String, ◌≡◌, ◌≢◌, refl, Bool-cases, inl, inr, true, false, none, List, [], ◌∷◌, ◌++◌, Result,
  ok, err, arith, eq_refl, All, All-append, bind_ok, bind_err, modify, pure, ap, ◌∙◌,
}
use pentagon5_foundation.Prelude.Dict.{Dict, lookup, insert, lookup-insert}
use pentagon5_foundation.Decimal.{Decimal, dec, add, mul, le}
use pentagon5_foundation.Decimal.Sign.{
  IsPositive, IsNonneg, mul-IsPositive, IsPositive-of_not_le, not_le_of_positive,
}
use pentagon5_foundation.Broker.Models.{
  Error, value_error, not_implemented, Order, OrderRequest, Execution, Position, filled, make_order,
  make_execution, validate_positive, validate_limit_order,
}
use pentagon5_foundation.Broker.Provider.{
  Broker, fill, apply_fill, update_account, record_fill, settle, filled_account, refreshed_account,
  stored_fill, refresh_account, market_value, market_price, place_order, filled_order,
  market_execution, require_connected, is_limit, get_positions,
}
use pentagon5_foundation.Broker.Provider.Book.{IsBook, snapshot, get_positions_lem}
use pentagon5_foundation.Broker.Provider.Invariant.{IsFunded, Fills, fill-Fills}

-- Every order is stored under its own id, and is filled.
abbrev pub AllFilled : Dict Order → Type 0
AllFilled [] = Unit
AllFilled ((k, o) ∷ d) = (o.id ≡ k) × (o.status ≡ filled) × AllFilled d

abbrev pub IsTraced : Dict Order → Execution → Type 0
IsTraced d e = lookup e.order_id d ≢ none

pub record IsValid (b : Broker) : Type 0 where
  pub funded : IsFunded b
  pub positions : b.account.positions ≡ snapshot b.positions
  pub buying_power : b.account.buying_power ≡ b.account.cash_balance
  pub equity : b.account.equity ≡ add b.account.cash_balance (market_value (dec 0) b.positions)
  pub orders : AllFilled b.orders
  pub executions : All (IsTraced b.orders) b.executions

insert-AllFilled :
    (o : Order) (d : Dict Order) → o.status ≡ filled → AllFilled d → AllFilled (insert o.id o d)
unfolding insert
insert-AllFilled o [] f h = (refl, f, tt)
insert-AllFilled o ((k, p) ∷ d) f h = ground (arith, insert-AllFilled o d f h.2)

insert-IsTraced :
    (k : String) (o : Order) (d : Dict Order) (es : List Execution)
    → All (IsTraced d) es
    → All (IsTraced (insert k o d)) es
insert-IsTraced k o d [] h = tt
insert-IsTraced k o d (e ∷ es) h =
    (rw lookup-insert (ground (arith, h.0)), insert-IsTraced k o d es h.1)

-- The provider after a fill that left `cash` and the positions `ps`.
abbrev pub settled : Broker → Order → Execution → ℕ → Decimal → Dict Position → Broker
settled b o e now cash ps = record b {
  positions = ps;
  orders = insert o.id o b.orders;
  executions = b.executions ++ e ∷ [];
  account = record b.account {
    cash_balance = cash;
    equity = add cash (market_value (dec 0) ps);
    buying_power = cash;
    updated_at = now;
    positions = snapshot ps;
  };
}

module _ (b : Broker) (e : Execution) {cash : Decimal} {ps : Dict Position} (c : b.connected ≡ true)
    (f : fill e.side e (lookup e.symbol b.positions) (mul e.quantity e.price) b
      ≡ (ok cash, record b { positions = ps })) where
  apply_fill_lem : apply_fill e b ≡ (
    ok tt,
    record b {
      positions = ps;
      account = record b.account {
        cash_balance = cash;
        buying_power = cash;
        updated_at = e.executed_at;
        positions = snapshot ps;
      };
    },
  )
  unfolding apply_fill update_account filled_account
  apply_fill_lem =
      let b1 : Broker = record b { positions = ps } in
      bind_ok (fill e.side e (lookup e.symbol b.positions) (mul e.quantity e.price))
        (update_account e) b f
      ∙ bind_ok get_positions (λ qs. modify (filled_account e cash qs)) b1 (get_positions_lem b1 c)

  pub settle_lem : (o : Order) (now : ℕ) → settle o e now b ≡ (ok o, settled b o e now cash ps)
  unfolding settle record_fill refresh_account refreshed_account stored_fill
  settle_lem o now =
      let b2 : Broker = record b {
        positions = ps;
        orders = insert o.id o b.orders;
        executions = b.executions ++ e ∷ [];
        account = record b.account {
          cash_balance = cash;
          buying_power = cash;
          updated_at = e.executed_at;
          positions = snapshot ps;
        };
      } in
      bind_ok (apply_fill e) (λ _. record_fill o e now) b apply_fill_lem
      ∙ bind_ok (refresh_account now) (λ _. pure o) b2
          (bind_ok get_positions (λ qs. modify (refreshed_account now qs)) b2
            (get_positions_lem b2 c))

settled-IsValid :
    (b : Broker) (o : Order) (e : Execution) (now : ℕ) (cash : Decimal) (ps : Dict Position)
    → IsValid b
    → o.status ≡ filled
    → e.order_id ≡ o.id
    → IsNonneg cash
    → IsBook ps
    → IsValid (settled b o e now cash ps)
settled-IsValid b o e now cash ps v f i hc hp = record {
  funded = record { cash = hc; book = hp };
  positions = refl;
  buying_power = refl;
  equity = refl;
  orders = insert-AllFilled o b.orders f v.orders;
  executions =
      All-append (IsTraced (insert o.id o b.orders)) b.executions (e ∷ [])
        (insert-IsTraced o.id o b.orders b.executions v.executions)
        (rw lookup-insert (ground (arith, i, eq_refl o.id)), tt);
}

-- How `settle` ends: with the order and a valid provider that records it, or with an error and
-- nothing changed.
abbrev pub Places : Broker → Order → Execution → Result Error Order × Broker → Type 0
Places b o e (ok r, b') =
    (r ≡ o)
    × IsValid b'
    × (b'.connected ≡ b.connected)
    × (b'.orders ≡ insert o.id o b.orders)
    × (b'.executions ≡ b.executions ++ e ∷ [])
Places b o e (err x, b') = b' ≡ b

settle-Places :
    (b : Broker) (o : Order) (e : Execution) (now : ℕ)
    → IsValid b
    → b.connected ≡ true
    → o.status ≡ filled
    → e.order_id ≡ o.id
    → IsPositive e.quantity
    → IsPositive e.price
    → Places b o e (settle o e now b)
unfolding settle apply_fill
settle-Places b o e now v c f i hq hp =
    settle_cases (fill e.side e (lookup e.symbol b.positions) (mul e.quantity e.price) b) refl (
      fill-Fills b v.funded e (mul e.quantity e.price) hq (mul-IsPositive e.quantity e.price hq hp)
        e.side)
  where
    settle_cases :
        (r : Result Error Decimal × Broker)
        → fill e.side e (lookup e.symbol b.positions) (mul e.quantity e.price) b ≡ r
        → Fills b r
        → Places b o e (settle o e now b)
    settle_cases (ok cash, b') g (hc, hp', same) =
        rw (settle_lem b e c (g ∙ ap (λ (x : Broker). (ok cash, x)) same) o now)
          (refl, settled-IsValid b o e now cash b'.positions v f i hc hp', refl, refl, refl)
    settle_cases (err x, b') g same =
        rw
          (bind_err (apply_fill e) (λ _. record_fill o e now) b
            (bind_err (fill e.side e (lookup e.symbol b.positions) (mul e.quantity e.price))
              (update_account e) b g))
          same

make_order_lem :
    (r : OrderRequest) (now : ℕ) (id : String)
    → is_limit r.order_type ≡ false
    → le r.quantity (dec 0) ≡ false
    → make_order (filled_order r now id) ≡ ok (filled_order r now id)
unfolding make_order validate_positive validate_limit_order filled_order
make_order_lem r now id m q = ground arith

make_execution_lem :
    (r : OrderRequest) (now : ℕ) (id x : String)
    → le r.quantity (dec 0) ≡ false
    → make_execution (market_execution (filled_order r now id) now x)
      ≡ ok (market_execution (filled_order r now id) now x)
unfolding make_execution validate_positive market_execution filled_order
make_execution_lem r now id x q = rw (q, not_le_of_positive market_price (refl, omega arith))

module _ (b : Broker) (r : OrderRequest) (now : ℕ) (id x : String) where
  abbrev pub accepted : Order
  accepted = filled_order r now id

  pub place_accepted :
      b.connected ≡ true
      → is_limit r.order_type ≡ false
      → le r.quantity (dec 0) ≡ false
      → place_order r now id x b ≡ settle accepted (market_execution accepted now x) now b
  unfolding place_order require_connected
  place_accepted c m q =
      ground (arith, make_order_lem r now id m q, make_execution_lem r now id x q)

  accepted-Places :
      IsValid b
      → b.connected ≡ true
      → le r.quantity (dec 0) ≡ false
      → Places b accepted
          (market_execution accepted now x)
          (settle accepted (market_execution accepted now x) now b)
  unfolding filled_order market_execution
  accepted-Places v c q =
      settle-Places b _ _ now v c refl refl (IsPositive-of_not_le r.quantity q) (refl, omega arith)

  place_disconnected :
      b.connected ≡ false
      → place_order r now id x b ≡ (err (value_error "broker provider is disconnected"), b)
  unfolding place_order require_connected
  place_disconnected c = ground arith

  place_limit :
      b.connected ≡ true
      → is_limit r.order_type ≡ true
      → place_order r now id x b
        ≡ (err (not_implemented "MockBrokerProvider supports market orders only"), b)
  unfolding place_order require_connected
  place_limit c m = ground arith

  place_not_positive :
      b.connected ≡ true
      → is_limit r.order_type ≡ false
      → le r.quantity (dec 0) ≡ true
      → place_order r now id x b ≡ (err (value_error "quantity must be positive"), b)
  unfolding place_order require_connected make_order validate_positive filled_order
  place_not_positive c m q = ground arith

  -- From a valid provider a call of `place_order` either returns the filled order for the request,
  -- stores it under the new id, appends its execution and leaves a valid provider; or it raises,
  -- and then the provider is unchanged.
  pub place_order_outcome :
      IsValid b
      → Places b
          (filled_order r now id)
          (market_execution (filled_order r now id) now x)
          (place_order r now id x b)
  place_order_outcome v = elim (Bool-cases b.connected) [
    | inr down ↦ rw (place_disconnected down) refl
    | inl up ↦ elim (Bool-cases (is_limit r.order_type)) [
      | inl limited ↦ rw (place_limit up limited) refl
      | inr free ↦ elim (Bool-cases (le r.quantity (dec 0))) [
        | inl bad ↦ rw (place_not_positive up free bad) refl
        | inr good ↦ rw (place_accepted up free good) (accepted-Places v up good)
      ]
    ]
  ]
