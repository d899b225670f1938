-- ===== src/Broker/Provider/Trades.antt =====
-- What a market order does to the cash and to the position in its symbol (`_apply_fill` of
-- src/broker/provider.py), by side.
use pentagon5_foundation.Prelude.{
  ℕ, String, ◌≡◌, refl, true, false, Option, none, some, ok, err, arith, bind_err, ◌∙◌,
}
use pentagon5_foundation.Prelude.Dict.{Dict, lookup, insert, erase}
use pentagon5_foundation.Decimal.{Decimal, dec, add, sub, mul, div, le, lt, eq}
use pentagon5_foundation.Decimal.Sign.{
  IsPositive, mul-IsPositive, add-IsPositive, sub-IsPositive, IsPositive-of_not_le,
}
use pentagon5_foundation.Decimal.Division.{div-IsPositive}
use pentagon5_foundation.Broker.Models.{
  Error, value_error, Order, OrderRequest, Execution, Position, buy, sell,
}
use pentagon5_foundation.Broker.Provider.{
  Broker, held, fill, fill_buy, fill_sell, reduce_position, apply_fill, update_account, record_fill,
  settle, market_price, place_order, filled_order, market_execution, is_limit,
}
use pentagon5_foundation.Broker.Provider.Book.{lookup-IsOpen}
use pentagon5_foundation.Broker.Provider.Invariant.{held-IsNonneg, make_position_lem}
use pentagon5_foundation.Broker.Provider.Placing.{IsValid, settled, settle_lem, place_accepted}

-- A request that passes the guards of `place_order` in `b`.
pub record IsAccepted (b : Broker) (r : OrderRequest) : Type 0 where
  pub connected : b.connected ≡ true
  pub market : is_limit r.order_type ≡ false
  pub positive : le r.quantity (dec 0) ≡ false

abbrev pub cost : OrderRequest → Decimal
cost r = mul r.quantity market_price

module _ (b : Broker) (r : OrderRequest) (now : ℕ) (id x : String) (v : IsValid b)
    (g : IsAccepted b r) where
  abbrev order : Order
  order = filled_order r now id

  abbrev execution : Execution
  execution = market_execution order now x

  filled_with :
      {cash : Decimal} {ps : Dict Position}
      → fill r.side execution (lookup r.symbol b.positions) (cost r) b
        ≡ (ok cash, record b { positions = ps })
      → place_order r now id x b ≡ (ok order, settled b order execution now cash ps)
  unfolding filled_order market_execution
  filled_with h =
      place_accepted b r now id x g.connected g.market g.positive
      ∙ settle_lem b execution g.connected h order now

  raised_with :
      {e : Error}
      → fill r.side execution (lookup r.symbol b.positions) (cost r) b ≡ (err e, b)
      → place_order r now id x b ≡ (err e, b)
  unfolding filled_order market_execution settle apply_fill
  raised_with h =
      place_accepted b r now id x g.connected g.market g.positive
      ∙ bind_err (apply_fill execution) (λ _. record_fill order execution now) b
          (bind_err (fill r.side execution (lookup r.symbol b.positions) (cost r))
            (update_account execution) b h)

  -- A buying order that costs more than the cash balance raises and changes nothing.
  pub buy_short :
      r.side ≡ buy
      → lt b.account.cash_balance (cost r) ≡ true
      → place_order r now id x b ≡ (err (value_error "insufficient cash"), b)
  unfolding fill fill_buy
  buy_short s h = raised_with (simp s (rw h))

  -- Any other buying order is paid from the cash, and the position grows by its quantity at the
  -- average price of the old cost and the new.
  pub buy_fills :
      r.side ≡ buy
      → lt b.account.cash_balance (cost r) ≡ false
      → (p : Position) × (p.quantity ≡ add (held (lookup r.symbol b.positions)).0 r.quantity)
        × (div (add (held (lookup r.symbol b.positions)).1 (cost r)) p.quantity
            ≡ some p.average_price)
        × (place_order r now id x b ≡ (
          ok order,
          settled b order execution now
              (sub b.account.cash_balance (cost r))
              (insert r.symbol p b.positions),
        ))
  unfolding fill fill_buy market_execution filled_order
  buy_fills s h =
      let o : Option Position = lookup r.symbol b.positions in
      let rq = IsPositive-of_not_le r.quantity g.positive in
      let pc : IsPositive (cost r) =
        mul-IsPositive r.quantity market_price rq (refl, omega arith) in
      let hs =
        held-IsNonneg o r.symbol (λ p f. lookup-IsOpen r.symbol p b.positions v.funded.book f) in
      let q : Decimal = add (held o).0 r.quantity in
      let pq = add-IsPositive (held o).0 r.quantity hs.0 rq in
      let (a, ha, pa) =
        div-IsPositive (add (held o).1 (cost r)) q (add-IsPositive (held o).1 (cost r) hs.1 pc)
          pq in
      let p : Position = record {
        symbol = r.symbol;
        quantity = q;
        average_price = a;
        updated_at = now;
      } in
      (p, refl, ha, filled_with (simp s (rw (h, ha, make_position_lem p pq pa))))

  -- A selling order without a position, or for more than the position holds, raises and changes
  -- nothing.
  pub sell_missing :
      r.side ≡ sell
      → lookup r.symbol b.positions ≡ none
      → place_order r now id x b ≡ (err (value_error "insufficient position"), b)
  unfolding fill fill_sell
  sell_missing s h = raised_with (simp s (rw h))

  pub sell_short :
      (p : Position)
      → r.side ≡ sell
      → lookup r.symbol b.positions ≡ some p
      → lt p.quantity r.quantity ≡ true
      → place_order r now id x b ≡ (err (value_error "insufficient position"), b)
  unfolding fill fill_sell market_execution filled_order
  sell_short p s f h = raised_with (simp s (rw f (rw h)))

  -- A selling order for all of the position removes it and adds the proceeds to the cash.
  pub sell_all :
      (p : Position)
      → r.side ≡ sell
      → lookup r.symbol b.positions ≡ some p
      → lt p.quantity r.quantity ≡ false
      → eq (sub p.quantity r.quantity) (dec 0) ≡ true
      → place_order r now id x b ≡ (
        ok order,
        settled b order execution now
            (add b.account.cash_balance (cost r))
            (erase r.symbol b.positions),
      )
  unfolding fill fill_sell market_execution filled_order reduce_position
  sell_all p s f h z = filled_with (simp s (rw f (rw (h, z))))

  -- A sale of a part of a held position on a valid broker leaves the rest of the quantity at its
  -- average price and adds the price of the sold quantity to the cash.
  pub sell_part :
      (p : Position)
      → r.side ≡ sell
      → lookup r.symbol b.positions ≡ some p
      → lt p.quantity r.quantity ≡ false
      → eq (sub p.quantity r.quantity) (dec 0) ≡ false
      → place_order r now id x b ≡ (
        ok order,
        settled b order execution now (add b.account.cash_balance (cost r)) (
            insert r.symbol
              (record p { quantity = sub p.quantity r.quantity; updated_at = now })
              b.positions),
      )
  unfolding fill fill_sell market_execution filled_order reduce_position
  sell_part p s f h z =
      let o = lookup-IsOpen r.symbol p b.positions v.funded.book f in
      let rq = IsPositive-of_not_le r.quantity g.positive in
      let pq = sub-IsPositive p.quantity r.quantity o.1.0 rq.0 h z in
      filled_with (
        simp s (
          rw f (
            rw (
              h,
              z,
              make_position_lem
                  (record p { quantity = sub p.quantity r.quantity; updated_at = now }) pq o.2,
            ))))
