-- ===== src/Broker/Tests.antt =====
-- Runs of the broker on small inputs, and the theorems of its modules at such inputs.
use pentagon5_foundation.Prelude.{ℕ, ◌≡◌, refl, true, false, none, some, ◌^◌, [], ◌∷◌, ok, err}
use pentagon5_foundation.Prelude.Dict.{lookup, insert, erase}
use pentagon5_foundation.Prelude.Int.{min_ℤ, gap, ◌+ℤ◌, ◌-ℤ◌, pos, negsuc}
use pentagon5_foundation.Decimal.{
  dec, add, sub, mul, div, lt, le, eq, exact_add, from_parts, scaled, fix, quotient, shifted,
  strip_zeros,
}
use pentagon5_foundation.Decimal.Digits.{digits}
use pentagon5_foundation.Broker.Models.{
  OrderRequest, buy, sell, market, Position, make_order, make_execution, make_position,
  validate_positive, validate_limit_order,
}
use pentagon5_foundation.Broker.Provider
use pentagon5_foundation.Broker.Provider.{Broker, init, filled_order, market_execution}
use pentagon5_foundation.Broker.Provider.Runs.{Call, run, run-IsValid}
use pentagon5_foundation.Broker.Provider.Placing.{IsValid, Places, settled, place_order_outcome}
use pentagon5_foundation.Broker.Provider.Trades.{IsAccepted, cost, buy_fills, sell_part, sell_all}
use pentagon5_foundation.Broker.Provider.Orders.{
  cancel_error, cancel_order_outcome, Reads, read_back,
}

third :
    div (dec 100) (dec 3)
    ≡ some (record { sign = false; int = 3333333333333333333333333333; exp = negsuc 25 })
unfolding div quotient shifted strip_zeros fix digits gap ◌+ℤ◌ ◌-ℤ◌
third = refl

exact_quotient : div (dec 1000) (dec 10) ≡ some (dec 100)
unfolding div quotient shifted strip_zeros fix digits gap ◌+ℤ◌ ◌-ℤ◌
exact_quotient = refl

rounded_sum :
    (add
      (record { sign = false; int = 9999999999999999999999999999; exp = pos 0 })
      (record { sign = false; int = 5; exp = negsuc 0 })).int
    ≡ 10 ^ 27
unfolding add exact_add from_parts scaled fix digits gap ◌+ℤ◌ ◌-ℤ◌ min_ℤ
rounded_sum = refl

abbrev ten : OrderRequest
ten = record {
  symbol = "AAPL";
  side = buy;
  order_type = market;
  quantity = dec 10;
  requested_at = 1;
  limit_price = none;
}

abbrev opened : Broker
opened = run (Call.connect ∷ []) (init 0 "account")

abbrev bought : Broker
bought = run (Call.place_order ten 2 "order" "execution" ∷ []) opened

-- Everything that a run of the provider computes with.
unfoldable running : ℕ
unfolding run init Provider.connect Provider.place_order Provider.require_connected Provider.settle
    Provider.apply_fill Provider.update_account Provider.filled_account Provider.record_fill
    Provider.stored_fill Provider.refresh_account Provider.refreshed_account Provider.get_positions
    Provider.sorted_keys Provider.insert_sorted Provider.read_all Provider.market_value filled_order
    market_execution Provider.fill Provider.fill_buy Provider.fill_sell Provider.reduce_position
    Provider.held Provider.cancel_order Provider.get_order make_order make_execution make_position
    validate_positive validate_limit_order insert lookup erase add sub mul div lt le eq exact_add
    from_parts scaled fix quotient shifted strip_zeros digits min_ℤ gap ◌+ℤ◌ ◌-ℤ◌
running = 0

bought_account :
    (bought.account.cash_balance ≡ dec 99000)
    × (bought.account.equity ≡ dec 100000)
    × (bought.connected ≡ true)
unfolding running
bought_account = (refl, refl, refl)

abbrev four : OrderRequest
four = record ten { side = sell; quantity = dec 4 }

abbrev six : OrderRequest
six = record ten { side = sell; quantity = dec 6 }

abbrev left : Broker
left = run (Call.place_order four 3 "second" "execution" ∷ []) bought

left_account :
    (left.account.cash_balance ≡ dec 99400)
    × (lookup "AAPL" left.positions
        ≡ some
            (record { symbol = "AAPL"; quantity = dec 6; average_price = dec 100; updated_at = 3 }))
unfolding running
left_account = (refl, refl)

opened-IsValid : IsValid opened
opened-IsValid = run-IsValid 0 "account" (Call.connect ∷ [])

bought-IsValid : IsValid bought
unfolding run
bought-IsValid =
    run-IsValid 0 "account" (Call.connect ∷ Call.place_order ten 2 "order" "execution" ∷ [])

run-IsValid_example : IsValid bought
unfolding run
run-IsValid_example =
    run-IsValid 0 "account" (Call.connect ∷ Call.place_order ten 2 "order" "execution" ∷ [])

left-IsValid : IsValid left
unfolding run
left-IsValid = run-IsValid 0 "account" (
    Call.connect
    ∷ Call.place_order ten 2 "order" "execution"
    ∷ Call.place_order four 3 "second" "execution"
    ∷ [])

place_order_outcome_example :
    Places bought
      (filled_order four 3 "second")
      (market_execution (filled_order four 3 "second") 3 "x")
      (Provider.place_order four 3 "second" "x" bought)
place_order_outcome_example = place_order_outcome bought four 3 "second" "x" bought-IsValid

ten-IsAccepted : IsAccepted opened ten
unfolding running
ten-IsAccepted = record { connected = refl; market = refl; positive = refl }

four-IsAccepted : IsAccepted bought four
unfolding running
four-IsAccepted = record { connected = refl; market = refl; positive = refl }

six-IsAccepted : IsAccepted left six
unfolding running
six-IsAccepted = record { connected = refl; market = refl; positive = refl }

buy_fills_example :
    (p : Position) × (p.quantity ≡ add (Provider.held (lookup "AAPL" opened.positions)).0 (dec 10))
    × (div (add (Provider.held (lookup "AAPL" opened.positions)).1 (cost ten)) p.quantity
        ≡ some p.average_price)
    × (Provider.place_order ten 2 "order" "execution" opened ≡ (
      ok (filled_order ten 2 "order"),
      settled opened
          (filled_order ten 2 "order")
          (market_execution (filled_order ten 2 "order") 2 "execution")
          2
          (sub opened.account.cash_balance (cost ten))
          (insert "AAPL" p opened.positions),
    ))
unfolding running
buy_fills_example =
    buy_fills opened ten 2 "order" "execution" opened-IsValid ten-IsAccepted refl refl

abbrev held_ten : Position
held_ten = record { symbol = "AAPL"; quantity = dec 10; average_price = dec 100; updated_at = 2 }

sell_part_example : Provider.place_order four 3 "second" "x" bought ≡ (
  ok (filled_order four 3 "second"),
  settled bought
      (filled_order four 3 "second")
      (market_execution (filled_order four 3 "second") 3 "x")
      3
      (add bought.account.cash_balance (cost four))
      (insert "AAPL"
        (record held_ten { quantity = sub (dec 10) (dec 4); updated_at = 3 })
        bought.positions),
)
unfolding running
sell_part_example =
    sell_part bought four 3 "second" "x" bought-IsValid four-IsAccepted held_ten refl refl refl refl

abbrev held_six : Position
held_six = record held_ten { quantity = dec 6; updated_at = 3 }

sell_all_example : Provider.place_order six 4 "third" "x" left ≡ (
  ok (filled_order six 4 "third"),
  settled left
      (filled_order six 4 "third")
      (market_execution (filled_order six 4 "third") 4 "x")
      4
      (add left.account.cash_balance (cost six))
      (erase "AAPL" left.positions),
)
unfolding running
sell_all_example =
    sell_all left six 4 "third" "x" left-IsValid six-IsAccepted held_six refl refl refl refl

cancel_order_outcome_example :
    Provider.cancel_order "order" 5 bought ≡ (err (cancel_error "order" bought), bought)
cancel_order_outcome_example = cancel_order_outcome bought "order" 5 bought-IsValid

read_back_example : Reads opened ten 2 "order" "execution" bought (filled_order ten 2 "order")
unfolding running
read_back_example =
    read_back opened ten 2 "order" "execution" (filled_order ten 2 "order") bought refl
      opened-IsValid refl refl
