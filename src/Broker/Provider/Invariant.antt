-- ===== src/Broker/Provider/Invariant.antt =====
-- The invariant of `MockBrokerProvider`, and what each step of `place_order` does to it.
use pentagon5_foundation.Prelude.{
  String, ◌≡◌, refl, Bool-cases, inl, inr, false, Option, none, some, Result, ok, err, Option-cases,
}
use pentagon5_foundation.Prelude.Dict.{lookup}
use pentagon5_foundation.Decimal.{Decimal, dec, add, sub, lt, eq}
use pentagon5_foundation.Decimal.Sign.{
  IsPositive, IsNonneg, add-IsPositive, add-IsNonneg, mul-IsPositive, sub-IsNonneg, sub-IsPositive,
  not_le_of_positive,
}
use pentagon5_foundation.Decimal.Division.{div-IsPositive}
use pentagon5_foundation.Broker.Models.{
  Error, Execution, Position, OrderSide, buy, sell, make_position, validate_positive,
}
use pentagon5_foundation.Broker.Provider.{Broker, held, fill_buy, fill_sell, fill, reduce_position}
use pentagon5_foundation.Broker.Provider.Book.{
  IsOpen, IsBook, lookup-IsOpen, insert-IsBook, erase-IsBook,
}

-- What the positions and the cash satisfy between calls.
pub record IsFunded (b : Broker) : Type 0 where
  pub cash : IsNonneg b.account.cash_balance
  pub book : IsBook b.positions

-- How a fill may end: with the new cash balance and only the positions changed, or with an error
-- and nothing changed.
abbrev pub Fills : Broker → Result Error Decimal × Broker → Type 0
Fills b (ok cash, b') =
    IsNonneg cash × IsBook b'.positions × (b' ≡ record b { positions = b'.positions })
Fills b (err e, b') = b' ≡ b

pub make_position_lem :
    (p : Position) → IsPositive p.quantity → IsPositive p.average_price → make_position p ≡ ok p
unfolding make_position validate_positive
make_position_lem p hq ha =
    rw (not_le_of_positive p.quantity hq, not_le_of_positive p.average_price ha)

pub held-IsNonneg :
    (o : Option Position) (k : String)
    → ((p : Position) → o ≡ some p → IsOpen k p)
    → IsNonneg (held o).0 × IsNonneg (held o).1
unfolding held
held-IsNonneg none k h = (refl, refl)
held-IsNonneg (some p) k h =
    let o = h p refl in (o.1.0, (mul-IsPositive p.quantity p.average_price o.1 o.2).0)

module _ (b : Broker) (v : IsFunded b) (e : Execution) (n : Decimal) (hq : IsPositive e.quantity)
    (hn : IsPositive n) where
  fill_buy-Fills : Fills b (fill_buy e (lookup e.symbol b.positions) n b)
  unfolding fill_buy
  fill_buy-Fills =
      let o : Option Position = lookup e.symbol b.positions in
      let hs = held-IsNonneg o e.symbol (λ p f. lookup-IsOpen e.symbol p b.positions v.book f) in
      let q : Decimal = add (held o).0 e.quantity in
      let pq = add-IsPositive (held o).0 e.quantity hs.0 hq in
      let (a, ha, pa) =
        div-IsPositive (add (held o).1 n) q (add-IsPositive (held o).1 n hs.1 hn) pq in
      let p : Position = record {
        symbol = e.symbol;
        quantity = q;
        average_price = a;
        updated_at = e.executed_at;
      } in
      elim (Bool-cases (lt b.account.cash_balance n)) [
        | inl short ↦ rw short
        | inr enough ↦
            rw (enough, ha, make_position_lem p pq pa)
              (
                sub-IsNonneg b.account.cash_balance n v.cash hn.0 enough,
                insert-IsBook e.symbol p b.positions v.book (refl, pq, pa),
                refl,
              )
      ]

  reduce_covered :
      (p : Position)
      → IsOpen e.symbol p
      → lt p.quantity e.quantity ≡ false
      → Fills b ((fill_sell e (some p) n) b)
  unfolding fill_sell reduce_position
  reduce_covered p h c = elim (Bool-cases (eq (sub p.quantity e.quantity) (dec 0))) [
    | inl all ↦
        rw (c, all)
          (
            add-IsNonneg b.account.cash_balance n v.cash hn.0,
            erase-IsBook e.symbol b.positions v.book,
            refl,
          )
    | inr left ↦
        let q : Decimal = sub p.quantity e.quantity in
        let pq = sub-IsPositive p.quantity e.quantity h.1.0 hq.0 c left in
        let r : Position = record p { quantity = q; updated_at = e.executed_at } in
        rw (c, left, make_position_lem r pq h.2)
          (
            add-IsNonneg b.account.cash_balance n v.cash hn.0,
            insert-IsBook e.symbol r b.positions v.book (h.0, pq, h.2),
            refl,
          )
  ]

  sell_position : (p : Position) → IsOpen e.symbol p → Fills b (fill_sell e (some p) n b)
  sell_position p h = elim (Bool-cases (lt p.quantity e.quantity)) [
    | inl short ↦ unfold fill_sell in rw short refl
    | inr enough ↦ reduce_covered p h enough
  ]

  fill_sell-Fills : Fills b (fill_sell e (lookup e.symbol b.positions) n b)
  fill_sell-Fills = elim (Option-cases (lookup e.symbol b.positions)) [
    | inl missing ↦ rw missing (unfold fill_sell in refl)
    | inr (p, found) ↦
        rw found (sell_position p (lookup-IsOpen e.symbol p b.positions v.book found))
  ]

  pub fill-Fills : (s : OrderSide) → Fills b (fill s e (lookup e.symbol b.positions) n b)
  unfolding fill
  fill-Fills buy = fill_buy-Fills
  fill-Fills sell = fill_sell-Fills
