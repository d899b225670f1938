-- ===== src/Broker/Models.antt =====
-- src/broker/models.py: the enums and dataclasses, and the checks that their constructors make.
-- Times are numbers on one scale, texts are native, and quantities and prices are decimals.
use Prim.Native.String
use pentagon5_foundation.Prelude.{
  ℕ, String, Option, none, some, List, Result, ok, err, check, and_then,
}
use pentagon5_foundation.Decimal.{Decimal, dec, le}

-- What the calls of the broker and of the strategy package raise.
pub data Error : Type 0 where
  value_error : String → Error
  not_implemented : String → Error
  key_error : String → Error
  division_by_zero : Error

pub data OrderSide : Type 0 where
  buy sell : OrderSide

pub data OrderType : Type 0 where
  market limit : OrderType

pub data OrderStatus : Type 0 where
  pending filled cancelled rejected : OrderStatus

unfoldable pub validate_positive : Decimal → String → Result Error (Unit {0})
validate_positive value name =
    check (le value (dec 0)) (value_error (String.◌++◌ name " must be positive"))

unfoldable pub validate_limit_order : OrderType → Option Decimal → Result Error (Unit {0})
validate_limit_order limit none = err (value_error "limit orders require a limit price")
validate_limit_order market none = ok tt
validate_limit_order order_type (some limit_price) = validate_positive limit_price "limit price"

pub record OrderRequest : Type 0 where
  pub symbol : String
  pub side : OrderSide
  pub order_type : OrderType
  pub quantity : Decimal
  pub requested_at : ℕ
  pub limit_price : Option Decimal

pub record Order : Type 0 where
  pub id : String
  pub symbol : String
  pub side : OrderSide
  pub order_type : OrderType
  pub quantity : Decimal
  pub status : OrderStatus
  pub created_at : ℕ
  pub updated_at : ℕ
  pub limit_price : Option Decimal

pub record Execution : Type 0 where
  pub id : String
  pub order_id : String
  pub symbol : String
  pub side : OrderSide
  pub quantity : Decimal
  pub price : Decimal
  pub executed_at : ℕ

pub record Position : Type 0 where
  pub symbol : String
  pub quantity : Decimal
  pub average_price : Decimal
  pub updated_at : ℕ

pub record Account : Type 0 where
  pub id : String
  pub cash_balance : Decimal
  pub equity : Decimal
  pub buying_power : Decimal
  pub updated_at : ℕ
  pub positions : List Position

-- A dataclass's constructor: the fields as given, if `__post_init__` raises nothing.
unfoldable pub make_order_request : OrderRequest → Result Error OrderRequest
make_order_request r =
    and_then (validate_positive r.quantity "quantity")
      λ _. and_then (validate_limit_order r.order_type r.limit_price) λ _. ok r

unfoldable pub make_order : Order → Result Error Order
make_order o =
    and_then (validate_positive o.quantity "quantity")
      λ _. and_then (validate_limit_order o.order_type o.limit_price) λ _. ok o

unfoldable pub make_execution : Execution → Result Error Execution
make_execution e =
    and_then (validate_positive e.quantity "quantity")
      λ _. and_then (validate_positive e.price "price") λ _. ok e

unfoldable pub make_position : Position → Result Error Position
make_position p =
    and_then (validate_positive p.quantity "quantity")
      λ _. and_then (validate_positive p.average_price "average price") λ _. ok p
