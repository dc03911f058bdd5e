-- ===== src/Orderbook/Types.antt =====
-- x/orderbook/types/types.go and order_extended.go: the enumerations, and the order with its
-- methods. Timestamps that are only recorded are left out. The enumerations are int32 in the
-- source; values without a name are left out.
pub mod Fill
use perp_dex.Base.{Bool, true, false, String, if◌then◌else◌}
use perp_dex.Base.Int.{◌+ℤ◌, ◌-ℤ◌}
use perp_dex.Decimal.{LegacyDec, zero_dec, gt, gte, is_positive}
use perp_dex.Orderbook.Result.{Result, ok, err, fill_exceeds_remaining}

pub data Side : Type 0 where
  unspecified buy sell : Side

pub data OrderType : Type 0 where
  unspecified limit market stop_loss take_profit stop_limit take_profit_limit trailing_stop :
      OrderType

pub data OrderStatus : Type 0 where
  unspecified opened filled partially_filled cancelled : OrderStatus

-- `s == SideBuy`
abbrev pub is_buy : Side → Bool
is_buy Side.buy = true
is_buy _ = false

abbrev pub is_sell : Side → Bool
is_sell Side.sell = true
is_sell _ = false

abbrev pub is_limit : OrderType → Bool
is_limit OrderType.limit = true
is_limit _ = false

abbrev pub is_market : OrderType → Bool
is_market OrderType.market = true
is_market _ = false

unfoldable pub opposite : Side → Side
opposite s = if is_buy s then Side.sell else Side.buy

pub record Order : Type 0 where
  pub order_id : String
  pub trader : String
  pub market_id : String
  pub side : Side
  pub order_type : OrderType
  pub price : LegacyDec
  pub quantity : LegacyDec
  pub filled_qty : LegacyDec
  pub status : OrderStatus

unfoldable pub new_order :
    String → String → String → Side → OrderType → LegacyDec → LegacyDec → Order
new_order order_id trader market_id side order_type price quantity = record {
  order_id = order_id;
  trader = trader;
  market_id = market_id;
  side = side;
  order_type = order_type;
  price = price;
  quantity = quantity;
  filled_qty = zero_dec;
  status = OrderStatus.opened;
}

abbrev pub remaining_qty : Order → LegacyDec
remaining_qty o = o.quantity -ℤ o.filled_qty

abbrev pub is_filled : Order → Bool
is_filled o = gte o.filled_qty o.quantity

-- `Status == OrderStatusOpen || Status == OrderStatusPartiallyFilled`
abbrev pub is_active_status : OrderStatus → Bool
is_active_status OrderStatus.opened = true
is_active_status OrderStatus.partially_filled = true
is_active_status _ = false

abbrev pub is_active : Order → Bool
is_active o = is_active_status o.status

-- The status after a fill that leaves `o.filled_qty` filled.
fill_status : Order → OrderStatus
fill_status o =
    if is_filled o
    then OrderStatus.filled
    else if is_positive o.filled_qty
    then OrderStatus.partially_filled
    else o.status

-- What the order holds after `Fill` has added the quantity.
unfoldable pub filled_by : LegacyDec → Order → Order
unfolding fill_status
filled_by qty o =
    let o' : Order = record o { filled_qty = o.filled_qty +ℤ qty } in
    record o' { status = fill_status o' }

-- `Order.Fill`: an error leaves the order as it was.
unfoldable pub fill : LegacyDec → Order → Result Order
fill qty o = if gt qty (remaining_qty o) then err fill_exceeds_remaining else ok (filled_by qty o)

unfoldable pub cancel : Order → Order
cancel o = record o { status = OrderStatus.cancelled }
