-- ===== src/Orderbook/Trailing.antt =====
-- x/orderbook/types/order_extended.go: the trailing stop order. Times are left out: they are only
-- recorded.
pub mod Ratchet
use Prim.Native.String.{◌++◌}
use perp_dex.Base.{Bool, true, false, not, String, ◌||◌, if◌then◌else◌}
use perp_dex.Base.Int.{◌+ℤ◌, ◌-ℤ◌}
use perp_dex.Decimal.{
  LegacyDec, zero_dec, new_dec, gt, gte, lt, lte, is_zero, is_positive, Rounding,
}
use perp_dex.Orderbook.Types.{Side, OrderType, OrderStatus, Order, is_sell}
use perp_dex.Orderbook.Conditional.{is_open}

pub record TrailingStopOrder : Type 0 where
  pub order_id : String
  pub trader : String
  pub market_id : String
  pub side : Side
  pub quantity : LegacyDec
  pub trail_amount : LegacyDec
  pub trail_percent : LegacyDec
  pub activation_price : LegacyDec
  pub current_stop_price : LegacyDec
  pub high_water_mark : LegacyDec
  pub low_water_mark : LegacyDec
  pub is_activated : Bool
  pub status : OrderStatus

-- `NewTrailingStopOrder` has the trail as an amount, `NewTrailingStopOrderPercent` as a percentage.
new_trailing :
    String
    → String
    → String
    → Side
    → LegacyDec
    → LegacyDec
    → LegacyDec
    → LegacyDec
    → TrailingStopOrder
new_trailing order_id trader market_id side quantity amount percent activation_price = record {
  order_id = order_id;
  trader = trader;
  market_id = market_id;
  side = side;
  quantity = quantity;
  trail_amount = amount;
  trail_percent = percent;
  activation_price = activation_price;
  current_stop_price = zero_dec;
  high_water_mark = zero_dec;
  low_water_mark = zero_dec;
  is_activated = is_zero activation_price;
  status = OrderStatus.opened;
}

unfoldable pub new_trailing_stop_order :
    String → String → String → Side → LegacyDec → LegacyDec → LegacyDec → TrailingStopOrder
unfolding new_trailing
new_trailing_stop_order order_id trader market_id side quantity amount activation_price =
    new_trailing order_id trader market_id side quantity amount zero_dec activation_price

unfoldable pub new_trailing_stop_order_percent :
    String → String → String → Side → LegacyDec → LegacyDec → LegacyDec → TrailingStopOrder
unfolding new_trailing
new_trailing_stop_order_percent order_id trader market_id side quantity percent activation_price =
    new_trailing order_id trader market_id side quantity zero_dec percent activation_price

module _ (r : Rounding) where
  -- `GetTrailDistance`
  unfoldable pub get_trail_distance : LegacyDec → TrailingStopOrder → LegacyDec
  get_trail_distance price o =
      if is_positive o.trail_amount
      then o.trail_amount
      else r.quo (r.mul price o.trail_percent) (new_dec 100)

  -- The high, or low, water mark moves to the price, and the stop follows it.
  raise_stop : LegacyDec → TrailingStopOrder → TrailingStopOrder
  unfolding get_trail_distance
  raise_stop mark o = record o {
    high_water_mark = mark;
    current_stop_price = mark -ℤ get_trail_distance mark o;
  }

  lower_stop : LegacyDec → TrailingStopOrder → TrailingStopOrder
  unfolding get_trail_distance
  lower_stop mark o = record o {
    low_water_mark = mark;
    current_stop_price = mark +ℤ get_trail_distance mark o;
  }

  activate : LegacyDec → TrailingStopOrder → TrailingStopOrder
  unfolding raise_stop lower_stop
  activate mark o =
      let o' : TrailingStopOrder = record o { is_activated = true } in
      if is_sell o.side
      then if gte mark o.activation_price then raise_stop mark o' else o
      else if lte mark o.activation_price
      then lower_stop mark o'
      else o

  follow : LegacyDec → TrailingStopOrder → TrailingStopOrder
  unfolding raise_stop lower_stop
  follow mark o =
      if is_sell o.side
      then if gt mark o.high_water_mark then raise_stop mark o else o
      else if lt mark o.low_water_mark || is_zero o.low_water_mark
      then lower_stop mark o
      else o

  is_hit : LegacyDec → TrailingStopOrder → Bool
  is_hit mark o =
      if is_sell o.side then lte mark o.current_stop_price else gte mark o.current_stop_price

  -- `Update`: the order as it leaves it, and whether the stop was triggered.
  unfoldable pub update : LegacyDec → TrailingStopOrder → TrailingStopOrder × Bool
  unfolding activate follow is_hit
  update mark o =
      if not (is_open o.status)
      then (o, false)
      else if not o.is_activated
      then (activate mark o, false)
      else (follow mark o, is_hit mark (follow mark o))

unfoldable pub trigger_trailing : TrailingStopOrder → TrailingStopOrder × Order
trigger_trailing o = (
  record o { status = OrderStatus.filled },
  record {
    order_id = o.order_id ++ "-exec";
    trader = o.trader;
    market_id = o.market_id;
    side = o.side;
    order_type = OrderType.market;
    price = o.current_stop_price;
    quantity = o.quantity;
    filled_qty = zero_dec;
    status = OrderStatus.opened;
  },
)

unfoldable pub cancel_trailing : TrailingStopOrder → TrailingStopOrder
cancel_trailing o = record o { status = OrderStatus.cancelled }
