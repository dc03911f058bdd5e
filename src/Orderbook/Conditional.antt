-- ===== src/Orderbook/Conditional.antt =====
-- x/orderbook/types/order_extended.go: order flags, time in force, extended and conditional orders.
-- Times are left out: they are only recorded.
pub mod Triggers
use Prim.Native.String.{◌++◌}
use perp_dex.Base.{Bool, true, false, not, String, ◌||◌, if◌then◌else◌}
use perp_dex.Decimal.{LegacyDec, zero_dec, gte, lte}
use perp_dex.Orderbook.Types.{Side, OrderType, OrderStatus, Order, is_sell}

-- `ExtendedString`
unfoldable pub extended_string : OrderType → String
extended_string OrderType.limit = "limit"
extended_string OrderType.market = "market"
extended_string OrderType.stop_loss = "stop_loss"
extended_string OrderType.take_profit = "take_profit"
extended_string OrderType.stop_limit = "stop_limit"
extended_string OrderType.take_profit_limit = "take_profit_limit"
extended_string OrderType.trailing_stop = "trailing_stop"
extended_string OrderType.unspecified = "unspecified"

unfoldable pub is_conditional : OrderType → Bool
is_conditional OrderType.stop_loss = true
is_conditional OrderType.take_profit = true
is_conditional OrderType.stop_limit = true
is_conditional OrderType.take_profit_limit = true
is_conditional OrderType.trailing_stop = true
is_conditional _ = false

pub data TimeInForce : Type 0 where
  gtc ioc fok gtx : TimeInForce

unfoldable pub time_in_force_string : TimeInForce → String
time_in_force_string gtc = "GTC"
time_in_force_string ioc = "IOC"
time_in_force_string fok = "FOK"
time_in_force_string gtx = "GTX"

pub record OrderFlags : Type 0 where
  pub reduce_only : Bool
  pub post_only : Bool
  pub hidden : Bool

pub record ExtendedOrder : Type 0 where
  pub order_id : String
  pub trader : String
  pub market_id : String
  pub side : Side
  pub order_type : OrderType
  pub price : LegacyDec
  pub quantity : LegacyDec
  pub filled_qty : LegacyDec
  pub status : OrderStatus
  pub time_in_force : TimeInForce
  pub trigger_price : LegacyDec
  pub flags : OrderFlags
  pub client_order_id : String

-- `NewExtendedOrder`, which sets neither the trigger price nor the client's ID.
unfoldable pub new_extended_order :
    String
    → String
    → String
    → Side
    → OrderType
    → LegacyDec
    → LegacyDec
    → TimeInForce
    → OrderFlags
    → ExtendedOrder
new_extended_order order_id trader market_id side order_type price quantity time_in_force flags =
    record {
      order_id = order_id;
      trader = trader;
      market_id = market_id;
      side = side;
      order_type = order_type;
      price = price;
      quantity = quantity;
      filled_qty = zero_dec;
      status = OrderStatus.opened;
      time_in_force = time_in_force;
      trigger_price = zero_dec;
      flags = flags;
      client_order_id = "";
    }

unfoldable pub to_order : ExtendedOrder → Order
to_order o = record {
  order_id = o.order_id;
  trader = o.trader;
  market_id = o.market_id;
  side = o.side;
  order_type = o.order_type;
  price = o.price;
  quantity = o.quantity;
  filled_qty = o.filled_qty;
  status = o.status;
}

pub record ConditionalOrder : Type 0 where
  pub order_id : String
  pub trader : String
  pub market_id : String
  pub side : Side
  pub order_type : OrderType
  pub trigger_price : LegacyDec
  pub execution_price : LegacyDec
  pub quantity : LegacyDec
  pub flags : OrderFlags
  pub status : OrderStatus
  pub client_order_id : String

unfoldable pub new_conditional_order :
    String
    → String
    → String
    → Side
    → OrderType
    → LegacyDec
    → LegacyDec
    → LegacyDec
    → OrderFlags
    → ConditionalOrder
new_conditional_order order_id trader market_id side order_type trigger_price execution_price
      quantity flags =
    record {
      order_id = order_id;
      trader = trader;
      market_id = market_id;
      side = side;
      order_type = order_type;
      trigger_price = trigger_price;
      execution_price = execution_price;
      quantity = quantity;
      flags = flags;
      status = OrderStatus.opened;
      client_order_id = "";
    }

-- `Status == OrderStatusOpen`
abbrev pub is_open : OrderStatus → Bool
is_open OrderStatus.opened = true
is_open _ = false

-- The direction in which the mark price has to cross the trigger: `stops` for the stop types.
unfoldable pub crosses : Bool → Side → LegacyDec → LegacyDec → Bool
crosses stops side mark trigger =
    if is_sell side
    then if stops then lte mark trigger else gte mark trigger
    else if stops
    then gte mark trigger
    else lte mark trigger

trigger_test : OrderType → Side → LegacyDec → LegacyDec → Bool
unfolding crosses
trigger_test OrderType.stop_loss side mark trigger = crosses true side mark trigger
trigger_test OrderType.stop_limit side mark trigger = crosses true side mark trigger
trigger_test OrderType.take_profit side mark trigger = crosses false side mark trigger
trigger_test OrderType.take_profit_limit side mark trigger = crosses false side mark trigger
trigger_test _ side mark trigger = false

-- `ShouldTrigger`
unfoldable pub should_trigger : LegacyDec → ConditionalOrder → Bool
unfolding trigger_test
should_trigger mark o =
    if not (is_open o.status) then false else trigger_test o.order_type o.side mark o.trigger_price

execution_type : OrderType → OrderType
execution_type OrderType.stop_limit = OrderType.limit
execution_type OrderType.take_profit_limit = OrderType.limit
execution_type _ = OrderType.market

-- `Trigger`: the conditional order as it leaves it, and the order to execute.
unfoldable pub trigger : ConditionalOrder → ConditionalOrder × Order
unfolding execution_type
trigger o = (
  record o { status = OrderStatus.filled },
  record {
    order_id = o.order_id ++ "-exec";
    trader = o.trader;
    market_id = o.market_id;
    side = o.side;
    order_type = execution_type o.order_type;
    price = o.execution_price;
    quantity = o.quantity;
    filled_qty = zero_dec;
    status = OrderStatus.opened;
  },
)

unfoldable pub cancel_conditional : ConditionalOrder → ConditionalOrder
cancel_conditional o = record o { status = OrderStatus.cancelled }
