-- ===== src/Orderbook/Oco.antt =====
-- x/orderbook/types/order_extended.go: the one-cancels-other pair. Times are left out: they are only
-- recorded.
use perp_dex.Base.{Bool, true, false, not, String, if◌then◌else◌}
use perp_dex.Decimal.{LegacyDec}
use perp_dex.Orderbook.Types.{OrderStatus, Order}
use perp_dex.Orderbook.Conditional.{ConditionalOrder, should_trigger, trigger, cancel_conditional}

pub data OcoStatus : Type 0 where
  pending partial_triggered triggered cancelled : OcoStatus

unfoldable pub oco_status_string : OcoStatus → String
oco_status_string pending = "pending"
oco_status_string partial_triggered = "partial_triggered"
oco_status_string triggered = "triggered"
oco_status_string cancelled = "cancelled"

pub record OcoOrder : Type 0 where
  pub oco_id : String
  pub trader : String
  pub market_id : String
  pub stop_order : ConditionalOrder
  pub limit_order : Order
  pub status : OcoStatus
  pub triggered_id : String

unfoldable pub new_oco_order : String → String → String → ConditionalOrder → Order → OcoOrder
new_oco_order oco_id trader market_id stop_order limit_order = record {
  oco_id = oco_id;
  trader = trader;
  market_id = market_id;
  stop_order = stop_order;
  limit_order = limit_order;
  status = pending;
  triggered_id = "";
}

abbrev pub is_pending : OcoStatus → Bool
is_pending pending = true
is_pending _ = false

-- `TriggerStop`, with the order to execute.
unfoldable pub trigger_stop : OcoOrder → OcoOrder × Order
unfolding trigger
trigger_stop o = (
  record o {
    status = triggered;
    triggered_id = o.stop_order.order_id;
    limit_order = record o.limit_order { status = OrderStatus.cancelled };
    stop_order = (trigger o.stop_order).0;
  },
  (trigger o.stop_order).1,
)

unfoldable pub trigger_limit : OcoOrder → OcoOrder
unfolding cancel_conditional
trigger_limit o = record o {
  status = triggered;
  triggered_id = o.limit_order.order_id;
  stop_order = cancel_conditional o.stop_order;
}

unfoldable pub cancel_oco : OcoOrder → OcoOrder
unfolding cancel_conditional
cancel_oco o = record o {
  status = cancelled;
  stop_order = cancel_conditional o.stop_order;
  limit_order = record o.limit_order { status = OrderStatus.cancelled };
}

-- `CheckTrigger`: "stop", or "" where nothing triggers.
unfoldable pub check_trigger : LegacyDec → OcoOrder → String
unfolding should_trigger
check_trigger mark o =
    if not (is_pending o.status)
    then ""
    else if should_trigger mark o.stop_order
    then "stop"
    else ""
