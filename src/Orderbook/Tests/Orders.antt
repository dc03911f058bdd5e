-- ===== src/Orderbook/Tests/Orders.antt =====
-- The theorems of single orders: fills, conditional orders, trailing stops and pairs.
use perp_dex.Base.{◌≡◌, refl, ◌⊎◌, true, false, not, List, [], ◌∷◌, arith, ◌↔◌, if◌then◌else◌}
use perp_dex.Base.Int.{◌+ℤ◌, ◌-ℤ◌, ◌≤ℤ◌, ◌<ℤ◌}
use perp_dex.Decimal.{LegacyDec, zero_dec, new_dec, gt, lt}
use perp_dex.Orderbook.Result.{ok, err, fill_exceeds_remaining}
use perp_dex.Orderbook.Types.{
  OrderType, OrderStatus, Side, fill, filled_by, remaining_qty, is_active, is_filled,
}
use perp_dex.Orderbook.Types.Fill.{IsWellFormed, SameTerms, fill_lem}
use perp_dex.Orderbook.Matching.Invariant.{IsOpen}
use perp_dex.Orderbook.Conditional.{ConditionalOrder, should_trigger, trigger, cancel_conditional}
use perp_dex.Orderbook.Conditional.Triggers.{trigger_once, bracket_exclusive}
use perp_dex.Orderbook.Trailing.{TrailingStopOrder, update}
use perp_dex.Orderbook.Trailing.Ratchet.{
  TrailsHigh, TrailsLow, update_all, peak, trough, update-TrailsHigh, update-TrailsLow,
  update_all-stop, update_all-stop_low,
}
use perp_dex.Orderbook.Tests.{env, taker, taker-IsOpen}

fill_lem_example :
    ((new_dec 2 ≤ℤ remaining_qty taker)
      × (fill (new_dec 2) taker ≡ ok (filled_by (new_dec 2) taker))
      × IsWellFormed (filled_by (new_dec 2) taker)
      × SameTerms taker (filled_by (new_dec 2) taker)
      × (remaining_qty (filled_by (new_dec 2) taker) ≡ remaining_qty taker -ℤ new_dec 2)
      × (is_active (filled_by (new_dec 2) taker) ≡ not (is_filled (filled_by (new_dec 2) taker))))
    ⊎ ((remaining_qty taker <ℤ new_dec 2) × (fill (new_dec 2) taker ≡ err fill_exceeds_remaining))
fill_lem_example = fill_lem (new_dec 2) taker (omega arith) (taker-IsOpen.well_formed)

-- A long position of one, stopped at 90 and taking profit at 110.
abbrev conditional : OrderType → LegacyDec → ConditionalOrder
conditional type price = record {
  order_id = "s";
  trader = "alice";
  market_id = "BTC-USDC";
  side = Side.sell;
  order_type = type;
  trigger_price = price;
  execution_price = price;
  quantity = new_dec 1;
  flags = record { reduce_only = true; post_only = false; hidden = false };
  status = OrderStatus.opened;
  client_order_id = "";
}

abbrev stop : ConditionalOrder
stop = conditional OrderType.stop_loss (new_dec 90)

abbrev profit : ConditionalOrder
profit = conditional OrderType.take_profit (new_dec 110)

bracket_exclusive_example : should_trigger (new_dec 89) profit ≡ false
unfolding should_trigger
bracket_exclusive_example =
    bracket_exclusive stop profit (new_dec 89) refl refl refl (omega arith) refl

trigger_once_example :
    let (o', e) = trigger stop in
    (should_trigger (new_dec 89) o' ≡ false)
    × (should_trigger (new_dec 89) (cancel_conditional stop) ≡ false)
    × IsOpen e
    × (e.trader ≡ "alice")
    × (e.market_id ≡ "BTC-USDC")
    × (e.side ≡ Side.sell)
    × (e.quantity ≡ new_dec 1)
trigger_once_example = trigger_once stop (new_dec 89) (omega arith)

abbrev trailing : Side → LegacyDec → TrailingStopOrder
trailing side stop_price = record {
  order_id = "t";
  trader = "alice";
  market_id = "BTC-USDC";
  side = side;
  quantity = new_dec 1;
  trail_amount = new_dec 5;
  trail_percent = zero_dec;
  activation_price = zero_dec;
  current_stop_price = stop_price;
  high_water_mark = new_dec 100;
  low_water_mark = new_dec 100;
  is_activated = true;
  status = OrderStatus.opened;
}

abbrev long_stop : TrailingStopOrder
long_stop = trailing Side.sell (new_dec 95)

abbrev short_stop : TrailingStopOrder
short_stop = trailing Side.buy (new_dec 105)

long_stop-TrailsHigh : TrailsHigh long_stop
unfolding ◌-ℤ◌
long_stop-TrailsHigh = record {
  sells = refl;
  opened = refl;
  activated = refl;
  fixed = omega arith;
  at_trail = refl;
}

short_stop-TrailsLow : TrailsLow short_stop
unfolding ◌+ℤ◌
short_stop-TrailsLow = record {
  buys = refl;
  opened = refl;
  activated = refl;
  fixed = omega arith;
  low_positive = omega arith;
  at_trail = refl;
}

update-TrailsHigh_example :
    let (o', fired) = update env.rounding (new_dec 120) long_stop in
    TrailsHigh o'
    × (o'.high_water_mark ≡ (if gt (new_dec 120) (new_dec 100) then new_dec 120 else new_dec 100))
    × (o'.trail_amount ≡ new_dec 5)
    × (new_dec 95 ≤ℤ o'.current_stop_price)
    × ((fired ≡ true) ↔ (new_dec 120 ≤ℤ o'.current_stop_price))
update-TrailsHigh_example =
    update-TrailsHigh env.rounding (new_dec 120) long_stop long_stop-TrailsHigh

update-TrailsLow_example :
    let (o', fired) = update env.rounding (new_dec 80) short_stop in
    TrailsLow o'
    × (o'.low_water_mark ≡ (if lt (new_dec 80) (new_dec 100) then new_dec 80 else new_dec 100))
    × (o'.trail_amount ≡ new_dec 5)
    × (o'.current_stop_price ≤ℤ new_dec 105)
    × ((fired ≡ true) ↔ (o'.current_stop_price ≤ℤ new_dec 80))
update-TrailsLow_example =
    update-TrailsLow env.rounding (new_dec 80) short_stop short_stop-TrailsLow (omega arith)

abbrev prices : List LegacyDec
prices = new_dec 120 ∷ new_dec 110 ∷ new_dec 130 ∷ []

update_all-stop_example :
    (update_all env.rounding prices long_stop).current_stop_price
    ≡ peak (new_dec 100) prices -ℤ new_dec 5
update_all-stop_example = update_all-stop env.rounding prices long_stop long_stop-TrailsHigh

update_all-stop_low_example :
    (update_all env.rounding prices short_stop).current_stop_price
    ≡ trough (new_dec 100) prices +ℤ new_dec 5
update_all-stop_low_example =
    update_all-stop_low env.rounding prices short_stop short_stop-TrailsLow
      (omega arith, (omega arith, (omega arith, tt)))
