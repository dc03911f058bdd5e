-- ===== src/Orderbook/Conditional/Triggers.antt =====
-- When conditional orders trigger, and that they do so once.
use perp_dex.Base.{◌≡◌, refl, true, false, Bool, arith, if◌then◌else◌, ◌&&◌, sym, ◌∙◌}
use perp_dex.Base.Int.{◌<ℤ◌}
use perp_dex.Decimal.{LegacyDec, zero_dec}
use perp_dex.Orderbook.Types.{OrderType, Side, is_sell}
use perp_dex.Orderbook.Matching.Invariant.{IsOpen}
use perp_dex.Orderbook.Conditional.{
  ConditionalOrder, is_open, should_trigger, trigger, cancel_conditional, crosses,
}

-- The stop types, and the take-profit types.
abbrev pub stops : OrderType → Bool
stops OrderType.stop_loss = true
stops OrderType.stop_limit = true
stops _ = false

abbrev pub takes_profit : OrderType → Bool
takes_profit OrderType.take_profit = true
takes_profit OrderType.take_profit_limit = true
takes_profit _ = false

-- A conditional order of a positive quantity that has triggered or been cancelled triggers at no
-- price again. What the trigger executes is a well-formed order with all of it left to fill, of the
-- same trader, market, side and quantity.
pub trigger_once :
    (o : ConditionalOrder) (mark : LegacyDec)
    → zero_dec <ℤ o.quantity
    → let (o', e) = trigger o in
      (should_trigger mark o' ≡ false)
      × (should_trigger mark (cancel_conditional o) ≡ false)
      × IsOpen e
      × (e.trader ≡ o.trader)
      × (e.market_id ≡ o.market_id)
      × (e.side ≡ o.side)
      × (e.quantity ≡ o.quantity)
unfolding should_trigger trigger cancel_conditional
trigger_once o mark p = (
  refl,
  refl,
  record {
    well_formed = record { filled_nonneg = omega arith; filled_le = omega arith };
    unfilled = λ _. p;
  },
  refl,
  refl,
  refl,
  refl,
)

and_right : (a b : Bool) → (a && b) ≡ true → b ≡ true
and_right a b h = ground arith

and_false : (a b : Bool) → b ≡ false → (a && b) ≡ false
and_false a b h = ground arith

-- An order of these types triggers where it is open and the price has crossed.
should_trigger_stop :
    (o : ConditionalOrder) (mark : LegacyDec)
    → stops o.order_type ≡ true
    → should_trigger mark o ≡ is_open o.status && crosses true o.side mark o.trigger_price
unfolding should_trigger
should_trigger_stop o mark h = ground arith

should_trigger_profit :
    (o : ConditionalOrder) (mark : LegacyDec)
    → takes_profit o.order_type ≡ true
    → should_trigger mark o ≡ is_open o.status && crosses false o.side mark o.trigger_price
unfolding should_trigger
should_trigger_profit o mark h = ground arith

crosses_apart :
    (s : Side) (mark stop profit : LegacyDec)
    → (if is_sell s then stop <ℤ profit else profit <ℤ stop)
    → crosses true s mark stop ≡ true
    → crosses false s mark profit ≡ false
unfolding crosses
crosses_apart Side.sell mark stop profit gap h = ground arith
crosses_apart Side.buy mark stop profit gap h = ground arith
crosses_apart Side.unspecified mark stop profit gap h = ground arith

-- A stop order and a take-profit order that close one position (both sell, the stop's trigger below
-- the target's, or both on the other side, the stop's trigger above it) never trigger at the same
-- mark price: where the stop triggers the target does not.
pub bracket_exclusive :
    (stop profit : ConditionalOrder) (mark : LegacyDec)
    → stops stop.order_type ≡ true
    → takes_profit profit.order_type ≡ true
    → stop.side ≡ profit.side
    → (if is_sell stop.side
        then stop.trigger_price <ℤ profit.trigger_price
        else profit.trigger_price <ℤ stop.trigger_price)
    → should_trigger mark stop ≡ true
    → should_trigger mark profit ≡ false
bracket_exclusive stop profit mark hs hp same gap fires =
    let crossed = and_right _ _ (sym (should_trigger_stop stop mark hs) ∙ fires) in
    should_trigger_profit profit mark hp
    ∙ rw (← same) (
        and_false _ _
          (crosses_apart stop.side mark stop.trigger_price profit.trigger_price gap crossed))
