-- ===== src/Orderbook/Engine/Place.antt =====
-- `PlaceOrder`: what it gives where the margin check passes, and where it fails.
use perp_dex.Base.{◌≡◌, Bool, true, false, String, arith, sym, ◌∙◌, Bool-cases, inl, inr}
use perp_dex.Base.Int.{◌<ℤ◌}
use perp_dex.Decimal.{LegacyDec, zero_dec}
use perp_dex.Orderbook.Types.{Side, OrderType, Order, new_order}
use perp_dex.Orderbook.Store.{Env, State, next_counter}
use perp_dex.Base.Outcome.{Outcome, done, failed}
use perp_dex.Orderbook.Matching.Invariant.{IsOpen, IsSound}
use perp_dex.Orderbook.Engine.{Matched, place_order}
use perp_dex.Orderbook.Matching.Loops.{HasMarket}
use perp_dex.Orderbook.Engine.Process.{IsPlaced, process_order_total}
use perp_dex.Orderbook.Engine.Rests.{IsNamed, RestsIfLeft, process_order_rests}

done-failed : {S A : Type 0} {a : A} {s : S} → done a ≡ failed s → ⊥
done-failed e = ground arith

failed_inj : {S A : Type 0} {s s' : S} → ◌≡◌ {A = Outcome S A} (failed s) (failed s') → s ≡ s'
failed_inj e = ground arith

module _ {P : Type 0} (env : Env P) where
  new_order-IsOpen :
      (id trader market_id : String) (side : Side) (t : OrderType) (price quantity : LegacyDec)
      → zero_dec <ℤ quantity
      → IsOpen (new_order id trader market_id side t price quantity)
  unfolding new_order
  new_order-IsOpen id trader market_id side t price quantity p = record {
    well_formed = record { filled_nonneg = omega arith; filled_le = omega arith };
    unfilled = λ _. p;
  }

  -- The store in which the margin check of `PlaceOrder` leaves its order: the counter has moved, and
  -- the perpetual module has done what the check does.
  abbrev pub checked : String → String → Side → LegacyDec → LegacyDec → State P → State P
  checked trader market_id side price quantity s = record s {
    order_counter = next_counter s.order_counter;
    perp = (env.check_margin_requirement s.perp trader market_id side quantity price).0;
  }

  abbrev next_id : State P → String
  next_id s = env.order_name (next_counter s.order_counter)

  -- The order that `PlaceOrder` makes of its arguments.
  abbrev pub placed_as :
      String → String → Side → OrderType → LegacyDec → LegacyDec → State P → Order
  placed_as trader market_id side t price quantity s =
      new_order (next_id s) trader market_id side t price quantity

  abbrev pub margin_passes : String → String → Side → LegacyDec → LegacyDec → State P → Bool
  margin_passes trader market_id side price quantity s =
      (env.check_margin_requirement s.perp trader market_id side quantity price).1

  -- `PlaceOrder` for a positive quantity that passes the margin check, in a market that is known, on
  -- a well-formed store whose books stand under the markets they name, ends without an error or a
  -- panic. The order has the next order ID and the trader, market, side, type, price and quantity
  -- of the call; it is filled by exactly what its trades add up to, each at a price that it accepts,
  -- and is saved. A limit order with something left is then listed on its side of its market's book;
  -- a market order is not active.
  pub place_order_total :
      (trader market_id : String) (side : Side) (t : OrderType) (price quantity : LegacyDec)
      (s : State P)
      → zero_dec <ℤ quantity
      → IsSound s.orders
      → IsNamed s.order_books
      → HasMarket env (placed_as trader market_id side t price quantity s)
      → margin_passes trader market_id side price quantity s ≡ true
      → (m : Matched P) × (place_order env trader market_id side t price quantity s ≡ done m)
        × IsPlaced (placed_as trader market_id side t price quantity s) m
        × RestsIfLeft m
  unfolding place_order
  place_order_total trader market_id side t price quantity s p sound named known e =
      let o = placed_as trader market_id side t price quantity s in
      let (m, run, placed, rests) =
        process_order_rests env o (checked trader market_id side price quantity s)
          (new_order-IsOpen (next_id s) trader market_id side t price quantity p) sound named
          known in
      (m, rw e run, placed, rests)

  -- The only error of `PlaceOrder`, for a positive quantity in a market that is known and on a
  -- well-formed store, is that of the margin check; it leaves the store but for the counter and for
  -- what the check itself wrote: no order, no trade, no change of a book.
  pub place_order_failed :
      (trader market_id : String) (side : Side) (t : OrderType) (price quantity : LegacyDec)
      (s s' : State P)
      → zero_dec <ℤ quantity
      → IsSound s.orders
      → HasMarket env (placed_as trader market_id side t price quantity s)
      → place_order env trader market_id side t price quantity s ≡ failed s'
      → (margin_passes trader market_id side price quantity s ≡ false)
        × (s' ≡ checked trader market_id side price quantity s)
  unfolding place_order
  place_order_failed trader market_id side t price quantity s s' p sound known f =
      elim (Bool-cases (margin_passes trader market_id side price quantity s)) [
        | inl e ↦
            let o = placed_as trader market_id side t price quantity s in
            let (m, run, placed) =
              process_order_total env o (checked trader market_id side price quantity s)
                (new_order-IsOpen (next_id s) trader market_id side t price quantity p) sound
                known in
            absurd (done-failed (sym run ∙ (rw e at f)))
        | inr e ↦ (e, failed_inj (sym (rw e at f)))
      ]
