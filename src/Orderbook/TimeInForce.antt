-- ===== src/Orderbook/TimeInForce.antt =====
-- x/orderbook/keeper/time_in_force.go: what follows a match for the order's time in force, and the
-- test for an order that must not take. `ValidateReduceOnly` returns nil whatever it is given.
pub mod PostOnly
use perp_dex.Base.{Bool, true, false, Option, none, some, List, [], ◌∷◌, not, if◌then◌else◌}
use perp_dex.Base.Outcome.{Outcome, done, failed, panicked, ◌>>=◌}
use perp_dex.Decimal.{gte, lte, is_zero}
use perp_dex.Orderbook.Result.{Error, ioc_no_fill, fok_not_filled, post_only_would_take}
use perp_dex.Orderbook.Types.{Order, OrderStatus, is_buy}
use perp_dex.Orderbook.Level.{PriceLevel}
use perp_dex.Orderbook.Book.{best_bid, best_ask}
use perp_dex.Orderbook.Store.{State, set_order, get_order_book}
use perp_dex.Orderbook.Matching.{MatchResult}
use perp_dex.Orderbook.Conditional.{ExtendedOrder, TimeInForce, gtc, ioc, fok, gtx, to_order}

-- A best level is at a price that the order takes.
abbrev pub takes : (Order → PriceLevel → Bool) → Order → Option PriceLevel → Bool
takes f o none = false
takes f o (some l) = f o l

module _ {P : Type 0} where
  -- The order cancelled and stored.
  abbrev pub cancelled : ExtendedOrder → State P → ExtendedOrder × State P
  cancelled o s =
      let o' : ExtendedOrder = record o { status = OrderStatus.cancelled } in
      (o', set_order (to_order o') s)

  -- The error of an order that has been cancelled.
  abbrev pub refuse :
      Error
      → ExtendedOrder
      → State P
      → Outcome (Error × ExtendedOrder × State P) (ExtendedOrder × State P)
  refuse e o s = let (o', s') = cancelled o s in failed (e, o', s')

  unfoldable pub process_ioc :
      ExtendedOrder
      → Option MatchResult
      → State P
      → Outcome (Error × ExtendedOrder × State P) (ExtendedOrder × State P)
  process_ioc o none s = refuse ioc_no_fill o s
  process_ioc o (some m) s =
      if is_zero m.filled_qty
      then refuse ioc_no_fill o s
      else if not (gte o.filled_qty o.quantity)
      then done (cancelled o s)
      else done (o, s)

  -- Without a result, the event that is emitted dereferences it.
  unfoldable pub process_fok :
      ExtendedOrder
      → Option MatchResult
      → State P
      → Outcome (Error × ExtendedOrder × State P) (ExtendedOrder × State P)
  process_fok o none s = panicked
  process_fok o (some m) s =
      if not (gte m.filled_qty o.quantity) then refuse fok_not_filled o s else done (o, s)

  unfoldable pub process_gtx :
      ExtendedOrder
      → Option MatchResult
      → State P
      → Outcome (Error × ExtendedOrder × State P) (ExtendedOrder × State P)
  process_gtx o none s = done (o, s)
  process_gtx o (some m) s = elim m.trades [
    | [] ↦ done (o, s)
    | _ ↦ refuse post_only_would_take o s
  ]

  -- `ProcessTimeInForce`
  unfoldable pub process_time_in_force :
      ExtendedOrder
      → Option MatchResult
      → State P
      → Outcome (Error × ExtendedOrder × State P) (ExtendedOrder × State P)
  unfolding process_ioc process_fok process_gtx
  process_time_in_force o m s = elim o.time_in_force [
    | ioc ↦ process_ioc o m s
    | fok ↦ process_fok o m s
    | gtx ↦ process_gtx o m s
    | gtc ↦ done (o, s)
  ]

  -- `CheckPostOnly`
  unfoldable pub check_post_only : Order → State P → Bool
  check_post_only o s = elim (get_order_book o.market_id s) [
    | none ↦ false
    | some ob ↦
        if is_buy o.side
        then takes (λ o l. gte o.price l.price) o (best_ask ob)
        else takes (λ o l. lte o.price l.price) o (best_bid ob)
  ]
