-- ===== src/Orderbook/Engine.antt =====
-- x/orderbook/keeper/matching.go and keeper.go: the entry points of the matching engine, and those
-- of the keeper that call it.
pub mod Match
pub mod Process
pub mod Rests
pub mod Place
pub mod Requeue
pub mod Cancel
use perp_dex.Base.{String, List, [], ◌∷◌, none, some, not, same, if◌then◌else◌, ◌&&◌}
use perp_dex.Decimal.{LegacyDec, zero_dec, is_positive}
use perp_dex.Orderbook.Result.{Result, ok, err, order_not_found, order_not_active, unauthorized}
use perp_dex.Orderbook.Types.{
  Side, OrderType, Order, new_order, is_buy, is_limit, is_market, is_active, remaining_qty, cancel,
}
use perp_dex.Orderbook.Level.{PriceLevel, is_empty}
use perp_dex.Orderbook.Book.{OrderBook, new_order_book, add_order, remove_order}
use perp_dex.Orderbook.Store.{
  Env, Trade, State, get_order, set_order, get_order_book, set_order_book, set_trade, next_counter,
  get_all_pending_orders,
}
use perp_dex.Base.Outcome.{Outcome, done, failed, panicked, ◌>>=◌}
use perp_dex.Orderbook.Matching.{MatchResult, Run, match_levels}

-- The levels that are not empty, in their order.
unfoldable pub drop_empty : List PriceLevel → List PriceLevel
drop_empty [] = []
drop_empty (l ∷ ls) = if is_empty l then drop_empty ls else l ∷ drop_empty ls

unfoldable pub cleanup_order_book : OrderBook → OrderBook
cleanup_order_book ob = record ob { bids = drop_empty ob.bids; asks = drop_empty ob.asks }

-- The side that an order is matched against.
unfoldable pub opposite_levels : Order → OrderBook → List PriceLevel
opposite_levels o ob = if is_buy o.side then ob.asks else ob.bids

pub set_opposite_levels : Order → List PriceLevel → OrderBook → OrderBook
set_opposite_levels o ls ob =
    if is_buy o.side then record ob { asks = ls } else record ob { bids = ls }

-- `GetOrderBook`, and a new book where there is none.
abbrev pub book_or_new : {P : Type 0} → String → State P → OrderBook
book_or_new id s = elim (get_order_book id s) [ none ↦ new_order_book id | some ob ↦ ob ]

-- What `Match` and `ProcessOrder` leave: the result, the order that they were given, the store.
pub record Matched (P : Type 0) : Type 0 where
  pub result : MatchResult
  pub order : Order
  pub store : State P

module _ {P : Type 0} (env : Env P) where
  unfoldable pub start_run : Order → State P → Run P
  start_run o s = record {
    taker = o;
    result = record {
      trades = [];
      filled_qty = zero_dec;
      avg_price = zero_dec;
      remaining_qty = remaining_qty o;
    };
    total_value = zero_dec;
    store = s;
    price = zero_dec;
    quantity = zero_dec;
    cells = record { ids = []; behind = [] };
  }

  -- The end of `Match`: the average price, and the book without its empty levels.
  unfoldable pub finish : OrderBook → List PriceLevel × Run P → Matched P
  unfolding cleanup_order_book set_opposite_levels
  finish ob (levels, r) = record {
    result = record r.result {
      avg_price =
          if is_positive r.result.filled_qty
          then env.quo r.total_value r.result.filled_qty
          else r.result.avg_price;
    };
    order = r.taker;
    store = set_order_book (cleanup_order_book (set_opposite_levels r.taker levels ob)) r.store;
  }

  -- `Match`
  unfoldable pub match : Order → State P → Outcome (State P) (Matched P)
  unfolding start_run finish opposite_levels
  match o s =
      let ob = book_or_new o.market_id s in
      match_levels env (opposite_levels o ob) (start_run o s) >>= λ r. done (finish ob r)

  -- What is left of a limit order goes into the book; what is left of a market order is cancelled.
  unfoldable pub place_rest : Matched P → Matched P
  place_rest m =
      let ob = add_order m.order (book_or_new m.order.market_id m.store) in
      if is_positive m.result.remaining_qty && is_limit m.order.order_type
      then record m { store = set_order m.order (set_order_book ob m.store) }
      else if is_active m.order && is_market m.order.order_type
      then record m { order = cancel m.order }
      else m

  -- `ProcessOrder`, up to its last line, which saves the taker.
  unfoldable pub save_taker : Matched P → Matched P
  save_taker m = record m { store = set_order m.order m.store }

  unfoldable pub process_order : Order → State P → Outcome (State P) (Matched P)
  unfolding place_rest save_taker
  process_order o s = match o s >>= λ m. done (save_taker (place_rest m))

  -- The order taken off the book of its market, where there is one.
  pub take_off_book : Order → State P → State P
  take_off_book o s = elim (get_order_book o.market_id s) [
    | none ↦ s
    | some ob ↦ set_order_book (remove_order o ob) s
  ]

  -- `CancelOrder` of the engine.
  unfoldable pub cancel_order : String → State P → Result (Order × State P)
  unfolding take_off_book
  cancel_order id s = elim (get_order id s) [
    | none ↦ err order_not_found
    | some o ↦
        if not (is_active o)
        then err order_not_active
        else ok (cancel o, set_order (cancel o) (take_off_book o s))
  ]

  -- `Keeper.CancelOrder`
  unfoldable pub keeper_cancel_order : String → String → State P → Result (Order × State P)
  unfolding cancel_order
  keeper_cancel_order trader id s = elim (get_order id s) [
    | none ↦ err order_not_found
    | some o ↦ if same o.trader trader then cancel_order id s else err unauthorized
  ]

  -- `PlaceOrder`: the ID, the margin check, the engine.
  unfoldable pub place_order :
      String
      → String
      → Side
      → OrderType
      → LegacyDec
      → LegacyDec
      → State P
      → Outcome (State P) (Matched P)
  unfolding process_order
  place_order trader market_id side order_type price quantity s =
      let id = env.order_name (next_counter s.order_counter) in
      let o = new_order id trader market_id side order_type price quantity in
      let (perp, passes) =
        env.check_margin_requirement s.perp trader market_id side quantity price in
      let s' : State P = record s { order_counter = next_counter s.order_counter; perp = perp } in
      if passes then process_order o s' else failed s'

  unfoldable pub save_trades : List Trade → State P → State P
  save_trades [] s = s
  save_trades (t ∷ ts) s = save_trades ts (set_trade t s)

  -- The turn of the end blocker's loop after `ProcessOrder`: an error is logged.
  after_process : Outcome (State P) (Matched P) → Outcome (State P) (State P)
  unfolding save_trades
  after_process (done m) = done (save_trades m.result.trades m.store)
  after_process (failed s) = done s
  after_process panicked = panicked

  unfoldable pub process_all : List Order → State P → Outcome (State P) (State P)
  unfolding process_order after_process
  process_all [] s = done s
  process_all (o ∷ os) s =
      (if is_active o then after_process (process_order o s) else done s) >>= λ s'.
      process_all os s'

  -- `SequentialEndBlocker`
  unfoldable pub sequential_end_blocker : State P → Outcome (State P) (State P)
  unfolding process_all
  sequential_end_blocker s = process_all (get_all_pending_orders env s) s
