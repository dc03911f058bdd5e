-- ===== src/Orderbook/Store.antt =====
-- x/orderbook/keeper/keeper.go and the trades of x/orderbook/types/types.go: what the module keeps
-- in its store, and what it asks of the modules around it.
use perp_dex.Base.{ℕ, ◌+◌, ◌%◌, ◌^◌, Bool, String, List, [], ◌∷◌, Option, if◌then◌else◌}
use perp_dex.Base.Dict.{Dict, lookup, insert}
use perp_dex.Decimal.{LegacyDec, Rounding}
use perp_dex.Orderbook.Types.{Side, Order, is_active}
use perp_dex.Orderbook.Book.{OrderBook}

-- `Market`, as this module sees it.
pub record Market : Type 0 where
  pub market_id : String
  pub taker_fee_rate : LegacyDec
  pub maker_fee_rate : LegacyDec
  pub initial_margin : LegacyDec

-- `PerpetualKeeper`, over the state `P` of the perpetual module. The error of `UpdatePosition` is
-- only logged by the caller, so the new state is all that it gives; an implementation that panics is
-- not covered, and that of the application, `UpdatePositionFromTrade`, does not for accounts and
-- positions that are kept (Perpetual/Positions/Net). `P` is what the module can be in while this one
-- runs: for the keeper of the application its states with a fixed set of markets.
-- `CheckMarginRequirement` is `true` where the source returns no error; it may open an account.
pub record PerpetualKeeper (P : Type 0) : Type 0 where
  pub get_market : P → String → Option Market
  pub update_position : P → String → String → Side → LegacyDec → LegacyDec → LegacyDec → P
  pub check_margin_requirement : P → String → String → Side → LegacyDec → LegacyDec → P × Bool

-- The rounding of the decimals, `fmt.Sprintf` at "order-%d" and "trade-%d", and the iterator of the
-- store, which gives the entries of a dictionary in the order of their keys.
pub record Env (P : Type 0) : Type 0 where
  pub perpetual : PerpetualKeeper P
  pub open perpetual use *
  pub rounding : Rounding
  pub open rounding use *
  pub order_name : ℕ → String
  pub trade_name : ℕ → String
  pub walk : Dict Order → Dict Order

pub record Trade : Type 0 where
  pub trade_id : String
  pub market_id : String
  pub taker_order_id : String
  pub maker_order_id : String
  pub taker : String
  pub maker : String
  pub taker_side : Side
  pub price : LegacyDec
  pub quantity : LegacyDec
  pub taker_fee : LegacyDec
  pub maker_fee : LegacyDec

unfoldable pub new_trade :
    String → String → Order → Order → LegacyDec → LegacyDec → LegacyDec → LegacyDec → Trade
new_trade trade_id market_id taker maker price qty taker_fee maker_fee = record {
  trade_id = trade_id;
  market_id = market_id;
  taker_order_id = taker.order_id;
  maker_order_id = maker.order_id;
  taker = taker.trader;
  maker = maker.trader;
  taker_side = taker.side;
  price = price;
  quantity = qty;
  taker_fee = taker_fee;
  maker_fee = maker_fee;
}

-- The store of the module, one dictionary for each key prefix, and that of the perpetual module.
-- An encoded record that does not decode is not modelled.
pub record State (P : Type 0) : Type 0 where
  pub orders : Dict Order
  pub order_books : Dict OrderBook
  pub trades : Dict Trade
  pub trade_counter : ℕ
  pub order_counter : ℕ
  pub perp : P

module _ {P : Type 0} where
  abbrev pub get_order : String → State P → Option Order
  get_order id s = lookup id s.orders

  abbrev pub set_order : Order → State P → State P
  set_order o s = record s { orders = insert o.order_id o s.orders }

  abbrev pub get_order_book : String → State P → Option OrderBook
  get_order_book id s = lookup id s.order_books

  abbrev pub set_order_book : OrderBook → State P → State P
  set_order_book ob s = record s { order_books = insert ob.market_id ob s.order_books }

  abbrev pub set_trade : Trade → State P → State P
  set_trade t s = record s { trades = insert t.trade_id t s.trades }

-- A counter is a uint64, and wraps.
abbrev pub next_counter : ℕ → ℕ
next_counter n = (n + 1) % 2 ^ 64

-- The orders of a dictionary that are active.
unfoldable pub active_orders : Dict Order → List Order
active_orders [] = []
active_orders ((_, o) ∷ d) = if is_active o then o ∷ active_orders d else active_orders d

-- `GetAllPendingOrders`
abbrev pub get_all_pending_orders : {P : Type 0} → Env P → State P → List Order
get_all_pending_orders env s = active_orders (env.walk s.orders)
