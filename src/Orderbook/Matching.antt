-- ===== src/Orderbook/Matching.antt =====
-- x/orderbook/keeper/matching.go: `MatchingEngine`, price levels in order and FIFO within a level.
-- Events, logs and timings are left out.
pub mod Invariant
pub mod Loops
pub mod Turns
pub mod Fifo
use perp_dex.Base.{
  ℕ, zero, suc, Bool, true, false, String, List, [], ◌∷◌, ◌++◌, Option, none, some, length,
  get_elem?, if◌then◌else◌,
}
use perp_dex.Base.Int.{◌+ℤ◌, ◌-ℤ◌}
use perp_dex.Decimal.{LegacyDec, zero_dec, gte, lte, is_zero, min_dec}
use perp_dex.Orderbook.Result.{Result, ok, err}
use perp_dex.Orderbook.Types.{Order, is_buy, is_market, is_active, is_filled, remaining_qty, fill}
use perp_dex.Orderbook.Level.{PriceLevel, has_id, remove_first}
use perp_dex.Orderbook.Store.{
  Market, Env, Trade, new_trade, State, get_order, set_order, next_counter,
}
use perp_dex.Base.Outcome.{Outcome, done, failed, panicked, ◌>>=◌}

-- `MatchResult`
pub record MatchResult : Type 0 where
  pub trades : List Trade
  pub filled_qty : LegacyDec
  pub avg_price : LegacyDec
  pub remaining_qty : LegacyDec

-- `isPriceCompatible`
unfoldable pub is_price_compatible : Order → LegacyDec → Bool
is_price_compatible o level_price =
    if is_market o.order_type
    then true
    else if is_buy o.side
    then gte o.price level_price
    else lte o.price level_price

-- A slice of order IDs with the cells of its array that lie behind it. The loop over a level's
-- orders reads the array, which a removal from the slice shifts under it.
pub record Cells : Type 0 where
  pub ids : List String
  pub behind : List String

abbrev pub array : Cells → List String
array c = c.ids ++ c.behind

unfoldable pub last_id : String → List String → String
last_id x [] = x
last_id x (y ∷ ys) = last_id y ys

-- `append(ids[:i], ids[i+1:]...)` at the first `id`: the rest moves one cell down, and the last
-- cell keeps what it held.
unfoldable pub remove_cell : String → Cells → Cells
unfolding has_id remove_first last_id
remove_cell id c =
    if has_id id c.ids
    then record { ids = remove_first id c.ids; behind = last_id id c.ids ∷ c.behind }
    else c

-- The variables of `Match`: `taker` is `order`, and `price`, `quantity` and `cells` are those of the
-- level that the loop stands at.
pub record Run (P : Type 0) : Type 0 where
  pub taker : Order
  pub result : MatchResult
  pub total_value : LegacyDec
  pub store : State P
  pub price : LegacyDec
  pub quantity : LegacyDec
  pub cells : Cells

module _ {P : Type 0} (env : Env P) where
  -- `calculateFee`
  unfoldable pub calculate_fee : LegacyDec → LegacyDec → LegacyDec → LegacyDec
  calculate_fee qty price fee_rate =
      if is_zero fee_rate then zero_dec else env.mul (env.mul qty price) fee_rate

  -- The trade of a maker with the taker, under the next trade ID.
  pub next_trade : Run P → Order → LegacyDec → Market → Trade
  unfolding calculate_fee new_trade
  next_trade s maker qty market =
      new_trade (env.trade_name (next_counter s.store.trade_counter)) s.taker.market_id s.taker
        maker s.price qty (calculate_fee qty s.price market.taker_fee_rate)
        (calculate_fee qty s.price market.maker_fee_rate)

  -- `UpdatePosition` for the taker, then for the maker.
  update_positions : Order → Order → Trade → P → P
  update_positions taker maker t perp =
      let perp' =
        env.update_position perp taker.trader taker.market_id taker.side t.quantity t.price
          t.taker_fee in
      env.update_position perp' maker.trader maker.market_id maker.side t.quantity t.price
        t.maker_fee

  -- What stands after both orders have been filled.
  pub settle : String → Run P → Order → Order → Trade → Run P
  unfolding update_positions
  settle id s taker maker t = record {
    taker = taker;
    result = record s.result {
      trades = s.result.trades ++ t ∷ [];
      filled_qty = s.result.filled_qty +ℤ t.quantity;
      remaining_qty = s.result.remaining_qty -ℤ t.quantity;
    };
    total_value = s.total_value +ℤ env.mul t.quantity t.price;
    store = set_order maker (record s.store {
      trade_counter = next_counter s.store.trade_counter;
      perp = update_positions taker maker t s.store.perp;
    });
    price = s.price;
    quantity = s.quantity -ℤ t.quantity;
    cells = if is_filled maker then remove_cell id s.cells else s.cells;
  }

  -- The store once the trade has its ID, which is what an error of `Fill` leaves.
  numbered : Run P → State P
  numbered s = record s.store { trade_counter = next_counter s.store.trade_counter }

  or_fail : {A : Type 0} → Run P → Result A → Outcome (State P) A
  or_fail s (ok a) = done a
  or_fail s (err e) = failed (numbered s)

  or_panic : {A : Type 0} → Option A → Outcome (State P) A
  or_panic (some a) = done a
  or_panic none = panicked

  -- One turn of the loop over a level's orders, at an active maker.
  unfoldable pub trade_with : String → Order → Run P → Outcome (State P) (Run P)
  unfolding or_fail or_panic numbered
  trade_with id maker s = do
    let qty = min_dec s.result.remaining_qty (remaining_qty maker)
    market ← or_panic (env.get_market s.store.perp s.taker.market_id)
    taker' ← or_fail s (fill qty s.taker)
    maker' ← or_fail s (fill qty maker)
    done (settle id s taker' maker' (next_trade s maker qty market))

  unfoldable pub match_order : String → Run P → Outcome (State P) (Run P)
  match_order id s = elim (get_order id s.store) [
    | none ↦ done s
    | some maker ↦ if is_active maker then trade_with id maker s else done s
  ]

  -- The rest of the loop over a level's orders, from cell `i` of the array, with `k` cells to go.
  unfoldable pub match_cells : ℕ → ℕ → Run P → Outcome (State P) (Run P)
  match_cells zero i s = done s
  match_cells (suc k) i s = elim (is_zero s.result.remaining_qty) [
    | true ↦ done s
    | false ↦ elim (get_elem? (array s.cells) i) [
      | none ↦ done s
      | some id ↦ match_order id s >>= λ s'. match_cells k (suc i) s'
    ]
  ]

  abbrev pub at_level : PriceLevel → Run P → Run P
  at_level l s = record s {
    price = l.price;
    quantity = l.quantity;
    cells = record { ids = l.order_ids; behind = [] };
  }

  abbrev pub level_of : Run P → PriceLevel
  level_of s = record { price = s.price; quantity = s.quantity; order_ids = s.cells.ids }

  -- The loop over the levels, with the levels that it leaves.
  unfoldable pub match_levels :
      List PriceLevel → Run P → Outcome (State P) (List PriceLevel × Run P)
  match_levels [] s = done ([], s)
  match_levels (l ∷ ls) s = elim (is_zero s.result.remaining_qty) [
    | true ↦ done (l ∷ ls, s)
    | false ↦ elim (is_price_compatible s.taker l.price) [
      | false ↦ done (l ∷ ls, s)
      | true ↦ match_cells (length l.order_ids) 0 (at_level l s) >>= λ s'.
          match_levels ls s' >>= λ r. done (level_of s' ∷ r.0, r.1)
    ]
  ]
