-- ===== src/Orderbook/V2/Load.antt =====
-- x/orderbook/keeper/orderbook_v2.go: `FromOrderBook`, the book over skip lists from a stored book.
use perp_dex.Base.{Bool, String, List, [], ◌∷◌, none, some, if◌then◌else◌}
use perp_dex.Base.Dict.{Dict, lookup}
use perp_dex.Decimal.{LegacyDec}
use perp_dex.Orderbook.Types.{Order}
use perp_dex.Orderbook.Level.{PriceLevel}
use perp_dex.Orderbook.Book.{OrderBook}
use perp_dex.Orderbook.V2.{PriceLevelV2, SkipLists, OrderBookV2, new_book, new_level, has_none}

-- The orders of the map that the IDs of a level name; an ID that the map does not have is left out.
unfoldable pub find_all : Dict Order → List String → List Order
find_all orders [] = []
find_all orders (id ∷ ids) = elim (lookup id orders) [
  | none ↦ find_all orders ids
  | some o ↦ o ∷ find_all orders ids
]

unfoldable pub from_price_level : Dict Order → PriceLevel → PriceLevelV2
unfolding new_level
from_price_level orders pl = record (new_level pl.price) {
  orders = find_all orders pl.order_ids;
  quantity = pl.quantity;
}

module _ (L : SkipLists) where
  -- The loop over the levels of a side: a level without orders is left out.
  unfoldable pub load_levels :
      {before : LegacyDec → LegacyDec → Bool}
      → Dict Order
      → List PriceLevel
      → L.Rep before
      → L.Rep before
  load_levels orders [] r = r
  load_levels orders (pl ∷ pls) r =
      let l = from_price_level orders pl in
      load_levels orders pls (if has_none l then r else L.set pl.price l r)

  -- `FromOrderBook`
  unfoldable pub from_order_book : OrderBook → Dict Order → OrderBookV2 L
  from_order_book ob orders =
      let start = new_book L ob.market_id in
      record start {
        bids = load_levels orders ob.bids start.bids;
        asks = load_levels orders ob.asks start.asks;
      }
