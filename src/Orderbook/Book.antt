-- ===== src/Orderbook/Book.antt =====
-- x/orderbook/types/types.go: `OrderBook`. Bids stand highest price first, asks lowest first.

pub mod Listed
pub mod Sorted
pub mod Ordered
pub mod Removed
use perp_dex.Base.{
  Bool, true, false, String, List, [], ◌∷◌, ◌++◌, Option, none, some, if◌then◌else◌,
}
use perp_dex.Base.Int.{◌-ℤ◌}
use perp_dex.Decimal.{LegacyDec, zero_dec, gt, lt, equal}
use perp_dex.Orderbook.Types.{Order, is_buy, remaining_qty}
use perp_dex.Orderbook.Level.{
  PriceLevel, new_price_level, add_to_level, remove_from_level, is_empty,
}

pub record OrderBook : Type 0 where
  pub market_id : String
  pub bids : List PriceLevel
  pub asks : List PriceLevel

unfoldable pub new_order_book : String → OrderBook
new_order_book market_id = record { market_id = market_id; bids = []; asks = [] }

-- Some level stands at this price.
unfoldable pub has_level : LegacyDec → List PriceLevel → Bool
has_level p [] = false
has_level p (l ∷ ls) = if equal l.price p then true else has_level p ls

-- `f` done to the first level at this price.
unfoldable pub update_level :
    LegacyDec → (PriceLevel → PriceLevel) → List PriceLevel → List PriceLevel
update_level p f [] = []
update_level p f (l ∷ ls) = if equal l.price p then f l ∷ ls else l ∷ update_level p f ls

-- A sort by a strict order on prices; `sort.Slice` of Go's library, by insertion.
unfoldable pub insert_level :
    (LegacyDec → LegacyDec → Bool) → PriceLevel → List PriceLevel → List PriceLevel
insert_level before l [] = l ∷ []
insert_level before l (m ∷ ms) =
    if before m.price l.price then m ∷ insert_level before l ms else l ∷ m ∷ ms

unfoldable pub sort_by : (LegacyDec → LegacyDec → Bool) → List PriceLevel → List PriceLevel
sort_by before [] = []
sort_by before (l ∷ ls) = insert_level before l (sort_by before ls)

unfoldable pub sort_levels : OrderBook → OrderBook
sort_levels ob = record ob { bids = sort_by gt ob.bids; asks = sort_by lt ob.asks }

-- `levels = append(levels, NewPriceLevel(price))`, on the side of the order.
unfoldable pub append_level : Order → OrderBook → OrderBook
append_level o ob =
    if is_buy o.side
    then record ob { bids = ob.bids ++ new_price_level o.price ∷ [] }
    else record ob { asks = ob.asks ++ new_price_level o.price ∷ [] }

-- The levels of the order's own side.
unfoldable pub own_levels : Order → OrderBook → List PriceLevel
own_levels o ob = if is_buy o.side then ob.bids else ob.asks

unfoldable pub set_own_levels : Order → List PriceLevel → OrderBook → OrderBook
set_own_levels o ls ob = if is_buy o.side then record ob { bids = ls } else record ob { asks = ls }

-- The level that the loop finds, or that is appended where it finds none.
unfoldable pub with_level : Order → OrderBook → OrderBook
unfolding append_level
with_level o ob =
    if has_level o.price (own_levels o ob) then ob else sort_levels (append_level o ob)

-- `OrderBook.AddOrder`
unfoldable pub add_order : Order → OrderBook → OrderBook
unfolding with_level set_own_levels own_levels has_level
add_order o ob =
    let ob' = with_level o ob in
    set_own_levels o
      (update_level o.price (add_to_level o.order_id (remaining_qty o)) (own_levels o ob')) ob'

-- The loop of `RemoveOrder`: at the first level of the price, and a level left empty goes.
unfoldable pub remove_from_levels :
    String → LegacyDec → LegacyDec → List PriceLevel → List PriceLevel
remove_from_levels id qty p [] = []
remove_from_levels id qty p (l ∷ ls) =
    let l' = remove_from_level id qty l in
    if equal l.price p
    then (if is_empty l' then ls else l' ∷ ls)
    else l ∷ remove_from_levels id qty p ls

-- `OrderBook.RemoveOrder`
unfoldable pub remove_order : Order → OrderBook → OrderBook
unfolding set_own_levels own_levels
remove_order o ob =
    set_own_levels o (remove_from_levels o.order_id (remaining_qty o) o.price (own_levels o ob)) ob

abbrev pub first_level : List PriceLevel → Option PriceLevel
first_level [] = none
first_level (l ∷ ls) = some l

abbrev pub best_bid : OrderBook → Option PriceLevel
best_bid ob = first_level ob.bids

abbrev pub best_ask : OrderBook → Option PriceLevel
best_ask ob = first_level ob.asks

-- `Spread`, where both sides have a level.
price_gap : Option PriceLevel → Option PriceLevel → LegacyDec
price_gap (some bid) (some ask) = ask.price -ℤ bid.price
price_gap _ _ = zero_dec

unfoldable pub spread : OrderBook → LegacyDec
unfolding price_gap
spread ob = price_gap (best_bid ob) (best_ask ob)
