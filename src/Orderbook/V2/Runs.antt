-- ===== src/Orderbook/V2/Runs.antt =====
-- x/orderbook/keeper/orderbook_v2.go: runs of calls, from a new book.
use perp_dex.Base.{◌≡◌, refl, ap, ◌∙◌, String, List, [], ◌∷◌, All}
use perp_dex.Decimal.{gt, lt}
use perp_dex.Orderbook.Types.{Order}
use perp_dex.Orderbook.Book.{OrderBook, add_order, remove_order, new_order_book}
use perp_dex.Orderbook.V2.{
  SkipLists, IsOrderedMap, OrderBookV2, new_book, to_order_book, add_v2, remove_v2,
}
use perp_dex.Orderbook.V2.Refines.{IsBook, Follows, add_v2-Follows, remove_v2-Follows}

-- A call that changes the book.
pub data BookCall : Type 0 where
  adds : Order → BookCall
  removes : Order → BookCall

abbrev pub order_in : BookCall → Order
order_in (adds o) = o
order_in (removes o) = o

unfoldable pub call_v2 : (L : SkipLists) → BookCall → OrderBookV2 L → OrderBookV2 L
call_v2 L (adds o) ob = add_v2 L o ob
call_v2 L (removes o) ob = (remove_v2 L o ob).0

unfoldable pub call_v1 : BookCall → OrderBook → OrderBook
call_v1 (adds o) ob = add_order o ob
call_v1 (removes o) ob = remove_order o ob

unfoldable pub run_v2 : (L : SkipLists) → List BookCall → OrderBookV2 L → OrderBookV2 L
run_v2 L [] ob = ob
run_v2 L (c ∷ cs) ob = run_v2 L cs (call_v2 L c ob)

unfoldable pub run_v1 : List BookCall → OrderBook → OrderBook
run_v1 [] ob = ob
run_v1 (c ∷ cs) ob = run_v1 cs (call_v1 c ob)

module _ (L : SkipLists) (laws : IsOrderedMap L) (order_of : String → Order) where
  call_v2-Follows :
      (c : BookCall) (ob : OrderBookV2 L)
      → order_in c ≡ order_of (order_in c).order_id
      → IsBook L laws order_of ob
      → Follows L laws order_of (call_v2 L c ob) (call_v1 c (to_order_book L ob))
  unfolding call_v2 call_v1
  call_v2-Follows (adds o) ob ho h = add_v2-Follows L laws order_of o ob ho h
  call_v2-Follows (removes o) ob ho h = remove_v2-Follows L laws order_of o ob ho h

  run_v2-Follows :
      (cs : List BookCall) (ob : OrderBookV2 L)
      → All (λ c. order_in c ≡ order_of (order_in c).order_id) cs
      → IsBook L laws order_of ob
      → Follows L laws order_of (run_v2 L cs ob) (run_v1 cs (to_order_book L ob))
  unfolding run_v2 run_v1
  run_v2-Follows [] ob hs h = (refl, h)
  run_v2-Follows (c ∷ cs) ob (hc, hs) h =
      let s = call_v2-Follows c ob hc h in
      let rest = run_v2-Follows cs (call_v2 L c ob) hs s.1 in (rest.0 ∙ ap (run_v1 cs) s.0, rest.1)

  new_book-Follows : (m : String) → Follows L laws order_of (new_book L m) (new_order_book m)
  unfolding new_book to_order_book new_order_book
  new_book-Follows m =
      rw (laws.empty_eq gt, laws.empty_eq lt)
        (
          refl,
          record {
            bids_side = rw (laws.empty_eq gt) (tt, tt);
            asks_side = rw (laws.empty_eq lt) (tt, tt);
          },
        )

-- From a new book, after any run of additions and removals in which an order ID names one order, the
-- book over skip lists is the book that the same run makes of price levels in lists: the same
-- levels in the same order, each with the same price, quantity and order IDs.
pub run_v2-to_order_book :
    (L : SkipLists) (laws : IsOrderedMap L) (order_of : String → Order) (market_id : String)
    (calls : List BookCall)
    → All (λ c. order_in c ≡ order_of (order_in c).order_id) calls
    → to_order_book L (run_v2 L calls (new_book L market_id))
      ≡ run_v1 calls (new_order_book market_id)
run_v2-to_order_book L laws order_of market_id calls hs =
    let start = new_book-Follows L laws order_of market_id in
    (run_v2-Follows L laws order_of calls (new_book L market_id) hs start.1).0
    ∙ ap (run_v1 calls) start.0
