-- ===== src/Orderbook/V2/Btree/Runs.antt =====
-- x/orderbook/keeper/orderbook_btree.go and orderbook_v2.go: one run of calls on both books.
use perp_dex.Base.{◌≡◌, refl, ap, ◌∙◌, true, false, String, List, [], ◌∷◌, Bool-cases, inl, inr}
use perp_dex.Decimal.{gt, lt}
use perp_dex.Orderbook.Types.{Order, is_buy}
use perp_dex.Orderbook.V2.{
  SkipLists, IsOrderedMap, OrderBookV2, new_book, front, to_order_book, add_v2, remove_by_id,
  remove_v2, get_best_bid, get_best_ask,
}
use perp_dex.Orderbook.V2.Runs.{BookCall, adds, removes, call_v2, run_v2}
use perp_dex.Orderbook.V2.Btree.{
  backwards, Trees, IsOrderedSet, OrderBookBtree, new_btree_side, new_btree_book, add_btree,
  remove_by_id_btree, remove_btree, best_bid_btree, best_ask_btree, to_order_book_btree, call_btree,
  run_btree,
}
use perp_dex.Orderbook.V2.Btree.Same.{
  IsSame, iterate-view, best-view, add_to_tree-IsSame, remove_from_tree-IsSame,
}

module _ (T : Trees) (set_laws : IsOrderedSet T) (L : SkipLists) (laws : IsOrderedMap L) where
  record IsSameBook (a : OrderBookBtree T) (b : OrderBookV2 L) : Type 0 where
    market_eq : a.market_id ≡ b.market_id
    bids_same : IsSame T set_laws L laws true a.bids b.bids
    asks_same : IsSame T set_laws L laws false a.asks b.asks

  add_btree-IsSameBook :
      (o : Order) (a : OrderBookBtree T) (b : OrderBookV2 L)
      → IsSameBook a b
      → IsSameBook (add_btree T o a) (add_v2 L o b)
  unfolding add_btree add_v2
  add_btree-IsSameBook o a b h = elim (Bool-cases (is_buy o.side)) [
    | inl e ↦ rw e (record {
      market_eq = h.market_eq;
      bids_same = add_to_tree-IsSame T set_laws L laws true o a.bids b.bids h.bids_same;
      asks_same = h.asks_same;
    })
    | inr e ↦ rw e (record {
      market_eq = h.market_eq;
      bids_same = h.bids_same;
      asks_same = add_to_tree-IsSame T set_laws L laws false o a.asks b.asks h.asks_same;
    })
  ]

  remove_btree-IsSameBook :
      (o : Order) (a : OrderBookBtree T) (b : OrderBookV2 L)
      → IsSameBook a b
      → IsSameBook (remove_btree T o a).0 (remove_v2 L o b).0
        × ((remove_btree T o a).1 ≡ (remove_v2 L o b).1)
  unfolding remove_btree remove_by_id_btree remove_v2 remove_by_id
  remove_btree-IsSameBook o a b h = elim (Bool-cases (is_buy o.side)) [
    | inl e ↦
        let s =
          remove_from_tree-IsSame T set_laws L laws true o.order_id o.price a.bids b.bids
            h.bids_same in
        rw e (record { market_eq = h.market_eq; bids_same = s.0; asks_same = h.asks_same }, s.1)
    | inr e ↦
        let s =
          remove_from_tree-IsSame T set_laws L laws false o.order_id o.price a.asks b.asks
            h.asks_same in
        rw e (record { market_eq = h.market_eq; bids_same = h.bids_same; asks_same = s.0 }, s.1)
  ]

  run_btree-IsSameBook :
      (cs : List BookCall) (a : OrderBookBtree T) (b : OrderBookV2 L)
      → IsSameBook a b
      → IsSameBook (run_btree T cs a) (run_v2 L cs b)
  unfolding run_btree run_v2 call_btree call_v2
  run_btree-IsSameBook [] a b h = h
  run_btree-IsSameBook (adds o ∷ cs) a b h =
      run_btree-IsSameBook cs (add_btree T o a) (add_v2 L o b) (add_btree-IsSameBook o a b h)
  run_btree-IsSameBook (removes o ∷ cs) a b h =
      run_btree-IsSameBook cs (remove_btree T o a).0 (remove_v2 L o b).0
        (remove_btree-IsSameBook o a b h).0

  new_btree_book-IsSameBook : (m : String) → IsSameBook (new_btree_book T m) (new_book L m)
  unfolding new_btree_book new_btree_side new_book backwards
  new_btree_book-IsSameBook m = record {
    market_eq = refl;
    bids_same = (refl, (rw (set_laws.new_eq, laws.empty_eq gt) refl, rw (set_laws.new_eq) tt));
    asks_same = (refl, (rw (set_laws.new_eq, laws.empty_eq lt) refl, rw (set_laws.new_eq) tt));
  }

  -- What both books answer alike.
  abbrev AnswersAlike : OrderBookBtree T → OrderBookV2 L → Type 0
  AnswersAlike a b =
      (to_order_book_btree T a ≡ to_order_book L b)
      × ((best_bid_btree T a ≡ get_best_bid L b) × (best_ask_btree T a ≡ get_best_ask L b))

  IsSameBook-AnswersAlike :
      (a : OrderBookBtree T) (b : OrderBookV2 L) → IsSameBook a b → AnswersAlike a b
  unfolding to_order_book_btree to_order_book best_bid_btree best_ask_btree get_best_bid
      get_best_ask
  IsSameBook-AnswersAlike a b h =
      let bids = iterate-view T set_laws true a.bids h.bids_same.0 ∙ h.bids_same.1.0 in
      let asks = iterate-view T set_laws false a.asks h.asks_same.0 ∙ h.asks_same.1.0 in
      (
        rw (bids, asks, h.market_eq) refl,
        (
          best-view T set_laws true a.bids h.bids_same.0 ∙ ap front h.bids_same.1.0,
          best-view T set_laws false a.asks h.asks_same.0 ∙ ap front h.asks_same.1.0,
        ),
      )

-- From new books, any run of additions and removals brings the book over B-trees and the book over
-- skip lists to the same levels in the same order, the same best bid and the same best ask; and a
-- removal that follows finds the same order in both.
pub run_btree-run_v2 :
    (T : Trees) (set_laws : IsOrderedSet T) (L : SkipLists) (laws : IsOrderedMap L)
    (market_id : String) (calls : List BookCall) (o : Order)
    → AnswersAlike T set_laws L laws
        (run_btree T calls (new_btree_book T market_id))
        (run_v2 L calls (new_book L market_id))
      × ((remove_btree T o (run_btree T calls (new_btree_book T market_id))).1
          ≡ (remove_v2 L o (run_v2 L calls (new_book L market_id))).1)
run_btree-run_v2 T set_laws L laws market_id calls o =
    let h =
      run_btree-IsSameBook T set_laws L laws calls (new_btree_book T market_id)
        (new_book L market_id) (new_btree_book-IsSameBook T set_laws L laws market_id) in
    (
      IsSameBook-AnswersAlike T set_laws L laws _ _ h,
      (remove_btree-IsSameBook T set_laws L laws o _ _ h).1,
    )
