-- ===== src/Orderbook/V2/Refines.antt =====
-- x/orderbook/keeper/orderbook_v2.go: a step of the book over skip lists is the step of the book in
-- x/orderbook/types/types.go.
use perp_dex.Base.{◌≡◌, sym, ap, ◌∙◌, Bool, String, Bool-cases, Option-cases, inl, inr}
use perp_dex.Decimal.{LegacyDec, gt, lt}
use perp_dex.Orderbook.Types.{Order, is_buy, remaining_qty}
use perp_dex.Orderbook.Book.{
  OrderBook, own_levels, set_own_levels, add_order, remove_order, remove_from_levels,
}
use perp_dex.Orderbook.Book.Sorted.{IsStrict, gt-IsStrict, lt-IsStrict}
use perp_dex.Orderbook.V2.{
  SkipLists, IsOrderedMap, OrderBookV2, value_at, add_to, level_or_new, remove_from, has_none,
  to_levels, to_order_book, add_to_side, add_v2, remove_from_side, remove_by_id, remove_v2,
}
use perp_dex.Orderbook.V2.Levels.{to_price_level-remove_from}
use perp_dex.Orderbook.V2.Entries.{IsKeyed-IsSorted}
use perp_dex.Orderbook.V2.Sides.{
  value_at-All, All-put_at, put_at-IsKeyed, put_at-add, remove_from_levels-eq,
  remove_from_levels-none,
}
use perp_dex.Orderbook.V2.Orders.{
  entries-add_to_side, entries-removed, added, add_order-buy, add_order-sell, IsNamed, IsSide,
  value_at-price, added_level-lem, remove_from-lem, removed-IsSide, knows,
}

module _ (L : SkipLists) (laws : IsOrderedMap L) (order_of : String → Order) where
  module _ {before : LegacyDec → LegacyDec → Bool} (strict : IsStrict before) where
    add_to_side-lem :
        (o : Order) (r : L.Rep before)
        → o ≡ order_of o.order_id
        → IsSide order_of before (L.entries r)
        → (to_levels (L.entries (add_to_side L o r)) ≡ added before o (to_levels (L.entries r)))
          × IsSide order_of before (L.entries (add_to_side L o r))
    add_to_side-lem o r ho (k, hs) =
        let es = L.entries r in
        let l = add_to o (level_or_new o.price (value_at o.price es)) in
        let h = added_level-lem order_of before o es ho (k, hs) in
        rw (entries-add_to_side L laws o r) (
          put_at-add before strict o es k,
          (
            put_at-IsKeyed before strict o.price l es h.0 k,
            All-put_at before (λ e. IsNamed order_of e.1) o.price l es h.1 hs,
          ),
        )

    remove_from_side-lem :
        (o : Order) (r : L.Rep before)
        → o ≡ order_of o.order_id
        → IsSide order_of before (L.entries r)
        → (to_levels (L.entries (remove_from_side L o.order_id o.price r).0)
            ≡ remove_from_levels o.order_id (remaining_qty o) o.price (to_levels (L.entries r)))
          × IsSide order_of before (L.entries (remove_from_side L o.order_id o.price r).0)
    unfolding remove_from_side
    remove_from_side-lem o r ho (k, hs) = elim (Option-cases (value_at o.price (L.entries r))) [
      | inl e ↦
          rw (laws.get_eq o.price r, e, remove_from_side)
            (sym (remove_from_levels-none before strict o (L.entries r) k e), (k, hs))
      | inr (l, e) ↦
          let es = L.entries r in
          let l' = (remove_from o.order_id l).0 in
          let named = value_at-All (IsNamed order_of) o.price es l hs e in
          let h = remove_from-lem (λ x. x ≡ order_of x.order_id) o.order_id l named in
          rw (laws.get_eq o.price r, e, remove_from_side)
            (rw (entries-removed L laws (has_none l') o.price l' r) (
              remove_from_levels-eq before strict o es l l' k e
                  (to_price_level-remove_from o l (knows order_of o l.orders ho named)),
              removed-IsSide order_of strict (has_none l') o.price l' es
                  (h.0 ∙ value_at-price before o.price es l k e) h.1 (k, hs),
            ))
    ]

  -- Both sides of a book.
  pub record IsBook (ob : OrderBookV2 L) : Type 0 where
    pub bids_side : IsSide order_of gt (L.entries ob.bids)
    pub asks_side : IsSide order_of lt (L.entries ob.asks)

  -- A step of the book, and the same step of the first book.
  abbrev pub Follows : OrderBookV2 L → OrderBook → Type 0
  Follows ob b = (to_order_book L ob ≡ b) × IsBook ob

  pub add_v2-Follows :
      (o : Order) (ob : OrderBookV2 L)
      → o ≡ order_of o.order_id
      → IsBook ob
      → Follows (add_v2 L o ob) (add_order o (to_order_book L ob))
  unfolding add_v2 to_order_book
  add_v2-Follows o ob ho h = elim (Bool-cases (is_buy o.side)) [
    | inl e ↦
        let s = add_to_side-lem gt-IsStrict o ob.bids ho h.bids_side in
        rw
          (
            add_order-buy o (to_order_book L ob) e
                (IsKeyed-IsSorted lt lt-IsStrict (L.entries ob.asks) h.asks_side.0),
            e,
          )
          (
            ap (λ ls. record (to_order_book L ob) { bids = ls }) s.0,
            record { bids_side = s.1; asks_side = h.asks_side },
          )
    | inr e ↦
        let s = add_to_side-lem lt-IsStrict o ob.asks ho h.asks_side in
        rw
          (
            add_order-sell o (to_order_book L ob) e
                (IsKeyed-IsSorted gt gt-IsStrict (L.entries ob.bids) h.bids_side.0),
            e,
          )
          (
            ap (λ ls. record (to_order_book L ob) { asks = ls }) s.0,
            record { bids_side = h.bids_side; asks_side = s.1 },
          )
  ]

  pub remove_v2-Follows :
      (o : Order) (ob : OrderBookV2 L)
      → o ≡ order_of o.order_id
      → IsBook ob
      → Follows (remove_v2 L o ob).0 (remove_order o (to_order_book L ob))
  unfolding remove_v2 remove_by_id to_order_book remove_order own_levels set_own_levels
  remove_v2-Follows o ob ho h = elim (Bool-cases (is_buy o.side)) [
    | inl e ↦
        let s = remove_from_side-lem gt-IsStrict o ob.bids ho h.bids_side in
        rw e (
          ap (λ ls. record (to_order_book L ob) { bids = ls }) s.0,
          record { bids_side = s.1; asks_side = h.asks_side },
        )
    | inr e ↦
        let s = remove_from_side-lem lt-IsStrict o ob.asks ho h.asks_side in
        rw e (
          ap (λ ls. record (to_order_book L ob) { asks = ls }) s.0,
          record { bids_side = h.bids_side; asks_side = s.1 },
        )
  ]
