-- ===== src/Orderbook/V2/Loaded.antt =====
-- x/orderbook/keeper/orderbook_v2.go: a stored book that is loaded and stored again.
use perp_dex.Base.{
  ◌≡◌, refl, sym, ap, ◌∙◌, Bool, true, false, String, List, [], ◌∷◌, ◌++◌, some, map, arith, All,
  All-map, All-append,
}
use mathlib.Core.List.{append-nil}
use perp_dex.Base.Dict.{Dict, lookup}
use perp_dex.Decimal.{LegacyDec, gt, lt, equal}
use perp_dex.Orderbook.Types.{Order}
use perp_dex.Orderbook.Level.{PriceLevel, is_empty}
use perp_dex.Orderbook.Book.{OrderBook}
use perp_dex.Orderbook.Book.Sorted.{IsSorted, IsStrict, gt-IsStrict, lt-IsStrict}
use perp_dex.Orderbook.Book.Ordered.{IsOrdered}
use perp_dex.Orderbook.V2.{
  PriceLevelV2, Entry, SkipLists, IsOrderedMap, new_book, put_at, has_none, to_price_level,
  to_levels, to_order_book,
}
use perp_dex.Orderbook.V2.Load.{find_all, from_price_level, load_levels, from_order_book}

-- The map has an order under this ID, which is its own.
pub record IsKnown (orders : Dict Order) (id : String) : Type 0 where
  pub order : Order
  pub found : lookup id orders ≡ some order
  pub named : order.order_id ≡ id

-- A level has orders, and the map knows them.
abbrev pub IsLoadable : Dict Order → PriceLevel → Type 0
IsLoadable orders pl = (is_empty pl ≡ false) × All (IsKnown orders) pl.order_ids

ids-find_all :
    (orders : Dict Order) (ids : List String)
    → All (IsKnown orders) ids
    → map (λ o. o.order_id) (find_all orders ids) ≡ ids
unfolding find_all
ids-find_all orders [] h = refl
ids-find_all orders (id ∷ ids) (h, hs) =
    rw (h.found, find_all) (rw (h.named, ids-find_all orders ids hs) refl)

to_price_level-from :
    (orders : Dict Order) (pl : PriceLevel)
    → All (IsKnown orders) pl.order_ids
    → to_price_level (from_price_level orders pl) ≡ pl
unfolding to_price_level from_price_level
to_price_level-from orders pl h =
    ap {B = PriceLevel} (λ is. record { price = pl.price; quantity = pl.quantity; order_ids = is })
      (ids-find_all orders pl.order_ids h)

none_found :
    (orders : Dict Order) (ids : List String) (price quantity : LegacyDec)
    → is_empty (record { price = price; quantity = quantity; order_ids = ids }) ≡ false
    → All (IsKnown orders) ids
    → has_none (record { price = price; quantity = quantity; orders = find_all orders ids }) ≡ false
unfolding find_all
none_found orders [] price quantity e h = e
none_found orders (id ∷ ids) price quantity e (h, hs) = rw (h.found, find_all) refl

from_price_level-some :
    (orders : Dict Order) (pl : PriceLevel)
    → IsLoadable orders pl
    → has_none (from_price_level orders pl) ≡ false
unfolding from_price_level
from_price_level-some orders pl (e, h) = none_found orders pl.order_ids pl.price pl.quantity e h

differ :
    {before : LegacyDec → LegacyDec → Bool} (strict : IsStrict before) (a b : LegacyDec)
    → before a b ≡ true
    → equal a b ≡ false
differ strict a b h = ground (arith, strict.apart a b h)

-- A key that comes after all others goes to the end.
put_at-last :
    {before : LegacyDec → LegacyDec → Bool} (strict : IsStrict before) (p : LegacyDec)
    (v : PriceLevelV2) (es : List Entry)
    → All (λ e. before e.0 p ≡ true) es
    → put_at before p v es ≡ es ++ (p, v) ∷ []
unfolding put_at
put_at-last strict p v [] h = refl
put_at-last strict p v ((k, w) ∷ es) (h, hs) =
    rw (differ strict k p h, h) (ap (λ x. (k, w) ∷ x) (put_at-last strict p v es hs))

to_levels-append :
    (es : List Entry) (p : LegacyDec) (l : PriceLevelV2) (pl : PriceLevel) (pls : List PriceLevel)
    → to_price_level l ≡ pl
    → to_levels (es ++ (p, l) ∷ []) ++ pls ≡ to_levels es ++ pl ∷ pls
to_levels-append [] p l pl pls h = ap (λ x. x ∷ pls) h
to_levels-append (e ∷ es) p l pl pls h =
    ap (λ x. to_price_level e.1 ∷ x) (to_levels-append es p l pl pls h)

module _ (L : SkipLists) (laws : IsOrderedMap L) (orders : Dict Order) where
  module _ {before : LegacyDec → LegacyDec → Bool} (strict : IsStrict before) where
    to_levels-load_levels :
        (pls : List PriceLevel) (r : L.Rep before)
        → IsSorted before pls
        → All (IsLoadable orders) pls
        → All (λ e. All (λ m. before e.0 m.price ≡ true) pls) (L.entries r)
        → to_levels (L.entries (load_levels L orders pls r)) ≡ to_levels (L.entries r) ++ pls
    unfolding load_levels
    to_levels-load_levels [] r s h hr = sym (append-nil (to_levels (L.entries r)))
    to_levels-load_levels (pl ∷ pls) r (hb, s) (h, hs) hr =
        let l = from_price_level orders pl in
        let es = L.entries r in
        let added =
          laws.set_eq pl.price l r
          ∙ put_at-last strict pl.price l es (All-map _ _ es (λ e x. x.0) hr) in
        let later : All (λ e. All (λ m. before e.0 m.price ≡ true) pls)
            (L.entries (L.set pl.price l r)) =
          rw added
            (All-append _ es ((pl.price, l) ∷ []) (All-map _ _ es (λ e x. x.1) hr) (hb, tt)) in
        rw (from_price_level-some orders pl h, load_levels)
          (to_levels-load_levels pls (L.set pl.price l r) s hs later
            ∙ ap (λ x. to_levels x ++ pls) added
            ∙ to_levels-append es pl.price l pl pls (to_price_level-from orders pl h.1))

-- A stored book with both sides in price order, in which every level has orders and the map has them
-- all under their IDs, is loaded into skip lists and stored again as it was.
pub to_order_book-from_order_book :
    (L : SkipLists) (laws : IsOrderedMap L) (orders : Dict Order) (ob : OrderBook)
    → IsOrdered ob
    → All (IsLoadable orders) ob.bids
    → All (IsLoadable orders) ob.asks
    → to_order_book L (from_order_book L ob orders) ≡ ob
unfolding to_order_book from_order_book new_book
to_order_book-from_order_book L laws orders ob h hb ha =
    let bids =
      to_levels-load_levels L laws orders gt-IsStrict ob.bids (L.empty gt) h.bids_sorted hb
        (rw (laws.empty_eq gt) tt) in
    let asks =
      to_levels-load_levels L laws orders lt-IsStrict ob.asks (L.empty lt) h.asks_sorted ha
        (rw (laws.empty_eq lt) tt) in
    rw
      (
        bids ∙ ap (λ x. to_levels x ++ ob.bids) (laws.empty_eq gt),
        asks ∙ ap (λ x. to_levels x ++ ob.asks) (laws.empty_eq lt),
      )
      refl
