-- ===== src/Orderbook/V2/Orders.antt =====
-- x/orderbook/keeper/orderbook_v2.go: the orders of a side, and what a step does to a level.
use perp_dex.Base.{
  ◌≡◌, refl, sym, ap, ◌∙◌, subst, Bool, true, false, String, List, [], ◌∷◌, ◌++◌, some,
  if◌then◌else◌, Bool-cases, Option-cases, inl, inr, All, All-map, All-append, same,
}
use perp_dex.Decimal.{LegacyDec, gt, lt, equal}
use perp_dex.Orderbook.Types.{Order, is_buy, remaining_qty}
use perp_dex.Orderbook.Level.{PriceLevel, new_price_level, add_to_level}
use perp_dex.Orderbook.Book.{
  OrderBook, has_level, update_level, sort_by, sort_levels, append_level, own_levels,
  set_own_levels, with_level, add_order,
}
use perp_dex.Orderbook.Book.Sorted.{IsSorted, IsStrict, gt-IsStrict, lt-IsStrict}
use perp_dex.Orderbook.V2.{
  find_order, without_order, PriceLevelV2, Entry, SkipLists, IsOrderedMap, value_at, put_at,
  drop_at, add_to, level_or_new, new_level, remove_from, add_to_side,
}
use perp_dex.Orderbook.V2.Levels.{Knows, some_inj}
use perp_dex.Orderbook.V2.Entries.{
  equal_eq, value_at-head, value_at-tail, IsKeyed, sort_by-IsSorted_eq,
}
use perp_dex.Orderbook.V2.Sides.{
  none_at, AllLevels, value_at-All, All-drop_at, All-put_at, drop_at-IsKeyed, put_at-IsKeyed,
}

-- A side of the first book with an order more.
abbrev pub added : (LegacyDec → LegacyDec → Bool) → Order → List PriceLevel → List PriceLevel
added before o ls =
    update_level o.price (add_to_level o.order_id (remaining_qty o))
      (if has_level o.price ls then ls else sort_by before (ls ++ new_price_level o.price ∷ []))

pub add_order-buy :
    (o : Order) (ob : OrderBook)
    → is_buy o.side ≡ true
    → IsSorted lt ob.asks
    → add_order o ob ≡ record ob { bids = added gt o ob.bids }
unfolding add_order with_level set_own_levels own_levels append_level sort_levels
add_order-buy o ob b s = elim (Bool-cases (has_level o.price ob.bids)) [
  | inl e ↦ rw b (rw e refl)
  | inr e ↦ rw b (rw e (rw (sort_by-IsSorted_eq lt lt-IsStrict ob.asks s) refl))
]

pub add_order-sell :
    (o : Order) (ob : OrderBook)
    → is_buy o.side ≡ false
    → IsSorted gt ob.bids
    → add_order o ob ≡ record ob { asks = added lt o ob.asks }
unfolding add_order with_level set_own_levels own_levels append_level sort_levels
add_order-sell o ob b s = elim (Bool-cases (has_level o.price ob.asks)) [
  | inl e ↦ rw b (rw e refl)
  | inr e ↦ rw b (rw e (rw (sort_by-IsSorted_eq gt gt-IsStrict ob.bids s) refl))
]

-- The orders of a level are those that their IDs name.
abbrev pub IsNamed : (String → Order) → PriceLevelV2 → Type 0
IsNamed order_of l = All (λ o. o ≡ order_of o.order_id) l.orders

-- A side in order, with orders that their IDs name.
abbrev pub IsSide : (String → Order) → (LegacyDec → LegacyDec → Bool) → List Entry → Type 0
IsSide order_of before es = IsKeyed before es × AllLevels (IsNamed order_of) es

-- A level that is found under a price has that price.
pub value_at-price :
    (before : LegacyDec → LegacyDec → Bool) (p : LegacyDec) (es : List Entry) (v : PriceLevelV2)
    → IsKeyed before es
    → value_at p es ≡ some v
    → v.price ≡ p
value_at-price before p [] v k h = elim (none_at p v h) [ ]
value_at-price before p ((q, w) ∷ es) v (e, hb, k) h = elim (Bool-cases (equal q p)) [
  | inl c ↦
      subst (λ x. x.price ≡ p) (some_inj w v (sym (value_at-head q p w es c) ∙ h))
        (e ∙ equal_eq q p c)
  | inr c ↦ value_at-price before p es v k (sym (value_at-tail q p w es c) ∙ h)
]

-- The level that an order is added to.
pub added_level-lem :
    (order_of : String → Order) (before : LegacyDec → LegacyDec → Bool) (o : Order)
    (es : List Entry)
    → o ≡ order_of o.order_id
    → IsSide order_of before es
    → ((add_to o (level_or_new o.price (value_at o.price es))).price ≡ o.price)
      × IsNamed order_of (add_to o (level_or_new o.price (value_at o.price es)))
unfolding add_to new_level
added_level-lem order_of before o es ho (k, hs) = elim (Option-cases (value_at o.price es)) [
  | inl e ↦ rw e (refl, (ho, tt))
  | inr (l, e) ↦ rw e (
    value_at-price before o.price es l k e,
    All-append (λ x. x ≡ order_of x.order_id) l.orders (o ∷ [])
        (value_at-All (IsNamed order_of) o.price es l hs e) (ho, tt),
  )
]

pub All-without :
    (P : Order → Type 0) (id : String) (os : List Order) → All P os → All P (without_order id os)
unfolding without_order
All-without P id [] h = tt
All-without P id (o ∷ os) (h, hs) = elim (Bool-cases (same o.order_id id)) [
  | inl e ↦ rw e hs
  | inr e ↦ rw e (h, All-without P id os hs)
]

pub remove_from-lem :
    (P : Order → Type 0) (id : String) (l : PriceLevelV2)
    → All P l.orders
    → ((remove_from id l).0.price ≡ l.price) × All P (remove_from id l).0.orders
unfolding remove_from
remove_from-lem P id l h = elim (Option-cases (find_order id l.orders)) [
  | inl e ↦ rw (e, remove_from) (refl, h)
  | inr (o, e) ↦ rw (e, remove_from) (refl, All-without P id l.orders h)
]

pub removed-IsSide :
    (order_of : String → Order) {before : LegacyDec → LegacyDec → Bool} (strict : IsStrict before)
    (b : Bool) (p : LegacyDec) (v : PriceLevelV2) (es : List Entry)
    → v.price ≡ p
    → IsNamed order_of v
    → IsSide order_of before es
    → IsSide order_of before (if b then drop_at p es else put_at before p v es)
removed-IsSide order_of strict true p v es hp hv (k, hs) =
    (drop_at-IsKeyed _ p es k, All-drop_at (λ e. IsNamed order_of e.1) p es hs)
removed-IsSide order_of strict false p v es hp hv (k, hs) =
    (put_at-IsKeyed _ strict p v es hp k, All-put_at _ (λ e. IsNamed order_of e.1) p v es hv hs)

pub knows :
    (order_of : String → Order) (o : Order) (os : List Order)
    → o ≡ order_of o.order_id
    → All (λ x. x ≡ order_of x.order_id) os
    → Knows o os
knows order_of o os ho h = All-map _ _ os (λ x hx e. hx ∙ ap order_of e ∙ sym ho) h

-- The level that an order is added to has the price of the order.
pub price-added :
    (before : LegacyDec → LegacyDec → Bool) (o : Order) (es : List Entry)
    → IsKeyed before es
    → (add_to o (level_or_new o.price (value_at o.price es))).price ≡ o.price
unfolding add_to new_level
price-added before o es k = elim (Option-cases (value_at o.price es)) [
  | inl e ↦ rw e refl
  | inr (l, e) ↦ rw e (value_at-price before o.price es l k e)
]

pub price-remove_from : (id : String) (l : PriceLevelV2) → (remove_from id l).0.price ≡ l.price
unfolding remove_from
price-remove_from id l = elim (Option-cases (find_order id l.orders)) [
  | inl e ↦ rw (e, remove_from) refl
  | inr (o, e) ↦ rw (e, remove_from) refl
]

-- The entries after a change of one side.
module _ (L : SkipLists) (laws : IsOrderedMap L) {before : LegacyDec → LegacyDec → Bool} where
  pub entries-add_to_side :
      (o : Order) (r : L.Rep before)
      → L.entries (add_to_side L o r)
        ≡ put_at before o.price
            (add_to o (level_or_new o.price (value_at o.price (L.entries r))))
            (L.entries r)
  unfolding add_to_side
  entries-add_to_side o r =
      laws.set_eq o.price (add_to o (level_or_new o.price (L.get o.price r))) r
      ∙ ap (λ x. put_at before o.price (add_to o (level_or_new o.price x)) (L.entries r))
          (laws.get_eq o.price r)

  pub entries-removed :
      (b : Bool) (p : LegacyDec) (v : PriceLevelV2) (r : L.Rep before)
      → L.entries (if b then L.remove p r else L.set p v r)
        ≡ (if b then drop_at p (L.entries r) else put_at before p v (L.entries r))
  entries-removed true p v r = laws.remove_eq p r
  entries-removed false p v r = laws.set_eq p v r
