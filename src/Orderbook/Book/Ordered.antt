-- ===== src/Orderbook/Book/Ordered.antt =====
-- What the operations on the book do to a side is to take levels out, to change levels at their
-- price, and to sort: so both sides stay in strict price order.
use perp_dex.Base.{
  ◌≡◌, refl, sym, subst, true, false, Bool, String, List, [], ◌∷◌, ◌++◌, Bool-cases, inl, inr, All,
  arith,
}
use perp_dex.Decimal.{LegacyDec, gt, lt, equal}
use perp_dex.Orderbook.Types.{Order, is_buy, remaining_qty}
use perp_dex.Orderbook.Level.{
  PriceLevel, new_price_level, add_to_level, remove_from_level, is_empty,
}
use perp_dex.Orderbook.Book.{
  OrderBook, sort_levels, append_level, set_own_levels, has_level, update_level, sort_by,
  own_levels, with_level, add_order, remove_order, remove_from_levels,
}
use perp_dex.Orderbook.Book.Sorted.{
  IsStrict, gt-IsStrict, lt-IsStrict, IsSorted, IsSorted-IsDistinct, IsDistinct-append_new,
  sort_by-IsSorted,
}

-- The levels `ms` come from `ls` by taking levels out, and by changes that keep a level's price.
pub data Thins : List PriceLevel → List PriceLevel → Type 0 where
  none_left : Thins [] []
  keep :
      {l m : PriceLevel} {ls ms : List PriceLevel}
      → m.price ≡ l.price
      → Thins ls ms
      → Thins (l ∷ ls) (m ∷ ms)
  drop : {l : PriceLevel} {ls ms : List PriceLevel} → Thins ls ms → Thins (l ∷ ls) ms

pub Thins-refl : (ls : List PriceLevel) → Thins ls ls
Thins-refl [] = none_left
Thins-refl (l ∷ ls) = keep refl (Thins-refl ls)

Thins-All :
    (P : LegacyDec → Type 0) {ls ms : List PriceLevel}
    → Thins ls ms
    → All (λ l. P l.price) ls
    → All (λ l. P l.price) ms
Thins-All P none_left h = tt
Thins-All P (keep e t) (h, hs) = (subst P (sym e) h, Thins-All P t hs)
Thins-All P (drop t) (h, hs) = Thins-All P t hs

pub Thins-IsSorted :
    (before : LegacyDec → LegacyDec → Bool) {ls ms : List PriceLevel}
    → Thins ls ms
    → IsSorted before ls
    → IsSorted before ms
Thins-IsSorted before none_left s = tt
Thins-IsSorted before (keep {l = l} {m = m} e t) (h, hs) =
    (Thins-All (λ p. before m.price p ≡ true) t (rw e h), Thins-IsSorted before t hs)
Thins-IsSorted before (drop t) (h, hs) = Thins-IsSorted before t hs

update_level-Thins :
    (p q : LegacyDec) (id : String) (ls : List PriceLevel)
    → Thins ls (update_level p (add_to_level id q) ls)
unfolding update_level add_to_level
update_level-Thins p q id [] = none_left
update_level-Thins p q id (l ∷ ls) = elim (Bool-cases (equal l.price p)) [
  | inl e ↦ rw (e, update_level) (keep refl (Thins-refl ls))
  | inr e ↦ rw (e, update_level) (keep refl (update_level-Thins p q id ls))
]

pub price-remove_from_level :
    (id : String) (q : LegacyDec) (l : PriceLevel) → (remove_from_level id q l).price ≡ l.price
unfolding remove_from_level
price-remove_from_level id q l = ground arith

remove_from_levels-Thins :
    (id : String) (q p : LegacyDec) (ls : List PriceLevel) → Thins ls (remove_from_levels id q p ls)
unfolding remove_from_levels
remove_from_levels-Thins id q p [] = none_left
remove_from_levels-Thins id q p (l ∷ ls) = elim (Bool-cases (equal l.price p)) [
  | inl e ↦
      rw (e, remove_from_levels)
        (elim (Bool-cases (is_empty (remove_from_level id q l))) [
          | inl e' ↦ rw e' (drop (Thins-refl ls))
          | inr e' ↦ rw e' (keep (price-remove_from_level id q l) (Thins-refl ls))
        ])
  | inr e ↦ rw (e, remove_from_levels) (keep refl (remove_from_levels-Thins id q p ls))
]

add_order_lem :
    (o : Order) (ob : OrderBook)
    → add_order o ob
      ≡ set_own_levels o
          (update_level o.price
            (add_to_level o.order_id (remaining_qty o))
            (own_levels o (with_level o ob)))
          (with_level o ob)
unfolding add_order
add_order_lem o ob = refl

remove_order_lem :
    (o : Order) (ob : OrderBook)
    → remove_order o ob
      ≡ set_own_levels o
          (remove_from_levels o.order_id (remaining_qty o) o.price (own_levels o ob))
          ob
unfolding remove_order
remove_order_lem o ob = refl

-- Both sides in their strict orders: bids from the highest price down, asks from the lowest up.
pub record IsOrdered (ob : OrderBook) : Type 0 where
  pub bids_sorted : IsSorted gt ob.bids
  pub asks_sorted : IsSorted lt ob.asks

side-IsSorted :
    (before : LegacyDec → LegacyDec → Bool)
    → IsStrict before
    → (p : LegacyDec) (ls : List PriceLevel) → has_level p ls ≡ false
    → IsSorted before ls
    → IsSorted before (sort_by before (ls ++ new_price_level p ∷ []))
side-IsSorted before strict p ls h s =
    sort_by-IsSorted before strict (ls ++ new_price_level p ∷ [])
      (IsDistinct-append_new p ls h (IsSorted-IsDistinct before strict ls s))

sort_levels-IsOrdered :
    (o : Order) (ob : OrderBook)
    → has_level o.price (own_levels o ob) ≡ false
    → IsOrdered ob
    → IsOrdered (sort_levels (append_level o ob))
unfolding sort_levels append_level own_levels
sort_levels-IsOrdered o ob new h =
    let bids' =
      sort_by-IsSorted gt gt-IsStrict ob.bids
        (IsSorted-IsDistinct gt gt-IsStrict ob.bids h.bids_sorted) in
    let asks' =
      sort_by-IsSorted lt lt-IsStrict ob.asks
        (IsSorted-IsDistinct lt lt-IsStrict ob.asks h.asks_sorted) in
    elim (Bool-cases (is_buy o.side)) [
      | inl e ↦ rw e (record {
        bids_sorted = side-IsSorted gt gt-IsStrict o.price ob.bids (rw e at new) h.bids_sorted;
        asks_sorted = asks';
      })
      | inr e ↦ rw e (record {
        bids_sorted = bids';
        asks_sorted = side-IsSorted lt lt-IsStrict o.price ob.asks (rw e at new) h.asks_sorted;
      })
    ]

with_level-IsOrdered : (o : Order) (ob : OrderBook) → IsOrdered ob → IsOrdered (with_level o ob)
unfolding with_level
with_level-IsOrdered o ob h = elim (Bool-cases (has_level o.price (own_levels o ob))) [
  | inl e ↦ rw e h
  | inr e ↦ rw e (sort_levels-IsOrdered o ob e h)
]

set_own_levels-IsOrdered :
    (o : Order) (ls : List PriceLevel) (ob : OrderBook)
    → Thins (own_levels o ob) ls
    → IsOrdered ob
    → IsOrdered (set_own_levels o ls ob)
unfolding own_levels set_own_levels
set_own_levels-IsOrdered o ls ob t h = elim (Bool-cases (is_buy o.side)) [
  | inl e ↦ rw e (record {
    bids_sorted = Thins-IsSorted gt (rw e at t) h.bids_sorted;
    asks_sorted = h.asks_sorted;
  })
  | inr e ↦ rw e (record {
    bids_sorted = h.bids_sorted;
    asks_sorted = Thins-IsSorted lt (rw e at t) h.asks_sorted;
  })
]

-- `AddOrder` keeps both sides of a book in strict price order, whether or not it opens a level.
pub add_order-IsOrdered : (o : Order) (ob : OrderBook) → IsOrdered ob → IsOrdered (add_order o ob)
add_order-IsOrdered o ob h = rw (add_order_lem o ob) (
    set_own_levels-IsOrdered o _ (with_level o ob)
      (update_level-Thins o.price (remaining_qty o) o.order_id (own_levels o (with_level o ob)))
      (with_level-IsOrdered o ob h))

-- `RemoveOrder` keeps both sides of a book in strict price order.
pub remove_order-IsOrdered :
    (o : Order) (ob : OrderBook) → IsOrdered ob → IsOrdered (remove_order o ob)
remove_order-IsOrdered o ob h = rw (remove_order_lem o ob) (
    set_own_levels-IsOrdered o _ ob
      (remove_from_levels-Thins o.order_id (remaining_qty o) o.price (own_levels o ob)) h)
