-- ===== src/Orderbook/Book/Listed.antt =====
-- How often an order ID is listed on a side of the book, and how the operations change that.
use perp_dex.Base.{
  ℕ, ◌+◌, ◌≡◌, refl, true, Bool, String, List, [], ◌∷◌, ◌++◌, arith, same, if◌then◌else◌,
}
use perp_dex.Base.{Bool-cases, inl, inr}
use perp_dex.Decimal.{LegacyDec, gt, lt, equal}
use perp_dex.Orderbook.Types.{Order, is_buy, remaining_qty}
use perp_dex.Orderbook.Level.{PriceLevel, new_price_level, add_to_level}
use perp_dex.Orderbook.Book.{
  OrderBook, has_level, update_level, insert_level, sort_by, sort_levels, append_level, own_levels,
  set_own_levels, with_level, add_order,
}

-- 1 for the same ID, 0 for another.
abbrev pub one_if : Bool → ℕ
one_if b = if b then 1 else 0

unfoldable pub count_id : String → List String → ℕ
count_id j [] = 0
count_id j (x ∷ xs) = one_if (same x j) + count_id j xs

unfoldable pub listed : String → List PriceLevel → ℕ
listed j [] = 0
listed j (l ∷ ls) = count_id j l.order_ids + listed j ls

pub count_id-append :
    (j : String) (xs ys : List String) → count_id j (xs ++ ys) ≡ count_id j xs + count_id j ys
unfolding count_id
count_id-append j [] ys = omega arith
count_id-append j (x ∷ xs) ys = omega (arith, count_id-append j xs ys)

pub listed-append :
    (j : String) (ls ms : List PriceLevel) → listed j (ls ++ ms) ≡ listed j ls + listed j ms
unfolding listed
listed-append j [] ms = omega arith
listed-append j (l ∷ ls) ms = omega (arith, listed-append j ls ms)

module _ (before : LegacyDec → LegacyDec → Bool) (j : String) where
  listed-insert_level :
      (l : PriceLevel) (ls : List PriceLevel)
      → listed j (insert_level before l ls) ≡ count_id j l.order_ids + listed j ls
  unfolding listed insert_level
  listed-insert_level l [] = refl
  listed-insert_level l (m ∷ ms) = ground (arith, listed-insert_level l ms)

  pub listed-sort_by : (ls : List PriceLevel) → listed j (sort_by before ls) ≡ listed j ls
  unfolding listed sort_by
  listed-sort_by [] = refl
  listed-sort_by (l ∷ ls) =
      omega (arith, listed-insert_level l (sort_by before ls), listed-sort_by ls)

has_level-insert_level :
    (before : LegacyDec → LegacyDec → Bool) (p : LegacyDec) (l : PriceLevel) (ls : List PriceLevel)
    → has_level p (insert_level before l ls) ≡ (if equal l.price p then true else has_level p ls)
unfolding has_level insert_level
has_level-insert_level before p l [] = refl
has_level-insert_level before p l (m ∷ ms) = ground (arith, has_level-insert_level before p l ms)

pub has_level-sort_by :
    (before : LegacyDec → LegacyDec → Bool) (p : LegacyDec) (ls : List PriceLevel)
    → has_level p (sort_by before ls) ≡ has_level p ls
unfolding has_level sort_by
has_level-sort_by before p [] = refl
has_level-sort_by before p (l ∷ ls) =
    rw (has_level-insert_level before p l (sort_by before ls), has_level-sort_by before p ls)

has_level-append_new :
    (p : LegacyDec) (ls : List PriceLevel) → has_level p (ls ++ new_price_level p ∷ []) ≡ true
unfolding has_level new_price_level
has_level-append_new p [] = ground arith
has_level-append_new p (l ∷ ls) = ground (arith, has_level-append_new p ls)

-- Where a level stands at the price, the order is listed there once more.
listed-update_level :
    (j id : String) (q p : LegacyDec) (ls : List PriceLevel)
    → has_level p ls ≡ true
    → listed j (update_level p (add_to_level id q) ls) ≡ one_if (same id j) + listed j ls
unfolding listed has_level update_level add_to_level count_id
listed-update_level j id q p [] h = cc
listed-update_level j id q p (l ∷ ls) h =
    ground (arith, listed-update_level j id q p ls, count_id-append j l.order_ids (id ∷ []))

listed_new_level : (j : String) (p : LegacyDec) (n : ℕ) → n + listed j (new_price_level p ∷ []) ≡ n
unfolding listed new_price_level count_id
listed_new_level j p n = omega arith

-- The order in which a side stands.
abbrev pub own_before : Order → LegacyDec → LegacyDec → Bool
own_before o = if is_buy o.side then gt else lt

pub own_levels-set_own_levels :
    (o : Order) (ls : List PriceLevel) (ob : OrderBook) → own_levels o (set_own_levels o ls ob) ≡ ls
unfolding own_levels set_own_levels
own_levels-set_own_levels o ls ob = elim (Bool-cases (is_buy o.side)) [
  | inl e ↦ rw e
  | inr e ↦ rw e
]

pub own_levels-sort_append :
    (o : Order) (ob : OrderBook)
    → own_levels o (sort_levels (append_level o ob))
      ≡ sort_by (own_before o) (own_levels o ob ++ new_price_level o.price ∷ [])
unfolding own_levels sort_levels append_level
own_levels-sort_append o ob = elim (Bool-cases (is_buy o.side)) [ inl e ↦ rw e | inr e ↦ rw e ]

-- What `AddOrder` leaves on the order's side: a level at its price, which is new or was there, and
-- the order at its end.
pub own_levels-add_order :
    (o : Order) (ob : OrderBook)
    → own_levels o (add_order o ob)
      ≡ update_level o.price
          (add_to_level o.order_id (remaining_qty o))
          (own_levels o (with_level o ob))
unfolding add_order
own_levels-add_order o ob = own_levels-set_own_levels o _ (with_level o ob)

listed-with_level :
    (j : String) (o : Order) (ob : OrderBook)
    → listed j (own_levels o (with_level o ob)) ≡ listed j (own_levels o ob)
unfolding with_level
listed-with_level j o ob = elim (Bool-cases (has_level o.price (own_levels o ob))) [
  | inl e ↦ rw e
  | inr e ↦ rw e (
      rw (own_levels-sort_append o ob, listed-sort_by (own_before o) j, listed-append)
        (listed_new_level j o.price (listed j (own_levels o ob))))
]

has_level-with_level :
    (o : Order) (ob : OrderBook) → has_level o.price (own_levels o (with_level o ob)) ≡ true
unfolding with_level
has_level-with_level o ob = elim (Bool-cases (has_level o.price (own_levels o ob))) [
  | inl e ↦ rw e e
  | inr e ↦ rw e (
      rw (own_levels-sort_append o ob, has_level-sort_by (own_before o) o.price)
        (has_level-append_new o.price (own_levels o ob)))
]

-- `AddOrder` lists its order once more on the order's side, and no other order more or less often.
pub listed-add_order :
    (j : String) (o : Order) (ob : OrderBook)
    → listed j (own_levels o (add_order o ob))
      ≡ one_if (same o.order_id j) + listed j (own_levels o ob)
listed-add_order j o ob =
    rw (own_levels-add_order o ob, ← listed-with_level j o ob)
      (listed-update_level j o.order_id (remaining_qty o) o.price (own_levels o (with_level o ob))
        (has_level-with_level o ob))
