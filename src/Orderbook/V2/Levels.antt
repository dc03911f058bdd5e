-- ===== src/Orderbook/V2/Levels.antt =====
-- x/orderbook/keeper/orderbook_v2.go: a level that holds its orders, seen as a level of their IDs.
use perp_dex.Base.{
  ◌≡◌, refl, sym, ap, ◌∙◌, true, false, String, List, [], ◌∷◌, ◌++◌, none, some, map, same,
  same_iff, Bool-cases, Option-cases, inl, inr, All, arith,
}
use perp_dex.Base.Int.{◌+ℤ◌}
use perp_dex.Decimal.{LegacyDec}
use perp_dex.Orderbook.Types.{Order, remaining_qty}
use perp_dex.Orderbook.Level.{
  PriceLevel, new_price_level, has_id, remove_first, add_to_level, remove_from_level, is_empty,
}
use perp_dex.Orderbook.V2.{
  PriceLevelV2, new_level, add_to, find_order, without_order, remove_from, has_none, to_price_level,
}

abbrev ids : List Order → List String
ids os = map (λ o. o.order_id) os

ids-append : (os : List Order) (o : Order) → ids (os ++ o ∷ []) ≡ ids os ++ o.order_id ∷ []
ids-append [] o = refl
ids-append (x ∷ os) o = ap (λ l. x.order_id ∷ l) (ids-append os o)

pub to_price_level-add_to :
    (o : Order) (l : PriceLevelV2)
    → to_price_level (add_to o l) ≡ add_to_level o.order_id (remaining_qty o) (to_price_level l)
unfolding to_price_level add_to add_to_level
to_price_level-add_to o l =
    ap {B = PriceLevel}
      (λ is. record { price = l.price; quantity = l.quantity +ℤ remaining_qty o; order_ids = is })
      (ids-append l.orders o)

pub to_price_level-new : (p : LegacyDec) → to_price_level (new_level p) ≡ new_price_level p
unfolding to_price_level new_level new_price_level
to_price_level-new p = refl

-- Every order of the list that has the ID of `o` is `o`.
abbrev pub Knows : Order → List Order → Type 0
Knows o os = All (λ x. x.order_id ≡ o.order_id → x ≡ o) os

find_order-has_id :
    (id : String) (os : List Order) → find_order id os ≡ none → has_id id (ids os) ≡ false
unfolding find_order has_id
find_order-has_id id [] h = refl
find_order-has_id id (o ∷ os) h = ground (arith, find_order-has_id id os)

find_order-head :
    (id : String) (o : Order) (os : List Order)
    → same o.order_id id ≡ true
    → find_order id (o ∷ os) ≡ some o
unfolding find_order
find_order-head id o os e = rw e refl

find_order-tail :
    (id : String) (o : Order) (os : List Order)
    → same o.order_id id ≡ false
    → find_order id (o ∷ os) ≡ find_order id os
unfolding find_order
find_order-tail id o os e = rw e refl

pub some_inj : {A : Type 0} (a b : A) → some a ≡ some b → a ≡ b
some_inj a b h = ground arith

find_order-some :
    (o : Order) (os : List Order) (x : Order)
    → Knows o os
    → find_order o.order_id os ≡ some x
    → (x ≡ o) × (has_id o.order_id (ids os) ≡ true)
unfolding find_order has_id
find_order-some o [] x k h = ground arith
find_order-some o (y ∷ os) x (k, ks) h = elim (Bool-cases (same y.order_id o.order_id)) [
  | inl e ↦ (
    sym (some_inj y x (sym (find_order-head o.order_id y os e) ∙ h))
        ∙ k ((same_iff y.order_id o.order_id).0 e),
    rw e refl,
  )
  | inr e ↦
      let rest = find_order-some o os x ks (sym (find_order-tail o.order_id y os e) ∙ h) in
      (rest.0, rw e rest.1)
]

ids-without : (id : String) (os : List Order) → ids (without_order id os) ≡ remove_first id (ids os)
unfolding without_order remove_first
ids-without id [] = refl
ids-without id (o ∷ os) = elim (Bool-cases (same o.order_id id)) [
  | inl e ↦ rw e refl
  | inr e ↦ rw e (ap (λ l. o.order_id ∷ l) (ids-without id os))
]

none-is_empty :
    (l : PriceLevelV2) (os : List Order)
    → has_none (record l { orders = os }) ≡ is_empty (to_price_level (record l { orders = os }))
unfolding to_price_level
none-is_empty l [] = refl
none-is_empty l (o ∷ os) = refl

pub has_none-is_empty : (l : PriceLevelV2) → has_none l ≡ is_empty (to_price_level l)
unfolding to_price_level
has_none-is_empty l = none-is_empty l l.orders

pub to_price_level-remove_from :
    (o : Order) (l : PriceLevelV2)
    → Knows o l.orders
    → to_price_level (remove_from o.order_id l).0
      ≡ remove_from_level o.order_id (remaining_qty o) (to_price_level l)
unfolding remove_from remove_from_level to_price_level
to_price_level-remove_from o l k = elim (Option-cases (find_order o.order_id l.orders)) [
  | inl e ↦
      rw (e, remove_from) (rw (find_order-has_id o.order_id l.orders e, remove_from_level) refl)
  | inr (x, e) ↦
      let found = find_order-some o l.orders x k e in
      rw (e, remove_from)
        (rw (found.1, remove_from_level) (rw (found.0, ids-without o.order_id l.orders) refl))
]
