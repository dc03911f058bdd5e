-- ===== src/Orderbook/Book/Removed.antt =====
-- What `RemoveOrder` takes off a book: one ID of one level, and the level where it is left empty.
use perp_dex.Base.{
  ◌≡◌, ◌⊎◌, refl, sym, ap, ◌∙◌, subst, true, false, Bool, String, List, [], ◌∷◌, ◌++◌, Option, none,
  some, if◌then◌else◌, Bool-cases, inl, inr, same, same_iff, arith,
}
use perp_dex.Base.Int.{◌+ℤ◌, ◌-ℤ◌, int_laws, eq_of_parts}
use perp_dex.Decimal.{LegacyDec, gt, lt, equal}
use perp_dex.Orderbook.Types.{Order, is_buy, remaining_qty}
use perp_dex.Orderbook.Level.{PriceLevel, has_id, remove_first, remove_from_level, is_empty}
use perp_dex.Orderbook.Book.{
  OrderBook, has_level, own_levels, set_own_levels, remove_order, remove_from_levels,
}
use perp_dex.Orderbook.Book.Sorted.{IsDistinct, IsSorted-IsDistinct, gt-IsStrict, lt-IsStrict}
use perp_dex.Orderbook.Book.Ordered.{IsOrdered, price-remove_from_level, remove_order-IsOrdered}

-- The first level at a price.
abbrev pub level_at : LegacyDec → List PriceLevel → Option PriceLevel
level_at p [] = none
level_at p (l ∷ ls) = if equal l.price p then some l else level_at p ls

-- The level before and after `qty` of `id` is removed. A level that stays has orders; without the ID
-- it is as it was, and else it loses one place of the ID, with the others in their order, and the
-- quantity. A level that goes had no order but this.
abbrev pub LosesOrder : String → LegacyDec → Option PriceLevel → Option PriceLevel → Type 0
LosesOrder id qty none r = r ≡ none
LosesOrder id qty (some l) none = (l.order_ids ≡ []) ⊎ (l.order_ids ≡ id ∷ [])
LosesOrder id qty (some l) (some l') =
    (is_empty l' ≡ false)
    × (((has_id id l.order_ids ≡ false) × (l' ≡ l))
        ⊎ ((l'.price ≡ l.price)
            × ((l'.quantity +ℤ qty ≡ l.quantity)
                × ((xs : List String) × (ys : List String) × (l.order_ids ≡ xs ++ id ∷ ys)
                    × (l'.order_ids ≡ xs ++ ys)))))

bool_clash : ◌≡◌ {A = Bool} false true → ⊥
bool_clash h = ground arith

cons_empty : (x : String) (xs : List String) → x ∷ xs ≡ [] → ⊥
cons_empty x xs h = ground arith

has_id-rest :
    (id x : String) (is : List String)
    → same x id ≡ false
    → has_id id (x ∷ is) ≡ true
    → has_id id is ≡ true
unfolding has_id
has_id-rest id x is e h = rw e at h

equal_eq : (a b : LegacyDec) → equal a b ≡ true → a ≡ b
equal_eq a b h = ground (arith, eq_of_parts a b)

cut :
    (id : String) (is : List String)
    → has_id id is ≡ true
    → (xs : List String) × (ys : List String) × (is ≡ xs ++ id ∷ ys)
      × (remove_first id is ≡ xs ++ ys)
unfolding has_id remove_first
cut id [] h = elim (bool_clash h) [ ]
cut id (x ∷ is) h = elim (Bool-cases (same x id)) [
  | inl e ↦ rw e ([], is, ap (λ y. y ∷ is) ((same_iff x id).0 e), refl)
  | inr e ↦
      let (xs, ys, a, b) = cut id is (has_id-rest id x is e h) in
      rw e (x ∷ xs, ys, ap (λ l. x ∷ l) a, ap (λ l. x ∷ l) b)
]

append-empty : (id : String) (xs ys : List String) → xs ++ ys ≡ [] → xs ++ id ∷ ys ≡ id ∷ []
append-empty id [] ys h = ap (λ l. id ∷ l) h
append-empty id (x ∷ xs) ys h = elim (cons_empty x (xs ++ ys) h) [ ]

empty_ids :
    (p q : LegacyDec) (is : List String)
    → is_empty (record { price = p; quantity = q; order_ids = is }) ≡ true
    → is ≡ []
empty_ids p q [] h = refl
empty_ids p q (x ∷ is) h = elim (bool_clash h) [ ]

remove_from_level-LosesOrder :
    (id : String) (qty : LegacyDec) (l : PriceLevel)
    → LosesOrder id qty
        (some l)
        (if is_empty (remove_from_level id qty l) then none else some (remove_from_level id qty l))
unfolding remove_from_level
remove_from_level-LosesOrder id qty l = elim (Bool-cases (has_id id l.order_ids)) [
  | inr a ↦ rw a (elim (Bool-cases (is_empty l)) [
    | inl e ↦ rw e (inl (empty_ids l.price l.quantity l.order_ids e))
    | inr e ↦ rw e (e, inl (a, refl))
  ])
  | inl a ↦
      let (xs, ys, whole, left) = cut id l.order_ids a in
      let l' : PriceLevel = record l {
        order_ids = remove_first id l.order_ids;
        quantity = l.quantity -ℤ qty;
      } in
      rw a (elim (Bool-cases (is_empty l')) [
        | inl e ↦ rw e (
            inr (
              whole
              ∙ append-empty id xs ys (sym left ∙ empty_ids l'.price l'.quantity l'.order_ids e)))
        | inr e ↦ rw e (e, inr (refl, (omega int_laws, (xs, ys, whole, left))))
      ])
]

level_at-none :
    (p : LegacyDec) (ls : List PriceLevel) → has_level p ls ≡ false → level_at p ls ≡ none
unfolding has_level
level_at-none p [] h = refl
level_at-none p (l ∷ ls) h = ground (arith, level_at-none p ls)

-- The levels without their first, or with another in its place.
level_at-first :
    (p : LegacyDec) (b : Bool) (l : PriceLevel) (ls : List PriceLevel)
    → equal l.price p ≡ true
    → level_at p ls ≡ none
    → level_at p (if b then ls else l ∷ ls) ≡ (if b then none else some l)
level_at-first p true l ls e gone = gone
level_at-first p false l ls e gone = rw e refl

level_at-behind :
    (p : LegacyDec) (b : Bool) (l : PriceLevel) (ls : List PriceLevel)
    → equal l.price p ≡ false
    → level_at p (if b then ls else l ∷ ls) ≡ level_at p ls
level_at-behind p true l ls e = refl
level_at-behind p false l ls e = rw e refl

other_price : (a p q : LegacyDec) → equal a p ≡ true → equal p q ≡ false → equal a q ≡ false
other_price a p q e h = ground arith

module _ (id : String) (qty p : LegacyDec) where
  same_price :
      (l : PriceLevel) (q : LegacyDec) (b : Bool)
      → equal l.price q ≡ b
      → equal (remove_from_level id qty l).price q ≡ b
  same_price l q b h = ap (λ x. equal x q) (price-remove_from_level id qty l) ∙ h

  remove_from_levels-here :
      (ls : List PriceLevel)
      → IsDistinct ls
      → LosesOrder id qty (level_at p ls) (level_at p (remove_from_levels id qty p ls))
  unfolding remove_from_levels
  remove_from_levels-here [] d = refl
  remove_from_levels-here (l ∷ ls) (new, d) = elim (Bool-cases (equal l.price p)) [
    | inr e ↦ rw (e, e) (remove_from_levels-here ls d)
    | inl e ↦
        let l' = remove_from_level id qty l in
        let gone : level_at p ls ≡ none =
          level_at-none p ls (subst (λ x. has_level x ls ≡ false) (equal_eq l.price p e) new) in
        rw e (
          rw (level_at-first p (is_empty l') l' ls (same_price l p true e) gone)
            (remove_from_level-LosesOrder id qty l))
  ]

  remove_from_levels-others :
      (q : LegacyDec) (ls : List PriceLevel)
      → equal p q ≡ false
      → level_at q (remove_from_levels id qty p ls) ≡ level_at q ls
  unfolding remove_from_levels
  remove_from_levels-others q [] h = refl
  remove_from_levels-others q (l ∷ ls) h = elim (Bool-cases (equal l.price p)) [
    | inl e ↦
        let l' = remove_from_level id qty l in
        let away = other_price l.price p q e h in
        rw (e, away) (level_at-behind q (is_empty l') l' ls (same_price l q false away))
    | inr e ↦
        rw e (ap (λ x. if equal l.price q then some l else x) (remove_from_levels-others q ls h))
  ]

abbrev other_levels : Order → OrderBook → List PriceLevel
other_levels o ob = if is_buy o.side then ob.asks else ob.bids

-- What `RemoveOrder` makes of a book.
pub record Removes (o : Order) (ob ob' : OrderBook) : Type 0 where
  pub ordered : IsOrdered ob'
  pub here :
      LosesOrder o.order_id
        (remaining_qty o)
        (level_at o.price (own_levels o ob))
        (level_at o.price (own_levels o ob'))
  pub elsewhere :
      (q : LegacyDec)
      → equal o.price q ≡ false
      → level_at q (own_levels o ob') ≡ level_at q (own_levels o ob)
  pub other_side : other_levels o ob' ≡ other_levels o ob

own-IsDistinct : (o : Order) (ob : OrderBook) → IsOrdered ob → IsDistinct (own_levels o ob)
unfolding own_levels
own-IsDistinct o ob h = elim (Bool-cases (is_buy o.side)) [
  | inl e ↦ rw e (IsSorted-IsDistinct gt gt-IsStrict ob.bids h.bids_sorted)
  | inr e ↦ rw e (IsSorted-IsDistinct lt lt-IsStrict ob.asks h.asks_sorted)
]

set_own_levels_lem :
    (o : Order) (ls : List PriceLevel) (ob : OrderBook)
    → (own_levels o (set_own_levels o ls ob) ≡ ls)
      × (other_levels o (set_own_levels o ls ob) ≡ other_levels o ob)
unfolding own_levels set_own_levels
set_own_levels_lem o ls ob = elim (Bool-cases (is_buy o.side)) [
  | inl e ↦ rw e (refl, refl)
  | inr e ↦ rw e (refl, refl)
]

-- On a book with both sides in strict price order, `RemoveOrder` keeps that order, the other side
-- and the levels at all other prices. The level at the order's price, where there is one, stays as
-- it was if it does not list the order; else it loses one place of its ID, with the others in their
-- order, and the order's remaining quantity. No empty level is left at that price.
pub remove_order-Removes :
    (o : Order) (ob : OrderBook) → IsOrdered ob → Removes o ob (remove_order o ob)
unfolding remove_order
remove_order-Removes o ob h =
    let ls = own_levels o ob in
    let after = remove_from_levels o.order_id (remaining_qty o) o.price ls in
    let set = set_own_levels_lem o after ob in
    record {
      ordered = remove_order-IsOrdered o ob h;
      here =
          subst
            (λ x.
              LosesOrder o.order_id (remaining_qty o) (level_at o.price ls) (level_at o.price x))
            (sym set.0)
            (remove_from_levels-here o.order_id (remaining_qty o) o.price ls
              (own-IsDistinct o ob h));
      elsewhere = λ q e.
          ap (level_at q) set.0
          ∙ remove_from_levels-others o.order_id (remaining_qty o) o.price q ls e;
      other_side = set.1;
    }
