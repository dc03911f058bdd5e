-- ===== src/Orderbook/V2.antt =====
-- x/orderbook/keeper/orderbook_v2.go: the book over skip lists. A skip list is a third-party
-- package's, and an interface here. A level that the source changes behind its pointer is set again
-- under its price; locks are left out.
pub mod Entries
pub mod Levels
pub mod Sides
pub mod Orders
pub mod Refines
pub mod Runs
pub mod Load
pub mod Loaded
pub mod Btree
use perp_dex.Base.{
  ℕ, zero, suc, ◌≡◌, Bool, true, false, String, List, [], ◌∷◌, ◌++◌, Option, none, some, map, same,
  if◌then◌else◌,
}
use perp_dex.Base.Int.{◌+ℤ◌, ◌-ℤ◌}
use perp_dex.Decimal.{LegacyDec, zero_dec, gt, lt, equal}
use perp_dex.Orderbook.Types.{Side, Order, is_buy, remaining_qty}
use perp_dex.Orderbook.Level.{PriceLevel}
use perp_dex.Orderbook.Book.{OrderBook}

pub record PriceLevelV2 : Type 0 where
  pub price : LegacyDec
  pub quantity : LegacyDec
  pub orders : List Order

unfoldable pub new_level : LegacyDec → PriceLevelV2
new_level price = record { price = price; quantity = zero_dec; orders = [] }

unfoldable pub add_to : Order → PriceLevelV2 → PriceLevelV2
add_to o l = record l { orders = l.orders ++ o ∷ []; quantity = l.quantity +ℤ remaining_qty o }

-- The first order with an ID.
unfoldable pub find_order : String → List Order → Option Order
find_order id [] = none
find_order id (o ∷ os) = if same o.order_id id then some o else find_order id os

unfoldable pub without_order : String → List Order → List Order
without_order id [] = []
without_order id (o ∷ os) = if same o.order_id id then os else o ∷ without_order id os

-- `PriceLevelV2.RemoveOrder`: the level, and the order that it found.
unfoldable pub remove_from : String → PriceLevelV2 → PriceLevelV2 × Option Order
remove_from id l = elim (find_order id l.orders) [
  | none ↦ (l, none)
  | some o ↦ (
    record l { orders = without_order id l.orders; quantity = l.quantity -ℤ remaining_qty o },
    some o,
  )
]

unfoldable pub sum_remaining : List Order → LegacyDec → LegacyDec
sum_remaining [] total = total
sum_remaining (o ∷ os) total = sum_remaining os (total +ℤ remaining_qty o)

unfoldable pub update_quantity : PriceLevelV2 → PriceLevelV2
update_quantity l = record l { quantity = sum_remaining l.orders zero_dec }

abbrev pub has_none : PriceLevelV2 → Bool
has_none l = elim l.orders [ [] ↦ true | _ ↦ false ]

abbrev pub first_order : PriceLevelV2 → Option Order
first_order l = elim l.orders [ [] ↦ none | (o ∷ _) ↦ some o ]

unfoldable pub to_price_level : PriceLevelV2 → PriceLevel
to_price_level l = record {
  price = l.price;
  quantity = l.quantity;
  order_ids = map (λ o. o.order_id) l.orders;
}

abbrev pub Entry : Type 0
Entry = LegacyDec × PriceLevelV2

-- `skiplist.SkipList` of github.com/huandu/skiplist: what the book uses of it. The type of a list
-- depends on its comparator, of which `before` says what comes first; `entries` are the keys and
-- values from `Front` by `Next`.
pub record SkipLists : Type 1 where
  pub Rep : (LegacyDec → LegacyDec → Bool) → Type 0
  pub empty : (before : LegacyDec → LegacyDec → Bool) → Rep before
  pub entries : {before : LegacyDec → LegacyDec → Bool} → Rep before → List Entry
  pub get : {before : LegacyDec → LegacyDec → Bool} → LegacyDec → Rep before → Option PriceLevelV2
  pub set :
      {before : LegacyDec → LegacyDec → Bool} → LegacyDec → PriceLevelV2 → Rep before → Rep before
  pub remove : {before : LegacyDec → LegacyDec → Bool} → LegacyDec → Rep before → Rep before

-- The value under a key.
unfoldable pub value_at : LegacyDec → List Entry → Option PriceLevelV2
value_at p [] = none
value_at p ((k, v) ∷ es) = if equal k p then some v else value_at p es

-- A value in place of the one under its key, or before the first key that it comes before.
unfoldable pub put_at :
    (LegacyDec → LegacyDec → Bool) → LegacyDec → PriceLevelV2 → List Entry → List Entry
put_at before p v [] = (p, v) ∷ []
put_at before p v ((k, w) ∷ es) =
    if equal k p
    then (p, v) ∷ es
    else if before k p
    then (k, w) ∷ put_at before p v es
    else (p, v) ∷ (k, w) ∷ es

unfoldable pub drop_at : LegacyDec → List Entry → List Entry
drop_at p [] = []
drop_at p ((k, v) ∷ es) = if equal k p then es else (k, v) ∷ drop_at p es

-- What the package documents: a list that is ordered by its comparator, with one value to a key.
pub record IsOrderedMap (L : SkipLists) : Type 0 where
  pub empty_eq : (before : LegacyDec → LegacyDec → Bool) → L.entries (L.empty before) ≡ []
  pub get_eq :
      {before : LegacyDec → LegacyDec → Bool} (p : LegacyDec) (r : L.Rep before)
      → L.get p r ≡ value_at p (L.entries r)
  pub set_eq :
      {before : LegacyDec → LegacyDec → Bool} (p : LegacyDec) (v : PriceLevelV2) (r : L.Rep before)
      → L.entries (L.set p v r) ≡ put_at before p v (L.entries r)
  pub remove_eq :
      {before : LegacyDec → LegacyDec → Bool} (p : LegacyDec) (r : L.Rep before)
      → L.entries (L.remove p r) ≡ drop_at p (L.entries r)

-- The first entries, up to a number.
unfoldable pub take_levels : ℕ → List Entry → List PriceLevelV2
take_levels zero es = []
take_levels (suc n) [] = []
take_levels (suc n) ((_, v) ∷ es) = v ∷ take_levels n es

abbrev pub front : List Entry → Option PriceLevelV2
front [] = none
front ((_, v) ∷ es) = some v

abbrev pub to_levels : List Entry → List PriceLevel
to_levels es = map (λ e. to_price_level e.1) es

-- The level that is found at a price, or a new one.
abbrev pub level_or_new : LegacyDec → Option PriceLevelV2 → PriceLevelV2
level_or_new price (some l) = l
level_or_new price none = new_level price

module _ (L : SkipLists) where
  pub record OrderBookV2 : Type 0 where
    pub market_id : String
    pub bids : L.Rep gt
    pub asks : L.Rep lt

  unfoldable pub new_book : String → OrderBookV2
  new_book market_id = record { market_id = market_id; bids = L.empty gt; asks = L.empty lt }

  -- One side with an order more.
  unfoldable pub add_to_side :
      {before : LegacyDec → LegacyDec → Bool} → Order → L.Rep before → L.Rep before
  add_to_side o r = L.set o.price (add_to o (level_or_new o.price (L.get o.price r))) r

  -- `OrderBookV2.AddOrder`
  unfoldable pub add_v2 : Order → OrderBookV2 → OrderBookV2
  add_v2 o ob =
      if is_buy o.side
      then record ob { bids = add_to_side o ob.bids }
      else record ob { asks = add_to_side o ob.asks }

  -- One side without an order, and the order that was found.
  unfoldable pub remove_from_side :
      {before : LegacyDec → LegacyDec → Bool}
      → String
      → LegacyDec
      → L.Rep before
      → L.Rep before × Option Order
  remove_from_side id price r = elim (L.get price r) [
    | none ↦ (r, none)
    | some l ↦
        let (l', o) = remove_from id l in
        (if has_none l' then L.remove price r else L.set price l' r, o)
  ]

  -- `RemoveOrderByID`
  unfoldable pub remove_by_id : String → Side → LegacyDec → OrderBookV2 → OrderBookV2 × Option Order
  remove_by_id id side price ob =
      let b = remove_from_side id price ob.bids in
      let a = remove_from_side id price ob.asks in
      if is_buy side then (record ob { bids = b.0 }, b.1) else (record ob { asks = a.0 }, a.1)

  -- `OrderBookV2.RemoveOrder`
  unfoldable pub remove_v2 : Order → OrderBookV2 → OrderBookV2 × Option Order
  remove_v2 o ob = remove_by_id o.order_id o.side o.price ob

  unfoldable pub get_best_bid : OrderBookV2 → Option PriceLevelV2
  get_best_bid ob = front (L.entries ob.bids)

  unfoldable pub get_best_ask : OrderBookV2 → Option PriceLevelV2
  get_best_ask ob = front (L.entries ob.asks)

  unfoldable pub get_spread : OrderBookV2 → LegacyDec
  get_spread ob = elim (get_best_bid ob) [
    | none ↦ zero_dec
    | some b ↦ elim (get_best_ask ob) [ none ↦ zero_dec | some a ↦ a.price -ℤ b.price ]
  ]

  unfoldable pub get_bid_levels : ℕ → OrderBookV2 → List PriceLevelV2
  get_bid_levels n ob = take_levels n (L.entries ob.bids)

  unfoldable pub get_ask_levels : ℕ → OrderBookV2 → List PriceLevelV2
  get_ask_levels n ob = take_levels n (L.entries ob.asks)

  -- `ToOrderBook`
  unfoldable pub to_order_book : OrderBookV2 → OrderBook
  to_order_book ob = record {
    market_id = ob.market_id;
    bids = to_levels (L.entries ob.bids);
    asks = to_levels (L.entries ob.asks);
  }
