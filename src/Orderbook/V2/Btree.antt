-- ===== src/Orderbook/V2/Btree.antt =====
-- x/orderbook/keeper/orderbook_btree.go: the book over B-trees. The tree is a third-party package's,
-- and an interface here.
pub mod Backwards
pub mod Same
pub mod Runs
use perp_dex.Base.{
  ℕ, ◌≡◌, Bool, true, false, String, List, [], ◌∷◌, ◌++◌, Option, none, some, map, if◌then◌else◌,
}
use perp_dex.Base.Int.{◌-ℤ◌}
use perp_dex.Decimal.{LegacyDec, zero_dec, lt}
use perp_dex.Orderbook.Types.{Side, Order, is_buy}
use perp_dex.Orderbook.Book.{OrderBook}
use perp_dex.Orderbook.V2.{
  PriceLevelV2, Entry, new_level, add_to, remove_from, has_none, value_at, put_at, drop_at, front,
  take_levels, to_levels,
}
use perp_dex.Orderbook.V2.Runs.{BookCall, adds, removes}

-- The entries from the last to the first.
unfoldable pub backwards : List Entry → List Entry
backwards [] = []
backwards (e ∷ es) = backwards es ++ e ∷ []

-- `btree.BTree` of github.com/google/btree at items that `priceLevelItem.Less` orders: what the book
-- uses of it. An item is an entry.
pub record Trees : Type 1 where
  pub Tree : Type 0
  pub new : Tree
  pub ascend : Tree → List Entry
  pub descend : Tree → List Entry
  pub min : Tree → Option PriceLevelV2
  pub max : Tree → Option PriceLevelV2
  pub get : LegacyDec → Tree → Option PriceLevelV2
  pub replace_or_insert : LegacyDec → PriceLevelV2 → Tree → Tree
  pub delete : LegacyDec → Tree → Tree

-- What the package documents: a set that is ordered by `Less`, in which an item replaces the one that
-- is equal to it.
pub record IsOrderedSet (T : Trees) : Type 0 where
  pub new_eq : T.ascend T.new ≡ []
  pub get_eq : (p : LegacyDec) (t : T.Tree) → T.get p t ≡ value_at p (T.ascend t)
  pub insert_eq :
      (p : LegacyDec) (v : PriceLevelV2) (t : T.Tree)
      → T.ascend (T.replace_or_insert p v t) ≡ put_at lt p v (T.ascend t)
  pub delete_eq : (p : LegacyDec) (t : T.Tree) → T.ascend (T.delete p t) ≡ drop_at p (T.ascend t)
  pub descend_eq : (t : T.Tree) → T.descend t ≡ backwards (T.ascend t)
  pub min_eq : (t : T.Tree) → T.min t ≡ front (T.ascend t)
  pub max_eq : (t : T.Tree) → T.max t ≡ front (T.descend t)

module _ (T : Trees) where
  pub record BtreeSide : Type 0 where
    pub tree : T.Tree
    pub desc : Bool

  unfoldable pub new_btree_side : Bool → BtreeSide
  new_btree_side desc = record { tree = T.new; desc = desc }

  unfoldable pub get_level : LegacyDec → BtreeSide → Option PriceLevelV2
  get_level p s = T.get p s.tree

  unfoldable pub set_level : LegacyDec → PriceLevelV2 → BtreeSide → BtreeSide
  set_level p l s = record s { tree = T.replace_or_insert p l s.tree }

  -- `GetOrCreate`: the level at a price, which is new where there is none.
  unfoldable pub get_or_create : LegacyDec → BtreeSide → PriceLevelV2 × BtreeSide
  get_or_create p s = elim (get_level p s) [
    | none ↦ (new_level p, set_level p (new_level p) s)
    | some l ↦ (l, s)
  ]

  unfoldable pub remove_level : LegacyDec → BtreeSide → BtreeSide
  remove_level p s = record s { tree = T.delete p s.tree }

  unfoldable pub best : BtreeSide → Option PriceLevelV2
  best s = if s.desc then T.max s.tree else T.min s.tree

  -- What `Iterate` passes to its callback.
  unfoldable pub iterate : BtreeSide → List Entry
  iterate s = if s.desc then T.descend s.tree else T.ascend s.tree

  pub record OrderBookBtree : Type 0 where
    pub market_id : String
    pub bids : BtreeSide
    pub asks : BtreeSide

  unfoldable pub new_btree_book : String → OrderBookBtree
  new_btree_book market_id = record {
    market_id = market_id;
    bids = new_btree_side true;
    asks = new_btree_side false;
  }

  -- A side with an order more: the level that is found or made is changed behind its pointer.
  unfoldable pub add_to_tree : Order → BtreeSide → BtreeSide
  add_to_tree o s =
      let found = get_or_create o.price s in set_level o.price (add_to o found.0) found.1

  -- `OrderBookBTree.AddOrder`
  unfoldable pub add_btree : Order → OrderBookBtree → OrderBookBtree
  add_btree o ob =
      if is_buy o.side
      then record ob { bids = add_to_tree o ob.bids }
      else record ob { asks = add_to_tree o ob.asks }

  -- A side without an order: the level that is found is changed behind its pointer, or goes.
  unfoldable pub remove_from_tree : String → LegacyDec → BtreeSide → BtreeSide × Option Order
  remove_from_tree id p s = elim (get_level p s) [
    | none ↦ (s, none)
    | some l ↦
        let (l', o) = remove_from id l in
        (if has_none l' then remove_level p s else set_level p l' s, o)
  ]

  -- `OrderBookBTree.RemoveOrderByID`
  unfoldable pub remove_by_id_btree :
      String → Side → LegacyDec → OrderBookBtree → OrderBookBtree × Option Order
  remove_by_id_btree id side price ob =
      let b = remove_from_tree id price ob.bids in
      let a = remove_from_tree id price ob.asks in
      if is_buy side then (record ob { bids = b.0 }, b.1) else (record ob { asks = a.0 }, a.1)

  -- `OrderBookBTree.RemoveOrder`
  unfoldable pub remove_btree : Order → OrderBookBtree → OrderBookBtree × Option Order
  remove_btree o ob = remove_by_id_btree o.order_id o.side o.price ob

  unfoldable pub best_bid_btree : OrderBookBtree → Option PriceLevelV2
  best_bid_btree ob = best ob.bids

  unfoldable pub best_ask_btree : OrderBookBtree → Option PriceLevelV2
  best_ask_btree ob = best ob.asks

  -- `OrderBookBTree.ToOrderBook`
  unfoldable pub to_order_book_btree : OrderBookBtree → OrderBook
  to_order_book_btree ob = record {
    market_id = ob.market_id;
    bids = to_levels (iterate ob.bids);
    asks = to_levels (iterate ob.asks);
  }

  unfoldable pub call_btree : BookCall → OrderBookBtree → OrderBookBtree
  call_btree (adds o) ob = add_btree o ob
  call_btree (removes o) ob = (remove_btree o ob).0

  unfoldable pub run_btree : List BookCall → OrderBookBtree → OrderBookBtree
  run_btree [] ob = ob
  run_btree (c ∷ cs) ob = run_btree cs (call_btree c ob)
