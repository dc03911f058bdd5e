-- ===== src/Orderbook/Tests/Book.antt =====
-- The theorems of the book, at the book of the tests.
use perp_dex.Base.{◌+◌, ◌≡◌, refl, same, List, [], ◌∷◌, String, map, if◌then◌else◌}
use perp_dex.Decimal.{new_dec}
use perp_dex.Orderbook.Types.{Order, Side}
use perp_dex.Orderbook.Book.{add_order, remove_order, own_levels, new_order_book}
use perp_dex.Orderbook.Book.Listed.{listed, one_if, listed-add_order}
use perp_dex.Orderbook.Book.Ordered.{IsOrdered, add_order-IsOrdered}
use perp_dex.Orderbook.Book.Removed.{Removes, remove_order-Removes}
use perp_dex.Orderbook.V2.{
  SkipLists, IsOrderedMap, Entry, value_at, put_at, drop_at, to_order_book, new_book,
  get_bid_levels, take_levels, front, get_best_bid, get_best_ask, add_v2, add_to_side, remove_v2,
  remove_by_id, remove_from_side, remove_from, find_order, without_order, add_to, new_level,
}
use perp_dex.Base.Dict.{lookup, insert}
use perp_dex.Orderbook.V2.Load.{from_order_book}
use perp_dex.Orderbook.V2.Loaded.{to_order_book-from_order_book}
use perp_dex.Decimal.{lt}
use perp_dex.Orderbook.V2.Btree.{
  Trees, IsOrderedSet, new_btree_book, run_btree, backwards, remove_btree, to_order_book_btree,
  best_bid_btree, best_ask_btree,
}
use perp_dex.Orderbook.V2.Btree.Runs.{run_btree-run_v2}
use perp_dex.Orderbook.V2.Runs.{
  BookCall, adds, removes, run_v2, run_v1, call_v2, run_v2-to_order_book,
}
use perp_dex.Orderbook.Tests.{book, stored, first_maker, second_maker, third_maker, order}

-- A seller at a price that the book does not have.
abbrev seller : Order
seller = order "e" Side.sell (new_dec 98) (new_dec 1)

book-IsOrdered : IsOrdered book
book-IsOrdered = record { bids_sorted = tt; asks_sorted = (tt, tt) }

add_order-IsOrdered_example : IsOrdered (add_order seller book)
add_order-IsOrdered_example = add_order-IsOrdered seller book book-IsOrdered

remove_order-Removes_example : Removes first_maker book (remove_order first_maker book)
remove_order-Removes_example = remove_order-Removes first_maker book book-IsOrdered

listed-add_order_example :
    listed "e" (own_levels seller (add_order seller book))
    ≡ one_if (same "e" "e") + listed "e" (own_levels seller book)
listed-add_order_example = listed-add_order "e" seller book

-- Ordered lists of entries, as a skip list keeps them.
abbrev entry_lists : SkipLists
entry_lists = record {
  Rep = λ before. List Entry;
  empty = λ before. [];
  entries = λ {before} r. r;
  get = λ {before} p r. value_at p r;
  set = λ {before} p v r. put_at before p v r;
  remove = λ {before} p r. drop_at p r;
}

entry_lists-IsOrderedMap : IsOrderedMap entry_lists
entry_lists-IsOrderedMap = record {
  empty_eq = λ before. refl;
  get_eq = λ {before} p r. refl;
  set_eq = λ {before} p v r. refl;
  remove_eq = λ {before} p r. refl;
}

abbrev bidder : Order
bidder = order "a" Side.buy (new_dec 90) (new_dec 3)

abbrev higher_bidder : Order
higher_bidder = order "b" Side.buy (new_dec 95) (new_dec 2)

abbrev calls : List BookCall
calls = adds bidder ∷ adds seller ∷ adds higher_bidder ∷ removes bidder ∷ []

abbrev named : String → Order
named id = if same id "a" then bidder else if same id "b" then higher_bidder else seller

run_v2-to_order_book_example :
    to_order_book entry_lists (run_v2 entry_lists calls (new_book entry_lists "BTC-USDC"))
    ≡ run_v1 calls (new_order_book "BTC-USDC")
unfolding same
run_v2-to_order_book_example =
    run_v2-to_order_book entry_lists entry_lists-IsOrderedMap named "BTC-USDC" calls
      (refl, (refl, (refl, (refl, tt))))

-- The second bidder is first, and the first has gone with its level.
calls-best_bid :
    map
      (λ l. l.price)
      (get_bid_levels entry_lists 5 (run_v2 entry_lists calls (new_book entry_lists "BTC-USDC")))
    ≡ new_dec 95 ∷ []
unfolding run_v2 call_v2 new_book get_bid_levels take_levels add_v2 add_to_side remove_v2
    remove_by_id remove_from_side remove_from find_order without_order put_at value_at drop_at
    add_to new_level same
calls-best_bid = refl

to_order_book-from_order_book_example :
    to_order_book entry_lists (from_order_book entry_lists book stored) ≡ book
unfolding lookup insert same
to_order_book-from_order_book_example =
    to_order_book-from_order_book entry_lists entry_lists-IsOrderedMap stored book book-IsOrdered tt
      (
        (
          refl,
          (
            record { order = first_maker; found = refl; named = refl },
            (
              record { order = second_maker; found = refl; named = refl },
              (record { order = third_maker; found = refl; named = refl }, tt),
            ),
          ),
        ),
        tt,
      )

-- Ordered lists of entries, as a B-tree keeps them.
abbrev entry_trees : Trees
entry_trees = record {
  Tree = List Entry;
  new = [];
  ascend = λ t. t;
  descend = backwards;
  min = front;
  max = λ t. front (backwards t);
  get = value_at;
  replace_or_insert = put_at lt;
  delete = drop_at;
}

entry_trees-IsOrderedSet : IsOrderedSet entry_trees
entry_trees-IsOrderedSet = record {
  new_eq = refl;
  get_eq = λ p t. refl;
  insert_eq = λ p v t. refl;
  delete_eq = λ p t. refl;
  descend_eq = λ t. refl;
  min_eq = λ t. refl;
  max_eq = λ t. refl;
}

run_btree-run_v2_example :
    ((to_order_book_btree entry_trees
          (run_btree entry_trees calls (new_btree_book entry_trees "BTC-USDC"))
        ≡ to_order_book entry_lists (run_v2 entry_lists calls (new_book entry_lists "BTC-USDC")))
      × ((best_bid_btree entry_trees
              (run_btree entry_trees calls (new_btree_book entry_trees "BTC-USDC"))
            ≡ get_best_bid entry_lists (run_v2 entry_lists calls (new_book entry_lists "BTC-USDC")))
          × (best_ask_btree entry_trees
                (run_btree entry_trees calls (new_btree_book entry_trees "BTC-USDC"))
              ≡ get_best_ask entry_lists
                  (run_v2 entry_lists calls (new_book entry_lists "BTC-USDC")))))
    × ((remove_btree entry_trees seller
          (run_btree entry_trees calls (new_btree_book entry_trees "BTC-USDC"))).1
        ≡ (remove_v2 entry_lists seller
            (run_v2 entry_lists calls (new_book entry_lists "BTC-USDC"))).1)
run_btree-run_v2_example =
    run_btree-run_v2 entry_trees entry_trees-IsOrderedSet entry_lists entry_lists-IsOrderedMap
      "BTC-USDC" calls seller
