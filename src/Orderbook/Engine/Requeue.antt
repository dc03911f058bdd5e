-- ===== src/Orderbook/Engine/Requeue.antt =====
-- The end blocker hands every active order to `ProcessOrder`, those too that rest in the book
-- already. What is left of such an order is added to the book again.
use perp_dex.Base.{
  suc, ◌≡◌, refl, subst, ◌∙◌, true, String, List, [], ◌∷◌, some, arith, Bool-cases, inl, inr,
  same_self,
}
use perp_dex.Base.Dict.{Dict, lookup, insert, lookup-insert_self}
use perp_dex.Decimal.{is_positive}
use perp_dex.Orderbook.Types.{Order, is_buy, is_limit, remaining_qty}
use perp_dex.Orderbook.Level.{PriceLevel, is_empty}
use perp_dex.Orderbook.Book.{OrderBook, own_levels, add_order, sort_levels}
use perp_dex.Orderbook.Book.Listed.{count_id, listed, listed-add_order}
use perp_dex.Orderbook.Store.{Env, State, get_order_book, set_order_book, set_order}
use perp_dex.Base.Outcome.{done, ◌>>=◌}
use perp_dex.Orderbook.Matching.{match_levels}
use perp_dex.Orderbook.Engine.{
  Matched, match, book_or_new, opposite_levels, set_opposite_levels, cleanup_order_book, drop_empty,
  start_run, finish, place_rest, save_taker, process_order,
}

-- Dropping the empty levels loses no order.
pub listed-drop_empty : (j : String) (ls : List PriceLevel) → listed j (drop_empty ls) ≡ listed j ls
unfolding listed drop_empty count_id
listed-drop_empty j [] = refl
listed-drop_empty j (l ∷ ls) = elim (Bool-cases (is_empty l)) [
  | inl e ↦ rw (e, drop_empty) (ground (arith, listed-drop_empty j ls))
  | inr e ↦ rw (e, drop_empty) (omega (arith, listed-drop_empty j ls))
]

listed-cleanup :
    (j : String) (o : Order) (ob : OrderBook)
    → listed j (own_levels o (cleanup_order_book (set_opposite_levels o [] ob)))
      ≡ listed j (own_levels o ob)
unfolding own_levels cleanup_order_book set_opposite_levels
listed-cleanup j o ob = elim (Bool-cases (is_buy o.side)) [
  | inl e ↦ rw e (listed-drop_empty j ob.bids)
  | inr e ↦ rw e (listed-drop_empty j ob.asks)
]

-- The book that `Match` leaves where there is nothing to match against.
abbrev unmatched_book : Order → OrderBook → OrderBook
unmatched_book o ob = cleanup_order_book (set_opposite_levels o [] ob)

pub market_id-add_order : (o : Order) (ob : OrderBook) → (add_order o ob).market_id ≡ ob.market_id
unfolding add_order sort_levels
market_id-add_order o ob = ground arith

module _ {P : Type 0} (env : Env P) (o : Order) where
  match_lem :
      (s : State P)
      → match env o s ≡ (
          match_levels env (opposite_levels o (book_or_new o.market_id s)) (start_run env o s)
          >>= λ r. done (finish env (book_or_new o.market_id s) r))
  unfolding match
  match_lem s = refl

  process_order_lem :
      (s : State P)
      → process_order env o s ≡ (match env o s >>= λ m. done (save_taker env (place_rest env m)))
  unfolding process_order
  process_order_lem s = refl

  match_levels_nil :
      (s : State P) → match_levels env [] (start_run env o s) ≡ done ([], start_run env o s)
  unfolding match_levels
  match_levels_nil s = refl

  -- What `Match` leaves where there is nothing to match against.
  unmatched : OrderBook → State P → Matched P
  unmatched ob s = finish env ob ([], start_run env o s)

  book_or_new_found :
      (s : State P) (ob : OrderBook)
      → get_order_book o.market_id s ≡ some ob
      → book_or_new o.market_id s ≡ ob
  book_or_new_found s ob e = rw (e, book_or_new)

  match_unopposed :
      (s : State P) (ob : OrderBook)
      → get_order_book o.market_id s ≡ some ob
      → opposite_levels o ob ≡ []
      → match env o s ≡ done (unmatched ob s)
  unfolding unmatched
  match_unopposed s ob found empty =
      rw (match_lem s, book_or_new_found s ob found, empty, match_levels_nil s)

  -- The store after an order that met nothing has been added to its book.
  rested : OrderBook → State P → Matched P
  rested ob s = record (unmatched ob s) {
    store = set_order o (
        set_order_book (add_order o (unmatched_book o ob))
          (set_order_book (unmatched_book o ob) s));
  }

  lookup-own :
      (b : OrderBook) (bs : Dict OrderBook)
      → b.market_id ≡ o.market_id
      → lookup o.market_id (insert b.market_id b bs) ≡ some b
  lookup-own b bs e =
      subst (λ k. lookup k (insert b.market_id b bs) ≡ some b) e
        (lookup-insert_self b.market_id b bs)

  market_id-unmatched_book : (ob : OrderBook) → (unmatched_book o ob).market_id ≡ ob.market_id
  unfolding cleanup_order_book set_opposite_levels
  market_id-unmatched_book ob = ground arith

  place_unmatched :
      (s : State P) (ob : OrderBook)
      → ob.market_id ≡ o.market_id
      → is_limit o.order_type ≡ true
      → is_positive (remaining_qty o) ≡ true
      → place_rest env (unmatched ob s) ≡ rested ob s
  unfolding place_rest unmatched rested finish start_run
  place_unmatched s ob own lim left =
      rw (left, lim)
        (rw (
          book_or_new_found (set_order_book (unmatched_book o ob) s) (unmatched_book o ob)
            (lookup-own (unmatched_book o ob) s.order_books (market_id-unmatched_book ob ∙ own))))

  -- `ProcessOrder` of a limit order that has something left, where its market has a book with no
  -- opposite levels, ends with a book that lists the order once more than before, whether or not it
  -- was in the book already.
  pub process_order_lists :
      (s : State P) (ob : OrderBook)
      → ob.market_id ≡ o.market_id
      → get_order_book o.market_id s ≡ some ob
      → opposite_levels o ob ≡ []
      → is_limit o.order_type ≡ true
      → is_positive (remaining_qty o) ≡ true
      → (m : Matched P) × (ob' : OrderBook) × (process_order env o s ≡ done m)
        × (get_order_book o.market_id m.store ≡ some ob')
        × (listed o.order_id (own_levels o ob') ≡ suc (listed o.order_id (own_levels o ob)))
  unfolding save_taker rested
  process_order_lists s ob own found empty lim left = (
    save_taker env (rested ob s),
    add_order o (unmatched_book o ob),
    rw (process_order_lem s, match_unopposed s ob found empty)
        (rw (place_unmatched s ob own lim left)),
    lookup-own (add_order o (unmatched_book o ob)) _
        (market_id-add_order o (unmatched_book o ob) ∙ market_id-unmatched_book ob ∙ own),
    rw
        (
          listed-add_order o.order_id o (unmatched_book o ob),
          same_self o.order_id,
          listed-cleanup o.order_id o ob,
        )
        (omega arith),
  )
