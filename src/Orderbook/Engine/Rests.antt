-- ===== src/Orderbook/Engine/Rests.antt =====
-- `ProcessOrder`: what is left of a limit order stands in the book of its market.
use perp_dex.Base.{
  ◌≡◌, ◌<◌, refl, ap, sym, subst, ◌∙◌, true, false, ◌&&◌, ◌⊎◌, inl, inr, Bool-cases, Option-cases,
  String, some, same_self, arith,
}
use perp_dex.Base.Dict.{Dict, lookup, insert, lookup-insert_self, lookup-insert_found}
use perp_dex.Base.Outcome.{done}
use perp_dex.Decimal.{is_positive}
use perp_dex.Orderbook.Types.{Order, is_limit, is_market, is_active, cancel}
use perp_dex.Orderbook.Book.{OrderBook, new_order_book, add_order, own_levels}
use perp_dex.Orderbook.Book.Listed.{listed, listed-add_order}
use perp_dex.Orderbook.Store.{Env, State, get_order_book, set_order, set_order_book}
use perp_dex.Orderbook.Matching.Invariant.{IsOpen, IsSound}
use perp_dex.Orderbook.Matching.Loops.{HasMarket}
use perp_dex.Orderbook.Engine.{Matched, book_or_new, place_rest, save_taker, process_order}
use perp_dex.Orderbook.Engine.Match.{match_restores}
use perp_dex.Orderbook.Engine.Process.{IsPlaced, place_rest-IsPlaced}
use perp_dex.Orderbook.Engine.Requeue.{market_id-add_order}

-- Every book stands under the market that it names.
abbrev pub IsNamed : Dict OrderBook → Type 0
IsNamed d = (k : String) (b : OrderBook) → lookup k d ≡ some b → b.market_id ≡ k

pub insert-IsNamed :
    (b : OrderBook) (d : Dict OrderBook) → IsNamed d → IsNamed (insert b.market_id b d)
insert-IsNamed b d h k c e = elim (lookup-insert_found b.market_id k b d e) [
  | inl (i, j) ↦ ap (λ x. x.market_id) (sym j) ∙ i
  | inr (i, j) ↦ h k c j
]

market_id-new : (id : String) → (new_order_book id).market_id ≡ id
unfolding new_order_book
market_id-new id = refl

listed_once : (o : Order) (ob : OrderBook) → 0 < listed o.order_id (own_levels o (add_order o ob))
listed_once o ob = rw (listed-add_order o.order_id o ob, same_self o.order_id) (omega arith)

module _ {P : Type 0} where
  market_id-book_or_new :
      (id : String) (s : State P) → IsNamed s.order_books → (book_or_new id s).market_id ≡ id
  market_id-book_or_new id s h = elim (Option-cases (lookup id s.order_books)) [
    | inl e ↦ rw (e, book_or_new) (market_id-new id)
    | inr (b, e) ↦ rw (e, book_or_new) (h id b e)
  ]

  -- The book of its market lists the order on its side.
  abbrev pub Rests : Matched P → Type 0
  Rests m =
      (ob : OrderBook) × (get_order_book m.order.market_id m.store ≡ some ob)
      × (0 < listed m.order.order_id (own_levels m.order ob))

  -- Nothing is left of the order or it is not a limit order, or it rests.
  abbrev pub RestsIfLeft : Matched P → Type 0
  RestsIfLeft m =
      ((is_positive m.result.remaining_qty && is_limit m.order.order_type) ≡ false) ⊎ Rests m

module _ {P : Type 0} (env : Env P) where
  place_rest_limit :
      (m : Matched P)
      → (is_positive m.result.remaining_qty && is_limit m.order.order_type) ≡ true
      → place_rest env m ≡ record m {
        store =
            set_order m.order
              (set_order_book (add_order m.order (book_or_new m.order.market_id m.store)) m.store);
      }
  unfolding place_rest
  place_rest_limit m e = rw e refl

  -- Where nothing rests, nothing of it is left on the result or the order is no limit order.
  place_rest-rest :
      (m : Matched P)
      → (is_positive m.result.remaining_qty && is_limit m.order.order_type) ≡ false
      → (is_positive (place_rest env m).result.remaining_qty
          && is_limit (place_rest env m).order.order_type)
        ≡ false
  unfolding place_rest cancel
  place_rest-rest m e = elim (Bool-cases (is_active m.order && is_market m.order.order_type)) [
    | inl a ↦ rw (e, a) e
    | inr a ↦ rw (e, a) e
  ]

  place_rest-RestsIfLeft :
      (m : Matched P)
      → IsNamed m.store.order_books
      → RestsIfLeft (save_taker env (place_rest env m))
  unfolding save_taker
  place_rest-RestsIfLeft m named =
      elim (Bool-cases (is_positive m.result.remaining_qty && is_limit m.order.order_type)) [
        | inl e ↦
            let b = book_or_new m.order.market_id m.store in
            let ob = add_order m.order b in
            let own : ob.market_id ≡ m.order.market_id =
              market_id-add_order m.order b
              ∙ market_id-book_or_new m.order.market_id m.store named in
            rw (place_rest_limit m e) (
              inr (
                ob,
                subst (λ k. lookup k (insert ob.market_id ob m.store.order_books) ≡ some ob) own
                    (lookup-insert_self ob.market_id ob m.store.order_books),
                listed_once m.order b,
              ))
        | inr e ↦ inl (place_rest-rest m e)
      ]

  pub process_order_rests :
      (o : Order) (s : State P)
      → IsOpen o
      → IsSound s.orders
      → IsNamed s.order_books
      → HasMarket env o
      → (m : Matched P) × (process_order env o s ≡ done m) × IsPlaced o m × RestsIfLeft m
  unfolding process_order
  process_order_rests o s h sound named known =
      let (m, run, matched, (ob, own, books)) = match_restores env o s h sound known in
      let named' : IsNamed m.store.order_books =
        subst IsNamed (sym books) (insert-IsNamed ob s.order_books named) in
      (
        save_taker env (place_rest env m),
        rw run,
        place_rest-IsPlaced env o m matched,
        place_rest-RestsIfLeft m named',
      )
