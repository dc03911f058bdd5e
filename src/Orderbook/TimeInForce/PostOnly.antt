-- ===== src/Orderbook/TimeInForce/PostOnly.antt =====
-- What `CheckPostOnly` promises of the match that follows it.
use perp_dex.Base.{
  ◌≡◌, refl, true, false, String, [], ◌∷◌, List, arith, if◌then◌else◌, inl, inr, Bool-cases,
  Option-cases,
}
use perp_dex.Base.Outcome.{done}
use perp_dex.Decimal.{zero_dec, gte, lte}
use perp_dex.Orderbook.Types.{Order, is_buy, is_market, remaining_qty}
use perp_dex.Orderbook.Level.{PriceLevel}
use perp_dex.Orderbook.Book.{OrderBook, new_order_book, first_level, best_bid, best_ask}
use perp_dex.Orderbook.Store.{Env, State, get_order_book}
use perp_dex.Orderbook.Matching.{match_levels, is_price_compatible}
use perp_dex.Orderbook.Engine.{Matched, match, start_run, finish, book_or_new, opposite_levels}
use perp_dex.Orderbook.TimeInForce.{takes, check_post_only}

module _ {P : Type 0} (env : Env P) (o : Order) where
  -- The best level of a list is not at a price that the order takes.
  abbrev FirstRefused : List PriceLevel → Type 0
  FirstRefused [] = Unit
  FirstRefused (l ∷ ls) = is_price_compatible o l.price ≡ false

  match_levels_refused :
      (ls : List PriceLevel) (s : State P)
      → FirstRefused ls
      → match_levels env ls (start_run env o s) ≡ done (ls, start_run env o s)
  unfolding match_levels start_run
  match_levels_refused [] s h = refl
  match_levels_refused (l ∷ ls) s h = ground arith

  asks_refused :
      (ls : List PriceLevel)
      → is_market o.order_type ≡ false
      → is_buy o.side ≡ true
      → takes (λ o l. gte o.price l.price) o (first_level ls) ≡ false
      → FirstRefused ls
  unfolding is_price_compatible
  asks_refused [] h e c = tt
  asks_refused (l ∷ ls) h e c = rw (h, e) c

  bids_refused :
      (ls : List PriceLevel)
      → is_market o.order_type ≡ false
      → is_buy o.side ≡ false
      → takes (λ o l. lte o.price l.price) o (first_level ls) ≡ false
      → FirstRefused ls
  unfolding is_price_compatible
  bids_refused [] h e c = tt
  bids_refused (l ∷ ls) h e c = rw (h, e) c

  -- The test of `CheckPostOnly` on a book.
  book-FirstRefused :
      (ob : OrderBook)
      → is_market o.order_type ≡ false
      → (if is_buy o.side
          then takes (λ o l. gte o.price l.price) o (best_ask ob)
          else takes (λ o l. lte o.price l.price) o (best_bid ob))
        ≡ false
      → FirstRefused (opposite_levels o ob)
  unfolding opposite_levels
  book-FirstRefused ob h c = elim (Bool-cases (is_buy o.side)) [
    | inl e ↦ rw e (asks_refused ob.asks h e (cc))
    | inr e ↦ rw e (bids_refused ob.bids h e (cc))
  ]

  new_book-FirstRefused : (id : String) → FirstRefused (opposite_levels o (new_order_book id))
  unfolding opposite_levels new_order_book
  new_book-FirstRefused id = elim (Bool-cases (is_buy o.side)) [ inl e ↦ rw e tt | inr e ↦ rw e tt ]

  check_post_only-FirstRefused :
      (s : State P)
      → is_market o.order_type ≡ false
      → check_post_only o s ≡ false
      → FirstRefused (opposite_levels o (book_or_new o.market_id s))
  unfolding check_post_only
  check_post_only-FirstRefused s h c = elim (Option-cases (get_order_book o.market_id s)) [
    | inl e ↦ rw (e, book_or_new) (new_book-FirstRefused o.market_id)
    | inr (ob, e) ↦ rw (e, book_or_new) (book-FirstRefused ob h (rw (e, check_post_only) at c))
  ]

  -- Where `CheckPostOnly` finds that an order which is not a market order would not take, `Match`
  -- ends with no trade, nothing filled, all of the order's remaining quantity left, and the order
  -- as it was.
  pub check_post_only-match :
      (s : State P)
      → is_market o.order_type ≡ false
      → check_post_only o s ≡ false
      → (m : Matched P) × (match env o s ≡ done m)
        × (m.result.trades ≡ [])
        × (m.result.filled_qty ≡ zero_dec)
        × (m.result.remaining_qty ≡ remaining_qty o)
        × (m.order ≡ o)
  unfolding match finish start_run
  check_post_only-match s h c =
      let ob = book_or_new o.market_id s in
      let ls = opposite_levels o ob in
      (
        finish env ob (ls, start_run env o s),
        rw (match_levels_refused ls s (check_post_only-FirstRefused s h c)) refl,
        refl,
        refl,
        refl,
        refl,
      )
