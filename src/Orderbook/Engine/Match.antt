-- ===== src/Orderbook/Engine/Match.antt =====
-- `Match` as a whole: it ends, it fills what it says, and it trades at no price that the taker
-- does not accept.
use perp_dex.Base.{◌≡◌, refl, ◌∙◌, ap, List, All, arith}
use perp_dex.Base.Dict.{insert}
use perp_dex.Base.Int.{◌+ℤ◌, int_laws}
use perp_dex.Orderbook.Types.{Order, remaining_qty, cancel}
use perp_dex.Orderbook.Types.Fill.{SameTerms, SameTerms-refl}
use perp_dex.Orderbook.Store.{Env, State}
use perp_dex.Base.Outcome.{done}
use perp_dex.Orderbook.Matching.{Run}
use perp_dex.Orderbook.Book.{OrderBook}
use perp_dex.Orderbook.Level.{PriceLevel}
use perp_dex.Orderbook.Matching.Invariant.{IsOpen, IsSound, Inv, IsFair, sum_qty}
use perp_dex.Orderbook.Matching.Loops.{HasMarket, match_levels-Keeps}
use perp_dex.Orderbook.Engine.{
  cleanup_order_book, set_opposite_levels, Matched, start_run, finish, match, book_or_new,
  opposite_levels,
}

-- What `Match` promises of an order and of what it leaves.
pub record Matches {P : Type 0} (o : Order) (m : Matched P) : Type 0 where
  pub terms : SameTerms o m.order
  pub still_open : IsOpen m.order
  pub remaining_eq : m.result.remaining_qty ≡ remaining_qty m.order
  pub filled_eq : m.order.filled_qty ≡ o.filled_qty +ℤ m.result.filled_qty
  pub conserved : m.result.filled_qty +ℤ m.result.remaining_qty ≡ remaining_qty o
  pub traded_eq : sum_qty m.result.trades ≡ m.result.filled_qty
  pub fair : All (IsFair o) m.result.trades
  pub sound : IsSound m.store.orders

market_id-set_opposite :
    (o : Order) (ls : List PriceLevel) (ob : OrderBook)
    → (cleanup_order_book (set_opposite_levels o ls ob)).market_id ≡ ob.market_id
unfolding cleanup_order_book set_opposite_levels
market_id-set_opposite o ls ob = ground arith

start_run-books :
    {P : Type 0} (env : Env P) (o : Order) (s : State P)
    → (start_run env o s).store.order_books ≡ s.order_books
unfolding start_run
start_run-books env o s = refl

module _ {P : Type 0} (env : Env P) (o : Order) (s : State P) where
  pub start_run-Inv : IsOpen o → IsSound s.orders → Inv o (start_run env o s)
  unfolding start_run sum_qty
  start_run-Inv h sound = record {
    terms = SameTerms-refl o;
    taker_open = h;
    remaining_eq = refl;
    filled_eq = omega int_laws;
    traded_eq = refl;
    fair = tt;
    sound = sound;
  }

  finish-Matches :
      (ob : OrderBook) (r : List PriceLevel × Run P) → Inv o r.1 → Matches o (finish env ob r)
  unfolding finish
  finish-Matches ob r v = record {
    terms = v.terms;
    still_open = v.taker_open;
    remaining_eq = v.remaining_eq;
    filled_eq = v.filled_eq;
    conserved = rw (v.remaining_eq, v.filled_eq, v.terms.same_quantity) (omega int_laws);
    traded_eq = v.traded_eq;
    fair = v.fair;
    sound = v.sound;
  }

  -- `Match` leaves the books but for the one it matched against, which keeps its market.
  abbrev pub RestoresBook : Matched P → Type 0
  RestoresBook m =
      (ob : OrderBook) × (ob.market_id ≡ (book_or_new o.market_id s).market_id)
      × (m.store.order_books ≡ insert ob.market_id ob s.order_books)

  finish-RestoresBook :
      (r : List PriceLevel × Run P)
      → r.1.store.order_books ≡ s.order_books
      → RestoresBook (finish env (book_or_new o.market_id s) r)
  unfolding finish cleanup_order_book set_opposite_levels
  finish-RestoresBook (ls, r) e =
      let ob = cleanup_order_book (set_opposite_levels r.taker ls (book_or_new o.market_id s)) in
      (
        ob,
        market_id-set_opposite r.taker ls (book_or_new o.market_id s),
        ap (insert ob.market_id ob) e,
      )

  pub match_restores :
      IsOpen o
      → IsSound s.orders
      → HasMarket env o
      → (m : Matched P) × (match env o s ≡ done m) × Matches o m × RestoresBook m
  unfolding match
  match_restores h sound known =
      let ob = book_or_new o.market_id s in
      let (r, run, v, books) =
        match_levels-Keeps env o (opposite_levels o ob) (start_run env o s) known
          (start_run-Inv h sound) in
      (
        finish env ob r,
        rw run,
        finish-Matches ob r v,
        finish-RestoresBook r (books ∙ start_run-books env o s),
      )

  -- On a store whose orders are well formed, and where the market of a well-formed order is known,
  -- `Match` neither fails nor panics. The quantity that it reports as filled is what the order
  -- gained and what the trades add up to; with what it reports as remaining it makes up what
  -- remained before. Every trade is by a positive quantity at a price that the order accepts,
  -- and the stored orders stay well formed.
  pub match_total :
      IsOpen o
      → IsSound s.orders
      → HasMarket env o
      → (m : Matched P) × (match env o s ≡ done m) × Matches o m
  match_total h sound known =
      let (m, run, matched, _) = match_restores h sound known in (m, run, matched)

cancel-IsOpen : (o : Order) → IsOpen o → IsOpen (cancel o)
unfolding cancel
cancel-IsOpen o h = record {
  well_formed = record {
    filled_nonneg = h.well_formed.filled_nonneg;
    filled_le = h.well_formed.filled_le;
  };
  unfilled = λ e. cc;
}

SameTerms-cancel : (o p : Order) → SameTerms o p → SameTerms o (cancel p)
unfolding cancel
SameTerms-cancel o p h = record {
  same_id = h.same_id;
  same_trader = h.same_trader;
  same_market = h.same_market;
  same_side = h.same_side;
  same_type = h.same_type;
  same_price = h.same_price;
  same_quantity = h.same_quantity;
}

pub Matches-store :
    {P : Type 0} (o : Order) (m : Matched P) (s : State P)
    → Matches o m
    → IsSound s.orders
    → Matches o (record m { store = s })
Matches-store o m s h sound = record {
  terms = h.terms;
  still_open = h.still_open;
  remaining_eq = h.remaining_eq;
  filled_eq = h.filled_eq;
  conserved = h.conserved;
  traded_eq = h.traded_eq;
  fair = h.fair;
  sound = sound;
}

pub Matches-cancel :
    {P : Type 0} (o : Order) (m : Matched P)
    → Matches o m
    → Matches o (record m { order = cancel m.order })
unfolding cancel
Matches-cancel o m h = record {
  terms = SameTerms-cancel o m.order h.terms;
  still_open = cancel-IsOpen m.order h.still_open;
  remaining_eq = h.remaining_eq;
  filled_eq = h.filled_eq;
  conserved = h.conserved;
  traded_eq = h.traded_eq;
  fair = h.fair;
  sound = h.sound;
}
