-- ===== src/Orderbook/Engine/Process.antt =====
-- `ProcessOrder` and the end blocker: they end, and keep the stored orders well formed.
use perp_dex.Base.{
  ◌≡◌, refl, ◌∙◌, ap, subst, true, false, ◌&&◌, String, List, [], ◌∷◌, some, All, arith, Bool-cases,
  inl, inr,
}
use perp_dex.Base.Dict.{Dict, lookup, insert, lookup-insert_self}
use perp_dex.Decimal.{is_positive}
use perp_dex.Orderbook.Types.{OrderType, Order, is_limit, is_market, is_active, cancel}
use perp_dex.Orderbook.Book.{add_order}
use perp_dex.Orderbook.Store.{
  Env, State, Trade, set_order, set_order_book, set_trade, active_orders, get_all_pending_orders,
}
use perp_dex.Base.Outcome.{Outcome, done}
use perp_dex.Orderbook.Matching.Invariant.{IsOpen, IsSound, insert-IsSound}
use perp_dex.Orderbook.Matching.Loops.{HasMarket}
use perp_dex.Orderbook.Engine.{
  Matched, book_or_new, place_rest, save_taker, process_order, process_all, save_trades,
  after_process, sequential_end_blocker,
}
use perp_dex.Orderbook.Engine.Match.{Matches, Matches-store, Matches-cancel, match_total}

limit-not-market : (t : OrderType) → is_limit t ≡ true → ¬ (is_market t ≡ true)
limit-not-market OrderType.limit e e' = cc
limit-not-market _ e e' = cc

cancelled_idle : (o : Order) → is_active (cancel o) ≡ false
unfolding cancel
cancelled_idle o = refl

cancel_id : (o : Order) → (cancel o).order_id ≡ o.order_id
unfolding cancel
cancel_id o = refl

-- The order that is returned has the terms of `o`, and with the result what `Match` promises of
-- them; it is saved under its ID, and nothing of a market order is active.
pub record IsPlaced {P : Type 0} (o : Order) (m : Matched P) : Type 0 where
  pub matched : Matches o m
  pub saved : lookup o.order_id m.store.orders ≡ some m.order
  pub market_done : is_market o.order_type ≡ true → is_active m.order ≡ false

module _ {P : Type 0} (env : Env P) where
  place_rest_cases {ℓ} :
      (Q : Matched P → Type ℓ) (m : Matched P)
      → (is_limit m.order.order_type ≡ true
          → Q (record m {
            store = set_order m.order (
                set_order_book (add_order m.order (book_or_new m.order.market_id m.store)) m.store);
          }))
      → Q (record m { order = cancel m.order })
      → ((is_market m.order.order_type ≡ true → is_active m.order ≡ false) → Q m)
      → Q (place_rest env m)
  unfolding place_rest
  place_rest_cases Q m rests cancels stays =
      elim (Bool-cases (is_positive m.result.remaining_qty && is_limit m.order.order_type)) [
        | inl e ↦ rw e (rests (ground arith))
        | inr e ↦ rw e (elim (Bool-cases (is_active m.order && is_market m.order.order_type)) [
          | inl e' ↦ rw e' cancels
          | inr e' ↦ rw e' (stays (ground arith))
        ])
      ]

  save_taker-IsPlaced :
      (o : Order) (m : Matched P)
      → Matches o m
      → (is_market m.order.order_type ≡ true → is_active m.order ≡ false)
      → IsPlaced o (save_taker env m)
  unfolding save_taker
  save_taker-IsPlaced o m h ends = record {
    matched =
        Matches-store o m (set_order m.order m.store) h
          (insert-IsSound m.order.order_id m.order m.store.orders h.sound h.still_open);
    saved =
        subst (λ k. lookup k (insert m.order.order_id m.order m.store.orders) ≡ some m.order)
          h.terms.same_id (lookup-insert_self m.order.order_id m.order m.store.orders);
    market_done = λ e. ends (ap is_market h.terms.same_type ∙ e);
  }

  pub place_rest-IsPlaced :
      (o : Order) (m : Matched P) → Matches o m → IsPlaced o (save_taker env (place_rest env m))
  place_rest-IsPlaced o m h =
      place_rest_cases (λ m'. IsPlaced o (save_taker env m')) m
        (λ lim.
          save_taker-IsPlaced o _
            (Matches-store o m _ h
              (insert-IsSound m.order.order_id m.order m.store.orders h.sound h.still_open))
            (λ mar. absurd (limit-not-market m.order.order_type lim mar)))
        (save_taker-IsPlaced o _ (Matches-cancel o m h) (λ _. cancelled_idle m.order))
        (λ idle. save_taker-IsPlaced o m h idle)

  -- `ProcessOrder` of a well-formed order, on a well-formed store where the order's market is known,
  -- ends without an error or a panic. It keeps the terms of the order, fills it by exactly what its
  -- trades add up to, each at a price that the order accepts, and saves the order that it returns
  -- under the ID that it had; a market order is not active after it, and the stored orders stay
  -- well formed.
  pub process_order_total :
      (o : Order) (s : State P)
      → IsOpen o
      → IsSound s.orders
      → HasMarket env o
      → (m : Matched P) × (process_order env o s ≡ done m) × IsPlaced o m
  unfolding process_order
  process_order_total o s h sound known =
      let (m, run, matched) = match_total env o s h sound known in
      (save_taker env (place_rest env m), rw run, place_rest-IsPlaced o m matched)

  save_trades-orders : (ts : List Trade) (s : State P) → (save_trades env ts s).orders ≡ s.orders
  unfolding save_trades
  save_trades-orders [] s = refl
  save_trades-orders (t ∷ ts) s = save_trades-orders ts (set_trade t s)

  -- The turns of the end blocker: each order in turn is processed without an error on the store that
  -- the turn before it has left, and its trades are saved.
  pub data Turns : List Order → State P → State P → Type 0 where
    ended : {s : State P} → Turns [] s s
    turn :
        {o : Order} {os : List Order} {s s' : State P} (m : Matched P)
        → process_order env o s ≡ done m
        → IsPlaced o m
        → Turns os (save_trades env m.result.trades m.store) s'
        → Turns (o ∷ os) s s'

  -- It ends in a well-formed store, after a turn of each order.
  abbrev pub EndsAfter : List Order → State P → Outcome (State P) (State P) → Type 0
  EndsAfter os s r = (s' : State P) × (r ≡ done s') × IsSound s'.orders × Turns os s s'

  process_all_sound :
      (os : List Order) (s : State P)
      → All IsOpen os
      → All (λ o. is_active o ≡ true) os
      → All (HasMarket env) os
      → IsSound s.orders
      → EndsAfter os s (process_all env os s)
  unfolding process_all after_process
  process_all_sound [] s hs actives ks sound = (s, refl, sound, ended)
  process_all_sound (o ∷ os) s (h, hs) (active, actives) (known, ks) sound =
      let (m, run, placed) = process_order_total o s h sound known in
      let next = save_trades env m.result.trades m.store in
      let sound' : IsSound next.orders =
        rw (save_trades-orders m.result.trades m.store) placed.matched.sound in
      let (s', run', sound'', turns) = process_all_sound os next hs actives ks sound' in
      (s', rw (active, process_all) (rw run run'), sound'', turn m run placed turns)

  -- The entries of a dictionary can be looked up in it: so it is for what the iterator of a store
  -- gives.
  abbrev pub WalksEntries : Type 0
  WalksEntries = (d : Dict Order) → All (λ e. lookup e.0 d ≡ some e.1) (env.walk d)

  -- Every stored order is in a market that the perpetual module knows.
  abbrev pub KnowsMarkets : Dict Order → Type 0
  KnowsMarkets d = (k : String) (o : Order) → lookup k d ≡ some o → HasMarket env o

  -- What holds of all orders of a store holds of the active ones that the iterator gives.
  active_orders-All :
      (Q : Order → Type 0) (d es : Dict Order)
      → ((k : String) (o : Order) → lookup k d ≡ some o → Q o)
      → All (λ e. lookup e.0 d ≡ some e.1) es
      → All Q (active_orders es)
  unfolding active_orders
  active_orders-All Q d [] all hs = tt
  active_orders-All Q d ((k, o) ∷ es) all (h, hs) = elim (Bool-cases (is_active o)) [
    | inl e ↦ rw e (all k o h, active_orders-All Q d es all hs)
    | inr e ↦ rw e (active_orders-All Q d es all hs)
  ]

  active_orders-active : (es : Dict Order) → All (λ o. is_active o ≡ true) (active_orders es)
  unfolding active_orders
  active_orders-active [] = tt
  active_orders-active ((k, o) ∷ es) = elim (Bool-cases (is_active o)) [
    | inl e ↦ rw e (e, active_orders-active es)
    | inr e ↦ rw e (active_orders-active es)
  ]

  -- On a well-formed store in which the market of every order is known, and where the iterator
  -- gives entries of the store, the end blocker ends without an error or a panic: it processes every
  -- pending order in turn, on the store that the turn before it has left, saves the trades of each,
  -- and leaves a store whose orders are well formed.
  pub sequential_end_blocker_total :
      (s : State P)
      → IsSound s.orders
      → KnowsMarkets s.orders
      → WalksEntries
      → EndsAfter (get_all_pending_orders env s) s (sequential_end_blocker env s)
  unfolding sequential_end_blocker
  sequential_end_blocker_total s sound known walks =
      let es = env.walk s.orders in
      process_all_sound (active_orders es) s
        (active_orders-All IsOpen s.orders es sound (walks s.orders)) (active_orders-active es)
        (active_orders-All (HasMarket env) s.orders es known (walks s.orders)) sound
