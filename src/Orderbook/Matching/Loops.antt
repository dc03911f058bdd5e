-- ===== src/Orderbook/Matching/Loops.antt =====
-- The loops of `Match` end, and keep the invariant, on a store whose orders are well formed.
use perp_dex.Base.{
  ℕ, zero, suc, ◌≡◌, refl, ◌∙◌, sym, true, false, String, List, [], ◌∷◌, some, arith, Bool-cases,
  Option-cases, inl, inr, get_elem?, length,
}
use perp_dex.Base.Int.{◌≤ℤ◌, ◌<ℤ◌, int_laws, -ℤ_parts}
use perp_dex.Base.Dict.{lookup}
use perp_dex.Decimal.{
  LegacyDec, zero_dec, is_zero, min_dec, min_dec_pos, min_dec_le_left, min_dec_le_right,
}
use perp_dex.Orderbook.Result.{ok}
use perp_dex.Orderbook.Types.{Order, is_active, remaining_qty, filled_by, fill}
use perp_dex.Orderbook.Types.Fill.{fill_within}
use perp_dex.Orderbook.Level.{PriceLevel}
use perp_dex.Orderbook.Store.{State, Env, Market, Trade}
use perp_dex.Base.Outcome.{Outcome, done, ◌>>=◌}
use perp_dex.Orderbook.Matching.{
  Run, array, is_price_compatible, next_trade, settle, trade_with, match_order, match_cells,
  match_levels, at_level, level_of,
}
use perp_dex.Orderbook.Matching.Invariant.{IsOpen, Inv, settle-Inv, is_price_compatible-SameTerms}

module _ {P : Type 0} (env : Env P) (o : Order) where
  -- Every market that the taker may name has an entry in the perpetual module.
  abbrev pub HasMarket : Type 0
  HasMarket = (perp : P) → (m : Market) × (env.get_market perp o.market_id ≡ some m)

  -- A turn of the loop ends, keeps the invariant, and stays at the level; the books are not its
  -- business.
  abbrev pub Keeps : Run P → Outcome (State P) (Run P) → Type 0
  Keeps s r =
      (s' : Run P) × (r ≡ done s')
      × Inv o s'
      × (s'.price ≡ s.price)
      × (s'.store.order_books ≡ s.store.order_books)

  -- The quantity that the taker and a maker trade.
  abbrev pub match_qty : Run P → Order → LegacyDec
  match_qty s maker = min_dec s.result.remaining_qty (remaining_qty maker)

  trade_with_lem :
      (id : String) (s : Run P) (maker : Order) (market : Market)
      → env.get_market s.store.perp s.taker.market_id ≡ some market
      → fill (match_qty s maker) s.taker ≡ ok (filled_by (match_qty s maker) s.taker)
      → fill (match_qty s maker) maker ≡ ok (filled_by (match_qty s maker) maker)
      → trade_with env id maker s
        ≡ done (
            settle env id s
              (filled_by (match_qty s maker) s.taker)
              (filled_by (match_qty s maker) maker)
              (next_trade env s maker (match_qty s maker) market))
  unfolding trade_with
  trade_with_lem id s maker market e ht hm = rw (e, ht, hm, ◌>>=◌)

  positive_left :
      (s : Run P)
      → Inv o s
      → is_zero s.result.remaining_qty ≡ false
      → zero_dec <ℤ s.result.remaining_qty
  positive_left s v left =
      ground (arith, v.remaining_eq, -ℤ_parts s.taker.quantity s.taker.filled_qty)

  settle-price :
      (id : String) (s : Run P) (t m : Order) (trade : Trade)
      → ((settle env id s t m trade).price ≡ s.price)
        × ((settle env id s t m trade).store.order_books ≡ s.store.order_books)
  unfolding settle
  settle-price id s t m trade = (refl, refl)

  -- What stands after a turn at an active maker.
  abbrev pub after_trade : String → Run P → Order → Market → Run P
  after_trade id s maker market =
      settle env id s (filled_by (match_qty s maker) s.taker) (filled_by (match_qty s maker) maker)
        (next_trade env s maker (match_qty s maker) market)

  trade_with_settles :
      (id : String) (s : Run P) (maker : Order)
      → HasMarket
      → Inv o s
      → IsOpen maker
      → is_active maker ≡ true
      → is_price_compatible o s.price ≡ true
      → is_zero s.result.remaining_qty ≡ false
      → (market : Market) × (trade_with env id maker s ≡ done (after_trade id s maker market))
        × Inv o (after_trade id s maker market)
  trade_with_settles id s maker known v open_maker active fits left =
      let q = match_qty s maker in
      let (market, e) = known s.store.perp in
      let p : zero_dec <ℤ q =
        min_dec_pos s.result.remaining_qty (remaining_qty maker) (positive_left s v left)
          (omega (int_laws, open_maker.unfilled active)) in
      let ht : q ≤ℤ remaining_qty s.taker =
        rw (← v.remaining_eq) (min_dec_le_left s.result.remaining_qty (remaining_qty maker)) in
      let hm = min_dec_le_right s.result.remaining_qty (remaining_qty maker) in
      (
        market,
        trade_with_lem id s maker market (rw (v.terms.same_market) e) (fill_within q s.taker ht)
            (fill_within q maker hm),
        settle-Inv env o id s maker q market v open_maker fits p ht hm,
      )

  -- A turn at a stored maker that is active, while the taker has something left.
  pub match_order_settles :
      (id : String) (s : Run P) (maker : Order)
      → HasMarket
      → Inv o s
      → lookup id s.store.orders ≡ some maker
      → is_active maker ≡ true
      → is_price_compatible o s.price ≡ true
      → is_zero s.result.remaining_qty ≡ false
      → (market : Market) × (match_order env id s ≡ done (after_trade id s maker market))
        × Inv o (after_trade id s maker market)
  unfolding match_order
  match_order_settles id s maker known v e active fits left =
      let (market, run, v') =
        trade_with_settles id s maker known v (v.sound id maker e) active fits left in
      (market, rw (e, match_order) (rw active run), v')

  pub match_order_idle :
      (id : String) (s : Run P) (maker : Order)
      → lookup id s.store.orders ≡ some maker
      → is_active maker ≡ false
      → match_order env id s ≡ done s
  unfolding match_order
  match_order_idle id s maker e idle = rw (e, match_order) (rw idle)

  match_order-Keeps :
      (id : String) (s : Run P)
      → HasMarket
      → Inv o s
      → is_price_compatible o s.price ≡ true
      → is_zero s.result.remaining_qty ≡ false
      → Keeps s (match_order env id s)
  unfolding match_order
  match_order-Keeps id s known v fits left = elim (Option-cases (lookup id s.store.orders)) [
    | inl e ↦ (s, rw (e, match_order), v, refl, refl)
    | inr (maker, e) ↦ elim (Bool-cases (is_active maker)) [
      | inl active ↦
          let (market, run, v') = match_order_settles id s maker known v e active fits left in
          let kept = settle-price id s _ _ _ in
          (after_trade id s maker market, run, v', kept.0, kept.1)
      | inr idle ↦ (s, match_order_idle id s maker e idle, v, refl, refl)
    ]
  ]

  pub at_level-Inv : (l : PriceLevel) (s : Run P) → Inv o s → Inv o (at_level env l s)
  at_level-Inv l s v = record {
    terms = v.terms;
    taker_open = v.taker_open;
    remaining_eq = v.remaining_eq;
    filled_eq = v.filled_eq;
    traded_eq = v.traded_eq;
    fair = v.fair;
    sound = v.sound;
  }

  -- The loop over a level's orders ends and keeps the invariant.
  pub match_cells-Keeps :
      (k i : ℕ) (s : Run P)
      → HasMarket
      → Inv o s
      → is_price_compatible o s.price ≡ true
      → Keeps s (match_cells env k i s)
  unfolding match_cells
  match_cells-Keeps zero i s known v fits = (s, refl, v, refl, refl)
  match_cells-Keeps (suc k) i s known v fits = elim (Bool-cases (is_zero s.result.remaining_qty)) [
    | inl none_left ↦ (s, rw (none_left, match_cells), v, refl, refl)
    | inr left ↦ elim (Option-cases (get_elem? (array s.cells) i)) [
      | inl e ↦ (s, rw (left, match_cells) (rw e), v, refl, refl)
      | inr (id, e) ↦
          let (s', run, v', same, books) = match_order-Keeps id s known v fits left in
          let (s'', run', v'', same', books') =
            match_cells-Keeps k (suc i) s' known v' (rw same fits) in
          (s'', rw (left, match_cells) (rw e (rw run run')), v'', same' ∙ same, books' ∙ books)
    ]
  ]

  -- The loop over the levels ends and keeps the invariant.
  pub match_levels-Keeps :
      (ls : List PriceLevel) (s : Run P)
      → HasMarket
      → Inv o s
      → (r : List PriceLevel × Run P) × (match_levels env ls s ≡ done r)
        × Inv o r.1
        × (r.1.store.order_books ≡ s.store.order_books)
  unfolding match_levels
  match_levels-Keeps [] s known v = (([], s), refl, v, refl)
  match_levels-Keeps (l ∷ ls) s known v = elim (Bool-cases (is_zero s.result.remaining_qty)) [
    | inl none_left ↦ ((l ∷ ls, s), rw (none_left, match_levels), v, refl)
    | inr left ↦ elim (Bool-cases (is_price_compatible s.taker l.price)) [
      | inr unfit ↦ ((l ∷ ls, s), rw (left, match_levels) (rw unfit), v, refl)
      | inl fits ↦
          let (s', run, v', _, books) =
            match_cells-Keeps (length l.order_ids) 0 (at_level env l s) known (at_level-Inv l s v)
              (sym (is_price_compatible-SameTerms o s.taker l.price v.terms) ∙ fits) in
          let (r, run', v'', books') = match_levels-Keeps ls s' known v' in
          (
            (level_of env s' ∷ r.0, r.1),
            rw (left, match_levels) (rw fits (rw run (rw run' refl))),
            v'',
            books' ∙ books,
          )
    ]
  ]
