-- ===== src/Orderbook/Matching/Turns.antt =====
-- Single turns of the loop over a level's orders, and what a trade leaves of the run.
use perp_dex.Base.{
  ℕ, suc, zero, ◌≡◌, refl, true, false, String, List, [], ◌∷◌, ◌++◌, map, some, arith, same,
  same_self, if◌then◌else◌, get_elem?,
}
use mathlib.Core.List.{map-append}
use perp_dex.Base.Int.{◌<ℤ◌, ◌-ℤ◌, -ℤ_parts, +ℤ_parts}
use perp_dex.Base.Dict.{insert}
use perp_dex.Decimal.{LegacyDec, zero_dec, is_zero, min_dec}
use perp_dex.Orderbook.Types.{Order, is_active, is_filled, remaining_qty, filled_by}
use perp_dex.Orderbook.Types.Fill.{IsWellFormed, filled_by-is_active}
use perp_dex.Orderbook.Store.{Env, Market, Trade, new_trade}
use perp_dex.Base.Outcome.{done}
use perp_dex.Orderbook.Matching.{
  Run, array, remove_cell, next_trade, settle, match_order, match_cells,
}
use perp_dex.Orderbook.Matching.Loops.{after_trade}

module _ {P : Type 0} (env : Env P) (o : Order) where
  abbrev pub makers : Run P → List String
  makers s = map (λ (t : Trade). t.maker_order_id) s.result.trades

  pub after_trade-cells :
      (id : String) (s : Run P) (m : Order) (k : Market)
      → (after_trade env o id s m k).cells ≡ (
          if is_filled (filled_by (min_dec s.result.remaining_qty (remaining_qty m)) m)
          then remove_cell id s.cells
          else s.cells)
  unfolding settle
  after_trade-cells id s m k = refl

  pub after_trade-orders :
      (id : String) (s : Run P) (m : Order) (k : Market)
      → (after_trade env o id s m k).store.orders
        ≡ insert m.order_id
            (filled_by (min_dec s.result.remaining_qty (remaining_qty m)) m)
            s.store.orders
  unfolding settle filled_by
  after_trade-orders id s m k = refl

  pub after_trade-remaining :
      (id : String) (s : Run P) (m : Order) (k : Market)
      → (after_trade env o id s m k).result.remaining_qty
        ≡ s.result.remaining_qty -ℤ min_dec s.result.remaining_qty (remaining_qty m)
  unfolding settle next_trade new_trade
  after_trade-remaining id s m k = refl

  pub after_trade-price :
      (id : String) (s : Run P) (m : Order) (k : Market)
      → (after_trade env o id s m k).price ≡ s.price
  unfolding settle
  after_trade-price id s m k = refl

  pub after_trade-makers :
      (id : String) (s : Run P) (m : Order) (k : Market)
      → makers (after_trade env o id s m k) ≡ makers s ++ m.order_id ∷ []
  unfolding settle next_trade new_trade
  after_trade-makers id s m k = map-append (λ (t : Trade). t.maker_order_id) s.result.trades _

  pub match_cells_turn :
      (k i : ℕ) (id : String) (s s' : Run P)
      → is_zero s.result.remaining_qty ≡ false
      → get_elem? (array s.cells) i ≡ some id
      → match_order env id s ≡ done s'
      → match_cells env (suc k) i s ≡ match_cells env k (suc i) s'
  unfolding match_cells
  match_cells_turn k i id s s' left e run = rw (left, match_cells) (rw e (rw run))

  pub match_cells_stop :
      (k i : ℕ) (s : Run P)
      → is_zero s.result.remaining_qty ≡ true
      → match_cells env (suc k) i s ≡ done s
  unfolding match_cells
  match_cells_stop k i s e = rw (e, match_cells)

  pub match_cells_end : (i : ℕ) (s : Run P) → match_cells env zero i s ≡ done s
  unfolding match_cells
  match_cells_end i s = refl

-- The cells after the first of three IDs has been removed, and after the third has been too.
pub remove_cell_first :
    (a b c : String)
    → remove_cell a (record { ids = a ∷ b ∷ c ∷ []; behind = [] })
      ≡ record { ids = b ∷ c ∷ []; behind = c ∷ [] }
unfolding remove_cell
remove_cell_first a b c = rw (same_self a)

pub remove_cell_third :
    (b c : String)
    → same b c ≡ false
    → remove_cell c (record { ids = b ∷ c ∷ []; behind = c ∷ [] })
      ≡ record { ids = b ∷ []; behind = c ∷ c ∷ [] }
unfolding remove_cell
remove_cell_third b c e = rw (e, same_self c)

pub filled_up : (m : Order) → is_filled (filled_by (remaining_qty m) m) ≡ true
unfolding filled_by
filled_up m =
    ground (arith, +ℤ_parts m.filled_qty (remaining_qty m), -ℤ_parts m.quantity m.filled_qty)

pub min_dec_of_left_over : (a b : LegacyDec) → is_zero (a -ℤ min_dec a b) ≡ false → min_dec a b ≡ b
min_dec_of_left_over a b h = ground (arith, -ℤ_parts a a)

pub filled_up_idle :
    (m : Order)
    → zero_dec <ℤ remaining_qty m
    → IsWellFormed m
    → is_active (filled_by (remaining_qty m) m) ≡ false
filled_up_idle m p w = rw (filled_by-is_active (remaining_qty m) m p w, filled_up m)
