-- ===== src/Orderbook/Tests/Engine.antt =====
-- The theorems of the matching engine, at the orders of the tests.
use perp_dex.Base.{ℕ, suc, ◌≡◌, refl, [], ◌∷◌, ◌++◌, some, arith, same}
use perp_dex.Base.Int.{◌-ℤ◌}
use perp_dex.Base.Dict.{lookup, insert}
use perp_dex.Base.Outcome.{done}
use perp_dex.Decimal.{zero_dec, new_dec}
use perp_dex.Orderbook.Types.{Order, OrderType, Side, remaining_qty}
use perp_dex.Orderbook.Book.{OrderBook, own_levels}
use perp_dex.Orderbook.Book.Listed.{listed}
use perp_dex.Orderbook.Store.{State, get_order_book}
use perp_dex.Orderbook.Matching.{Run, match_cells, at_level, is_price_compatible}
use perp_dex.Orderbook.Matching.Invariant.{Inv}
use perp_dex.Orderbook.Matching.Loops.{at_level-Inv}
use perp_dex.Orderbook.Matching.Turns.{makers}
use perp_dex.Orderbook.Matching.Fifo.{ThreeMakers, second_maker_skipped}
use perp_dex.Orderbook.Engine.{
  Matched, match, start_run, process_order, place_order, opposite_levels, sequential_end_blocker,
}
use perp_dex.Orderbook.Engine.Match.{Matches, match_total, start_run-Inv}
use perp_dex.Orderbook.Engine.Process.{
  IsPlaced, EndsAfter, process_order_total, sequential_end_blocker_total,
}
use perp_dex.Orderbook.Engine.Place.{
  checked, placed_as, margin_passes, place_order_total, place_order_failed,
}
use perp_dex.Orderbook.Engine.Rests.{IsNamed, insert-IsNamed, RestsIfLeft}
use perp_dex.Base.{false, String}
use perp_dex.Base.Dict.{insert}
use perp_dex.Orderbook.Result.{ok, err, order_not_active}
use perp_dex.Orderbook.Types.{cancel}
use perp_dex.Orderbook.Store.{get_order, get_all_pending_orders}
use perp_dex.Orderbook.Engine.{keeper_cancel_order}
use perp_dex.Orderbook.Engine.Cancel.{cancel_once}
use perp_dex.Orderbook.Engine.Requeue.{process_order_lists}
use perp_dex.Orderbook.TimeInForce.{check_post_only}
use perp_dex.Orderbook.TimeInForce.PostOnly.{check_post_only-match}
use perp_dex.Orderbook.Tests.{
  env, taker, first_maker, third_maker, asks, book, state, stored, known, taker-IsOpen,
  stored-IsSound, walk-entries, order,
}

match_total_example : (m : Matched ℕ) × (match env taker state ≡ done m) × Matches taker m
match_total_example = match_total env taker state taker-IsOpen stored-IsSound (known taker)

process_order_total_example :
    (m : Matched ℕ) × (process_order env taker state ≡ done m) × IsPlaced taker m
process_order_total_example =
    process_order_total env taker state taker-IsOpen stored-IsSound (known taker)

sequential_end_blocker_total_example :
    EndsAfter env (get_all_pending_orders env state) state (sequential_end_blocker env state)
sequential_end_blocker_total_example =
    sequential_end_blocker_total env state stored-IsSound (λ k o e. known o) walk-entries

nothing_stored : (k : String) (b : OrderBook) → lookup k [] ≡ some b → ⊥
unfolding lookup
nothing_stored k b e = ground arith

-- The book of the tests stands under its market.
books-IsNamed : IsNamed state.order_books
unfolding insert
books-IsNamed = insert-IsNamed book [] (λ k b e. absurd (nothing_stored k b e))

place_order_total_example :
    (m : Matched ℕ) × (place_order env "bob" "BTC-USDC" Side.buy OrderType.limit
        (new_dec 101)
        (new_dec 5)
        state
      ≡ done m)
    × IsPlaced
        (placed_as env "bob" "BTC-USDC" Side.buy OrderType.limit (new_dec 101) (new_dec 5) state)
        m
    × RestsIfLeft m
place_order_total_example =
    place_order_total env "bob" "BTC-USDC" Side.buy OrderType.limit (new_dec 101) (new_dec 5) state
      (omega arith) stored-IsSound books-IsNamed
      (known
        (placed_as env "bob" "BTC-USDC" Side.buy OrderType.limit (new_dec 101) (new_dec 5) state))
      refl

place_order_failed_example :
    (margin_passes env "bob" "BTC-USDC" Side.buy (new_dec 100) (new_dec 11) state ≡ false)
    × (checked env "bob" "BTC-USDC" Side.buy (new_dec 100) (new_dec 11) state
        ≡ checked env "bob" "BTC-USDC" Side.buy (new_dec 100) (new_dec 11) state)
unfolding place_order
place_order_failed_example =
    place_order_failed env "bob" "BTC-USDC" Side.buy OrderType.limit (new_dec 100) (new_dec 11)
      state (checked env "bob" "BTC-USDC" Side.buy (new_dec 100) (new_dec 11) state) (omega arith)
      stored-IsSound
      (known
        (placed_as env "bob" "BTC-USDC" Side.buy OrderType.limit (new_dec 101) (new_dec 5) state))
      refl

process_order_lists_example :
    (m : Matched ℕ) × (ob' : OrderBook) × (process_order env first_maker state ≡ done m)
    × (get_order_book "BTC-USDC" m.store ≡ some ob')
    × (listed "a" (own_levels first_maker ob') ≡ suc (listed "a" (own_levels first_maker book)))
unfolding lookup same opposite_levels ◌-ℤ◌
process_order_lists_example =
    process_order_lists env first_maker state book refl refl refl refl refl

abbrev run : Run ℕ
unfolding start_run
run = at_level env asks (start_run env taker state)

run-Inv : Inv taker run
unfolding run
run-Inv =
    at_level-Inv env taker asks (start_run env taker state)
      (start_run-Inv env taker state taker-IsOpen stored-IsSound)

makers-stored : ThreeMakers run "a" "b" "c" first_maker third_maker
unfolding run start_run lookup insert same ◌-ℤ◌
makers-stored = record {
  cells = refl;
  a_ne_b = refl;
  a_ne_c = refl;
  b_ne_c = refl;
  stored_a = refl;
  stored_c = refl;
  named_a = refl;
  named_c = refl;
  active_a = refl;
  active_c = refl;
  more = omega arith;
}

second_maker_skipped_example :
    (s' : Run ℕ) × (match_cells env 3 0 run ≡ done s')
    × (makers env taker s' ≡ (makers env taker run ++ "a" ∷ []) ++ "c" ∷ [])
    × (lookup "b" s'.store.orders ≡ lookup "b" stored)
unfolding run start_run is_price_compatible
second_maker_skipped_example =
    second_maker_skipped env taker run "a" "b" "c" first_maker third_maker (known taker) run-Inv
      refl makers-stored

-- A buyer at 99, below the best ask.
abbrev bidder : Order
bidder = order "d" Side.buy (new_dec 99) (new_dec 1)

check_post_only-match_example :
    (m : Matched ℕ) × (match env bidder state ≡ done m)
    × (m.result.trades ≡ [])
    × (m.result.filled_qty ≡ zero_dec)
    × (m.result.remaining_qty ≡ remaining_qty bidder)
    × (m.order ≡ bidder)
unfolding check_post_only lookup same
check_post_only-match_example = check_post_only-match env bidder state refl refl

cancel_once_example :
    (s' : State ℕ) × (keeper_cancel_order env "alice" "a" state ≡ ok (cancel first_maker, s'))
    × (get_order "a" s' ≡ some (cancel first_maker))
    × (keeper_cancel_order env "alice" "a" s' ≡ err order_not_active)
unfolding lookup insert same
cancel_once_example = cancel_once env "alice" "a" first_maker state refl refl refl refl
