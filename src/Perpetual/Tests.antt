-- ===== src/Perpetual/Tests.antt =====
-- The theorems of the perpetual module, at a small store.
use perp_dex.Base.{◌≡◌, refl, [], ◌∷◌, some, arith, same}
use perp_dex.Base.Int.{◌≤ℤ◌}
use perp_dex.Base.Dict.{lookup}
use perp_dex.Decimal.{zero_dec, new_dec}
use perp_dex.Perpetual.Types.{Account, isolated}
use perp_dex.Perpetual.Store.{State, get_account}
use perp_dex.Perpetual.Positions.{deduct_fee}
use perp_dex.Base.{◌*◌, ◌/◌, ◌^◌, false}
use perp_dex.Base.Int.{◌+ℤ◌, pos, pos_part}
use perp_dex.Decimal.{Rounding}
use perp_dex.Perpetual.Types.{Position, PositionSide, new_market, new_price_info}
use perp_dex.Perpetual.Store.{get_position, position_key}
use perp_dex.Perpetual.Positions.{trade_side, update_position_from_trade}
use perp_dex.Perpetual.Positions.Calls.{Holds}
use perp_dex.Perpetual.Positions.Signed.{signed_size, IsKept, net, HasAccount}
use perp_dex.Perpetual.Positions.Net.{StaysOrCloses, update_position_from_trade_lem}
use perp_dex.Perpetual.Positions.Fees.{after_fee, deduct_fee_lem}

abbrev account : Account
account = record {
  trader = "alice";
  balance = new_dec 3;
  locked_margin = new_dec 1;
  margin_mode = isolated;
  cross_margin_pnl = zero_dec;
}

abbrev state : State
state = record { markets = []; positions = []; accounts = ("alice", account) ∷ []; prices = [] }

-- A fee of five from a balance of three.
deduct_fee_lem_example :
    (get_account "alice" (deduct_fee "alice" (new_dec 5) state)
      ≡ some (after_fee (new_dec 5) account))
    × (zero_dec ≤ℤ (after_fee (new_dec 5) account).balance)
    × ((deduct_fee "alice" (new_dec 5) state).positions ≡ [])
unfolding lookup same
deduct_fee_lem_example =
    deduct_fee_lem "alice" (new_dec 5) state account refl refl (omega arith) (omega arith)

-- A long position of two, and a sale of five: the position flips.
abbrev position : Position
position = record {
  trader = "alice";
  market_id = "BTC-USDC";
  side = PositionSide.long;
  size = new_dec 2;
  entry_price = new_dec 100;
  margin = new_dec 10;
  leverage = new_dec 50;
  liquidation_price = new_dec 97;
}

abbrev trading : State
trading = record {
  markets = ("BTC-USDC", new_market "BTC-USDC" "BTC" "USDC") ∷ [];
  positions = ("alice:BTC-USDC", position) ∷ [];
  accounts = ("alice", account) ∷ [];
  prices = ("BTC-USDC", new_price_info "BTC-USDC" (new_dec 100)) ∷ [];
}

abbrev rounding : Rounding
rounding = record {
  mul = λ a b. pos (pos_part a * pos_part b / 10 ^ 18);
  quo = λ a b. pos (pos_part a * 10 ^ 18 / pos_part b);
}

trading-HasAccount : HasAccount "alice" "BTC-USDC" trading
unfolding lookup same
trading-HasAccount = (account, refl, refl)

trading-IsKept : IsKept "alice" "BTC-USDC" (get_position "alice" "BTC-USDC" trading)
unfolding lookup same position_key
trading-IsKept = (refl, refl, omega arith, refl)

update_position_from_trade_lem_example :
    Holds
      (λ s'.
        net "alice" "BTC-USDC" s'
        ≡ net "alice" "BTC-USDC" trading +ℤ signed_size (trade_side false) (new_dec 5))
      (StaysOrCloses "alice" "BTC-USDC" trading)
      (update_position_from_trade rounding "alice" "BTC-USDC" false
        (new_dec 5)
        (new_dec 100)
        (new_dec 1)
        trading)
update_position_from_trade_lem_example =
    update_position_from_trade_lem rounding "alice" "BTC-USDC" trading false (new_dec 5)
      (new_dec 100) (new_dec 1) (omega arith) trading-HasAccount trading-IsKept
