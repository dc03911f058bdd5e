-- ===== src/Perpetual/FundingTests.antt =====
-- The theorems of funding, at a market with a long and a short position that is due.
use perp_dex.Base.{ℕ, zero, suc, String, List, [], ◌∷◌, ◌*◌, ◌/◌, ◌^◌, arith, map, All}
use perp_dex.Base.Int.{pos, pos_part, ◌-ℤ◌}
use perp_dex.Base.Dict.{Dict, lookup}
use perp_dex.Decimal.{Rounding, new_dec, zero_dec}
use perp_dex.Perpetual.Types.{
  Account, isolated, PositionSide, new_position, new_market, new_price_info,
}
use perp_dex.Perpetual.Rates.{
  FundingStore, FundingEnv, get_funding_config, default_funding_config, calculate_funding_rate_v2,
  list_active_markets,
}
use perp_dex.Perpetual.Rates.Bounds.{IsWithin, calculate_funding_rate_v2-IsWithin}
use perp_dex.Perpetual.Funding.{funding_end_blocker}
use perp_dex.Perpetual.Funding.Solvent.{IsSolvent, funding_end_blocker-IsSolvent}
use perp_dex.Perpetual.Funding.Funded.{IsFunded, funding_end_blocker-IsFunded}

abbrev rounding : Rounding
rounding = record {
  mul = λ a b. pos (pos_part a * pos_part b / 10 ^ 18);
  quo = λ a b. pos (pos_part a * 10 ^ 18 / pos_part b);
}

abbrev payment_name : ℕ → String
payment_name (suc zero) = "funding-1"
payment_name _ = "funding-2"

abbrev values : {A : Type 0} → Dict A → List A
values d = map (λ e. e.1) d

abbrev env : FundingEnv
env = record {
  rounding = rounding;
  digits = λ n. "28800";
  payment_name = payment_name;
  wall_time = 28800;
  walk_positions = values;
  walk_markets = values;
  walk_back = λ p d. values d;
  walk_payments = values;
}

abbrev alice : Account
alice = record {
  trader = "alice";
  balance = new_dec 3;
  locked_margin = zero_dec;
  margin_mode = isolated;
  cross_margin_pnl = zero_dec;
}

abbrev store : FundingStore
store = record {
  perp = record {
    markets = ("BTC-USDC", new_market "BTC-USDC" "BTC" "USDC") ∷ [];
    positions =
        (
          "alice:BTC-USDC",
          new_position rounding "alice" "BTC-USDC" PositionSide.long (new_dec 2) (new_dec 50000)
              (new_dec 1000),
        )
        ∷ (
          "bob:BTC-USDC",
          new_position rounding "bob" "BTC-USDC" PositionSide.short (new_dec 1) (new_dec 50000)
              (new_dec 1000),
        )
        ∷ [];
    accounts = ("alice", alice) ∷ [];
    prices = ("BTC-USDC", new_price_info "BTC-USDC" (new_dec 50000)) ∷ [];
  };
  rates = [];
  payments = [];
  next_times = ("BTC-USDC", 28800) ∷ [];
  configs = [];
  payment_counter = 0;
}

store-IsSolvent : IsSolvent store.perp.accounts
unfolding IsSolvent lookup
store-IsSolvent trader a h = ground arith

default_allows_zero : IsWithin (get_funding_config "BTC-USDC" store) zero_dec
unfolding get_funding_config default_funding_config lookup ◌-ℤ◌
default_allows_zero = (omega arith, omega arith)

calculate_funding_rate_v2-IsWithin_example :
    IsWithin (get_funding_config "BTC-USDC" store) (calculate_funding_rate_v2 env "BTC-USDC" store)
calculate_funding_rate_v2-IsWithin_example =
    calculate_funding_rate_v2-IsWithin env "BTC-USDC" store default_allows_zero

funding_end_blocker-IsSolvent_example :
    IsSolvent (funding_end_blocker env 28800 store).perp.accounts
funding_end_blocker-IsSolvent_example =
    funding_end_blocker-IsSolvent env 28800 store store-IsSolvent

funding_end_blocker-IsFunded_example :
    All
      (IsFunded env 28800 store (funding_end_blocker env 28800 store))
      (list_active_markets env store)
funding_end_blocker-IsFunded_example = funding_end_blocker-IsFunded env 28800 store
