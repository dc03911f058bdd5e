-- ===== src/Clearinghouse/Tests.antt =====
-- The theorems of the insurance funds, at runs of payments.
use perp_dex.Base.{refl, List, [], ◌∷◌, arith}
use perp_dex.Base.Int.{◌-ℤ◌}
use perp_dex.Decimal.{new_dec}
use perp_dex.Base.{ℕ, zero, suc, String, none, ◌*◌, ◌/◌, ◌^◌}
use perp_dex.Base.Int.{pos, pos_part}
use perp_dex.Base.Dict.{lookup}
use perp_dex.Clearinghouse.Funds.{FundEnv, FundStore, cover_deficit}
use perp_dex.Clearinghouse.Funds.Kept.{
  Kept, FundCall, pays_to, penalizes, covers, make_calls, make_calls-Kept,
}
use perp_dex.Clearinghouse.Funds.Deficit.{Covers, cover_deficit_lem}
use perp_dex.Clearinghouse.Insurance.{InsuranceEventType}
use perp_dex.Clearinghouse.Insurance.{
  new_insurance_fund, Use, pays_in, pays_out, apply_all, IsBalanced, apply_all-IsBalanced,
}

-- Ten in, four out, then a request for more than is left.
abbrev payments : List Use
payments =
    pays_in (new_dec 10) (omega arith)
    ∷ pays_out (new_dec 4) (omega arith)
    ∷ pays_out (new_dec 7) (omega arith)
    ∷ []

abbrev events : ℕ → String
events zero = "ins-event-0"
events (suc zero) = "ins-event-1"
events (suc (suc n)) = "ins-event-2"

abbrev fund_env : FundEnv
fund_env = record {
  rounding = record {
    mul = λ a b. pos (pos_part a * pos_part b / 10 ^ 18);
    quo = λ a b. pos (pos_part a * 10 ^ 18 / pos_part b);
  };
  event_name = events;
  walk_back = λ d. d;
}

abbrev no_funds : FundStore
no_funds = record { funds = []; fund_config = none; events = []; event_counter = 0 }

no_funds-Kept : Kept no_funds.funds
unfolding Kept lookup
no_funds-Kept id f h = ground arith

-- Three into the market's fund and a penalty of fifty, of which ten go to the global fund.
abbrev fund_calls : List FundCall
fund_calls =
    pays_to "market-BTC-USDC" (new_dec 3) (omega arith) InsuranceEventType.deposited "seed"
    ∷ penalizes (new_dec 50) "liq-1"
    ∷ covers "ETH-USDC" (new_dec 20) "liq-2"
    ∷ []

make_calls-Kept_example : Kept (make_calls fund_env fund_calls no_funds).funds
make_calls-Kept_example = make_calls-Kept fund_env fund_calls no_funds no_funds-Kept

-- A deficit of five, of which the market's fund has three.
abbrev seeds : List FundCall
seeds =
    pays_to "market-BTC-USDC" (new_dec 3) (omega arith) InsuranceEventType.deposited "seed"
    ∷ pays_to "global" (new_dec 9) (omega arith) InsuranceEventType.deposited "seed"
    ∷ []

cover_deficit_lem_example :
    Covers "BTC-USDC"
      (new_dec 5)
      (make_calls fund_env seeds no_funds)
      (cover_deficit fund_env "BTC-USDC" (new_dec 5) "liq-3" (make_calls fund_env seeds no_funds))
cover_deficit_lem_example =
    cover_deficit_lem fund_env "BTC-USDC" (new_dec 5) "liq-3" (make_calls fund_env seeds no_funds)
      (make_calls-Kept fund_env seeds no_funds no_funds-Kept) (omega arith)

new_fund-IsBalanced : IsBalanced (new_insurance_fund "fund" "BTC-USDC")
unfolding new_insurance_fund ◌-ℤ◌
new_fund-IsBalanced = record { balance_eq = refl; balance_nonneg = omega arith }

apply_all-IsBalanced_example :
    IsBalanced (apply_all payments (new_insurance_fund "fund" "BTC-USDC"))
apply_all-IsBalanced_example =
    apply_all-IsBalanced payments (new_insurance_fund "fund" "BTC-USDC") new_fund-IsBalanced
