-- ===== src/Perpetual/Rates.antt =====
-- x/perpetual/types/funding.go and the first half of keeper/funding.go: what is stored of funding,
-- and the funding rate of a market.
-- A time is its seconds since 1970; a block time is taken to the second, which no test of the
-- source can tell from the full time, since all funding times are whole seconds.
pub mod Bounds
use Prim.Native.String.{◌++◌}
use perp_dex.Base.{
  ℕ, zero, suc, ◌+◌, ◌-◌, ◌*◌, ◌/◌, ◌%◌, ◌^◌, Bool, String, List, [], ◌∷◌, Option, none, some, same,
  if◌then◌else◌, leb,
}
use perp_dex.Base.Dict.{Dict, lookup, insert}
use perp_dex.Base.Int.{◌+ℤ◌, ◌-ℤ◌}
use perp_dex.Base.Outcome.{Outcome, done, failed, panicked}
use perp_dex.Decimal.{
  LegacyDec, zero_dec, new_dec_with_prec, gt, lt, neg, is_zero, is_positive, is_negative, Rounding,
}
use perp_dex.Perpetual.Types.{
  Market, active, settling, status_is_active, Position, is_long, Account, PriceInfo,
}
use perp_dex.Perpetual.Store.{
  State, Error, market_not_found, set_market, get_market, set_account, get_or_create_account,
  get_price,
}

pub record FundingRate : Type 0 where
  pub market_id : String
  pub rate : LegacyDec
  pub mark_price : LegacyDec
  pub index_price : LegacyDec
  pub timestamp : ℕ

pub record FundingPayment : Type 0 where
  pub payment_id : String
  pub trader : String
  pub market_id : String
  pub amount : LegacyDec
  pub rate : LegacyDec
  pub timestamp : ℕ

pub record FundingConfig : Type 0 where
  pub interval : ℕ
  pub max_rate : LegacyDec
  pub min_rate : LegacyDec
  pub damping_factor : LegacyDec

unfoldable pub default_funding_config : FundingConfig
default_funding_config = record {
  interval = 28800;
  max_rate = new_dec_with_prec 5 3;
  min_rate = neg (new_dec_with_prec 5 3);
  damping_factor = new_dec_with_prec 5 2;
}

-- The zero time, where no time is stored, is `none`. A predicted payment is unset without a price.
pub record FundingInfo : Type 0 where
  pub market_id : String
  pub current_rate : LegacyDec
  pub next_settlement : Option ℕ
  pub last_settlement : Option ℕ
  pub total_long_size : LegacyDec
  pub total_short_size : LegacyDec
  pub predicted_payment : Option LegacyDec

-- The store of the keeper, one dictionary for each key prefix of funding beside those of `State`.
pub record FundingStore : Type 0 where
  pub perp : State
  pub rates : Dict FundingRate
  pub payments : Dict FundingPayment
  pub next_times : Dict ℕ
  pub configs : Dict FundingConfig
  pub payment_counter : ℕ

-- The rounding of the decimals, `fmt.Sprintf` at "%d" and "funding-%d", the time on the wall, and
-- the iterators of the store: over all positions and all markets, in the order of their keys, and
-- over the rates whose keys have a prefix, from the last.
pub record FundingEnv : Type 0 where
  pub rounding : Rounding
  pub open rounding use *
  pub digits : ℕ → String
  pub payment_name : ℕ → String
  pub wall_time : ℕ
  pub walk_positions : Dict Position → List Position
  pub walk_markets : Dict Market → List Market
  pub walk_back : String → Dict FundingRate → List FundingRate
  pub walk_payments : Dict FundingPayment → List FundingPayment

-- 8 hours, and the length of a day.
abbrev pub funding_period : ℕ
funding_period = 28800

abbrev pub day : ℕ
day = 86400

-- `nextFundingTimeUTC`
unfoldable pub next_funding_time : ℕ → ℕ
next_funding_time now =
    let elapsed = now % day in (now - elapsed) + (elapsed / funding_period + 1) * funding_period

abbrev pub set_next_funding_time : String → ℕ → FundingStore → FundingStore
set_next_funding_time id t s = record s { next_times = insert id t s.next_times }

abbrev pub get_next_funding_time : String → FundingStore → Option ℕ
get_next_funding_time id s = lookup id s.next_times

unfoldable pub set_funding_config : String → FundingConfig → FundingStore → FundingStore
set_funding_config id c s = record s { configs = insert id c s.configs }

unfoldable pub get_funding_config : String → FundingStore → FundingConfig
get_funding_config id s = elim (lookup id s.configs) [ some c ↦ c | none ↦ default_funding_config ]

unfoldable pub save_funding_payment : FundingPayment → FundingStore → FundingStore
save_funding_payment p s = record s { payments = insert p.payment_id p s.payments }

unfoldable pub clamp : FundingConfig → LegacyDec → LegacyDec
clamp c rate =
    if gt rate c.max_rate then c.max_rate else if lt rate c.min_rate then c.min_rate else rate

-- The first entries, up to a limit.
abbrev pub take_rates : ℕ → List FundingRate → List FundingRate
take_rates zero rs = []
take_rates (suc n) [] = []
take_rates (suc n) (r ∷ rs) = r ∷ take_rates n rs

unfoldable pub take_payments : String → ℕ → List FundingPayment → List FundingPayment
take_payments trader zero ps = []
take_payments trader (suc n) [] = []
take_payments trader (suc n) (p ∷ ps) =
    if same p.trader trader then p ∷ take_payments trader n ps else take_payments trader (suc n) ps

-- `GetPositionsByMarket`, over the positions in the order of the iterator.
unfoldable pub in_market : String → List Position → List Position
in_market id [] = []
in_market id (p ∷ ps) = if same p.market_id id then p ∷ in_market id ps else in_market id ps

-- `ListActiveMarkets`
unfoldable pub active_markets : List Market → List Market
active_markets [] = []
active_markets (m ∷ ms) =
    if status_is_active m.status then m ∷ active_markets ms else active_markets ms

-- The sizes of the long positions, and of the others.
unfoldable pub total_sizes : List Position → LegacyDec × LegacyDec → LegacyDec × LegacyDec
total_sizes [] t = t
total_sizes (p ∷ ps) (long, short) =
    if is_long p.side
    then total_sizes ps (long +ℤ p.size, short)
    else total_sizes ps (long, short +ℤ p.size)

module _ (env : FundingEnv) where
  unfoldable pub set_funding_rate : FundingRate → FundingStore → FundingStore
  set_funding_rate r s = record s {
    rates = insert (r.market_id ++ ":" ++ env.digits r.timestamp) r s.rates;
  }

  unfoldable pub get_funding_rate_history : String → ℕ → FundingStore → List FundingRate
  get_funding_rate_history id limit s = take_rates limit (env.walk_back (id ++ ":") s.rates)

  unfoldable pub get_funding_payments_by_trader : String → ℕ → FundingStore → List FundingPayment
  get_funding_payments_by_trader trader limit s =
      take_payments trader limit (env.walk_payments s.payments)

  -- The counter is a uint64, and wraps.
  unfoldable pub generate_payment_id : FundingStore → String × FundingStore
  generate_payment_id s =
      let n = (s.payment_counter + 1) % 2 ^ 64 in
      (env.payment_name n, record s { payment_counter = n })

  unfoldable pub get_positions_by_market : String → FundingStore → List Position
  get_positions_by_market id s = in_market id (env.walk_positions s.perp.positions)

  unfoldable pub list_active_markets : FundingStore → List Market
  list_active_markets s = active_markets (env.walk_markets s.perp.markets)

  -- `CalculateFundingRate`
  unfoldable pub calculate_funding_rate : String → FundingStore → LegacyDec
  calculate_funding_rate id s = elim (get_price id s.perp) [
    | none ↦ zero_dec
    | some p ↦
        if is_zero p.index_price
        then zero_dec
        else let c = get_funding_config id s in
          clamp c (env.quo (env.mul c.damping_factor (p.mark_price -ℤ p.index_price)) p.index_price)
  ]

  -- `GetFundingInfo`; `none` where the market is not found.
  unfoldable pub get_funding_info : String → FundingStore → Option FundingInfo
  get_funding_info id s =
      let rate = calculate_funding_rate id s in
      let totals = total_sizes (get_positions_by_market id s) (zero_dec, zero_dec) in
      let last : Option ℕ = elim (get_funding_rate_history id 1 s) [
        | [] ↦ none
        | (r ∷ _) ↦ some r.timestamp
      ] in
      let predicted : Option LegacyDec = elim (get_price id s.perp) [
        | some p ↦ some (env.mul p.mark_price rate)
        | none ↦ none
      ] in
      elim (get_market id s.perp) [
        | none ↦ none
        | some m ↦ some (record {
          market_id = id;
          current_rate = rate;
          next_settlement = get_next_funding_time id s;
          last_settlement = last;
          total_long_size = totals.0;
          total_short_size = totals.1;
          predicted_payment = predicted;
        })
      ]

  -- The rate with the share of open interest that the long or short side has over the other.
  unfoldable pub adjusted_rate : FundingConfig → LegacyDec → FundingInfo → LegacyDec
  adjusted_rate c base i =
      let total = i.total_long_size +ℤ i.total_short_size in
      let imbalance = env.quo (i.total_long_size -ℤ i.total_short_size) total in
      if is_positive total
      then clamp c (base +ℤ env.mul imbalance (new_dec_with_prec 5 2))
      else base

  -- `CalculateFundingRateV2`
  unfoldable pub calculate_funding_rate_v2 : String → FundingStore → LegacyDec
  calculate_funding_rate_v2 id s =
      let base = calculate_funding_rate id s in
      elim (get_funding_info id s) [
        | none ↦ base
        | some i ↦ adjusted_rate (get_funding_config id s) base i
      ]
