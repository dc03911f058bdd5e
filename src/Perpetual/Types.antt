-- ===== src/Perpetual/Types.antt =====
-- x/perpetual/types/types.go, market_status.go and margin_mode.go: markets, positions, accounts and
-- prices with their methods. Timestamps are left out: they are only recorded.
use perp_dex.Base.{ℕ, Bool, true, false, not, String, Option, none, some, if◌then◌else◌}
use perp_dex.Base.Int.{◌+ℤ◌, ◌-ℤ◌}
use perp_dex.Decimal.{
  LegacyDec, zero_dec, one_dec, new_dec, new_dec_with_prec, gte, lt, neg, is_zero, is_negative,
  Rounding,
}

pub data PositionSide : Type 0 where
  unspecified long short : PositionSide

unfoldable pub position_side_string : PositionSide → String
position_side_string PositionSide.long = "long"
position_side_string PositionSide.short = "short"
position_side_string PositionSide.unspecified = "unspecified"

abbrev pub is_long : PositionSide → Bool
is_long PositionSide.long = true
is_long _ = false

abbrev pub is_short : PositionSide → Bool
is_short PositionSide.short = true
is_short _ = false

-- `==` on sides.
abbrev pub same_side : PositionSide → PositionSide → Bool
same_side PositionSide.unspecified PositionSide.unspecified = true
same_side PositionSide.long PositionSide.long = true
same_side PositionSide.short PositionSide.short = true
same_side _ _ = false

pub data MarketStatus : Type 0 where
  inactive active settling paused : MarketStatus

unfoldable pub market_status_string : MarketStatus → String
market_status_string active = "active"
market_status_string settling = "settling"
market_status_string paused = "paused"
market_status_string inactive = "inactive"

unfoldable pub status_is_active : MarketStatus → Bool
status_is_active active = true
status_is_active _ = false

unfoldable pub is_tradeable : MarketStatus → Bool
is_tradeable active = true
is_tradeable settling = true
is_tradeable _ = false

pub data MarginMode : Type 0 where
  isolated cross : MarginMode

unfoldable pub margin_mode_string : MarginMode → String
margin_mode_string cross = "cross"
margin_mode_string isolated = "isolated"

abbrev pub is_cross : MarginMode → Bool
is_cross cross = true
is_cross isolated = false

pub record MarketConfig : Type 0 where
  pub market_id : String
  pub base_asset : String
  pub quote_asset : String
  pub max_leverage : LegacyDec
  pub initial_margin_rate : LegacyDec
  pub maintenance_margin_rate : LegacyDec
  pub taker_fee_rate : LegacyDec
  pub maker_fee_rate : LegacyDec
  pub tick_size : LegacyDec
  pub lot_size : LegacyDec
  pub min_order_size : LegacyDec
  pub max_order_size : LegacyDec
  pub max_position_size : LegacyDec
  pub funding_interval : ℕ
  pub insurance_fund_id : String

-- A market has what its configuration has, and its state.
pub record Market : Type 0 where
  pub config : MarketConfig
  pub open config use *
  pub is_active : Bool
  pub status : MarketStatus

unfoldable pub new_market_with_config : MarketConfig → Market
new_market_with_config c = record { config = c; is_active = true; status = active }

-- `NewMarket`
unfoldable pub new_market : String → String → String → Market
new_market market_id base_asset quote_asset = record {
  config = record {
    market_id = market_id;
    base_asset = base_asset;
    quote_asset = quote_asset;
    max_leverage = new_dec 50;
    initial_margin_rate = new_dec_with_prec 5 2;
    maintenance_margin_rate = new_dec_with_prec 25 3;
    taker_fee_rate = new_dec_with_prec 5 4;
    maker_fee_rate = new_dec_with_prec 2 4;
    tick_size = new_dec_with_prec 1 2;
    lot_size = new_dec_with_prec 1 4;
    min_order_size = new_dec_with_prec 1 4;
    max_order_size = new_dec 1000;
    max_position_size = new_dec 10000;
    funding_interval = 28800;
    insurance_fund_id = "";
  };
  is_active = true;
  status = active;
}

pub record Position : Type 0 where
  pub trader : String
  pub market_id : String
  pub side : PositionSide
  pub size : LegacyDec
  pub entry_price : LegacyDec
  pub margin : LegacyDec
  pub leverage : LegacyDec
  pub liquidation_price : LegacyDec

-- 2.5%
abbrev pub maintenance_rate : LegacyDec
maintenance_rate = new_dec_with_prec 25 3

module _ (r : Rounding) where
  -- `CalculateLiquidationPrice`
  unfoldable pub calculate_liquidation_price : PositionSide → LegacyDec → LegacyDec
  calculate_liquidation_price side entry_price =
      if is_long side
      then r.mul entry_price (one_dec -ℤ maintenance_rate)
      else r.mul entry_price (one_dec +ℤ maintenance_rate)

  unfoldable pub new_position :
      String → String → PositionSide → LegacyDec → LegacyDec → LegacyDec → Position
  unfolding calculate_liquidation_price
  new_position trader market_id side size entry_price margin = record {
    trader = trader;
    market_id = market_id;
    side = side;
    size = size;
    entry_price = entry_price;
    margin = margin;
    leverage = new_dec 50;
    liquidation_price = calculate_liquidation_price side entry_price;
  }

  -- The gain of a unit of the position at a price.
  unfoldable pub price_diff : Position → LegacyDec → LegacyDec
  price_diff p price =
      if is_short p.side then neg (price -ℤ p.entry_price) else price -ℤ p.entry_price

  unfoldable pub calculate_unrealized_pnl : LegacyDec → Position → LegacyDec
  unfolding price_diff
  calculate_unrealized_pnl mark_price p = r.mul p.size (price_diff p mark_price)

  unfoldable pub calculate_margin_ratio : LegacyDec → Position → LegacyDec
  unfolding calculate_unrealized_pnl
  calculate_margin_ratio mark_price p =
      let equity = p.margin +ℤ calculate_unrealized_pnl mark_price p in
      let notional = r.mul p.size mark_price in
      if is_zero notional then zero_dec else r.quo equity notional

  unfoldable pub is_healthy : LegacyDec → Position → Bool
  unfolding calculate_margin_ratio
  is_healthy mark_price p = gte (calculate_margin_ratio mark_price p) maintenance_rate

  unfoldable pub should_liquidate : LegacyDec → Position → Bool
  unfolding is_healthy
  should_liquidate mark_price p = not (is_healthy mark_price p)

  -- `AddSize`; `none` where the new size is zero, at which the division panics.
  unfoldable pub add_size : LegacyDec → LegacyDec → Position → Option Position
  unfolding calculate_liquidation_price
  add_size size price p =
      let total_value = r.mul p.size p.entry_price +ℤ r.mul size price in
      let new_size = p.size +ℤ size in
      let entry_price = r.quo total_value new_size in
      if is_zero new_size
      then none
      else some (record p {
        entry_price = entry_price;
        size = new_size;
        liquidation_price = calculate_liquidation_price p.side entry_price;
      })

unfoldable pub reduce_size : LegacyDec → Position → Position
reduce_size size p = record p { size = p.size -ℤ size }

pub record Account : Type 0 where
  pub trader : String
  pub balance : LegacyDec
  pub locked_margin : LegacyDec
  pub margin_mode : MarginMode
  pub cross_margin_pnl : LegacyDec

unfoldable pub new_account : String → Account
new_account trader = record {
  trader = trader;
  balance = zero_dec;
  locked_margin = zero_dec;
  margin_mode = isolated;
  cross_margin_pnl = zero_dec;
}

abbrev pub total_equity : LegacyDec → Account → LegacyDec
total_equity unrealized_pnl a = a.balance +ℤ unrealized_pnl

abbrev pub available_balance : Account → LegacyDec
available_balance a = a.balance -ℤ a.locked_margin

abbrev pub can_afford : LegacyDec → Account → Bool
can_afford amount a = gte (available_balance a) amount

unfoldable pub lock_margin : LegacyDec → Account → Account
lock_margin amount a = record a { locked_margin = a.locked_margin +ℤ amount }

unfoldable pub unlock_margin : LegacyDec → Account → Account
unlock_margin amount a =
    let locked = a.locked_margin -ℤ amount in
    record a { locked_margin = if is_negative locked then zero_dec else locked }

unfoldable pub deposit : LegacyDec → Account → Account
deposit amount a = record a { balance = a.balance +ℤ amount }

-- `Withdraw`; `none` is ErrInsufficientBalance.
unfoldable pub withdraw : LegacyDec → Account → Option Account
withdraw amount a =
    if lt (available_balance a) amount
    then none
    else some (record a { balance = a.balance -ℤ amount })

pub record PriceInfo : Type 0 where
  pub market_id : String
  pub mark_price : LegacyDec
  pub index_price : LegacyDec
  pub last_price : LegacyDec

unfoldable pub new_price_info : String → LegacyDec → PriceInfo
new_price_info market_id price = record {
  market_id = market_id;
  mark_price = price;
  index_price = price;
  last_price = price;
}
