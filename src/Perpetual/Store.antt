-- ===== src/Perpetual/Store.antt =====
-- x/perpetual/keeper/keeper.go: the store of the module, and the deposits and withdrawals.
use Prim.Native.String.{◌++◌}
use perp_dex.Base.{String, Option, none, some}
use perp_dex.Base.Dict.{Dict, lookup, insert, erase}
use perp_dex.Base.Outcome.{Outcome, done, failed, panicked, ◌>>=◌}
use perp_dex.Decimal.{LegacyDec, new_dec}
use perp_dex.Perpetual.Types.{
  Market, new_market, Position, Account, new_account, deposit, withdraw, PriceInfo, new_price_info,
}

pub data Error : Type 0 where
  market_not_found market_not_active invalid_quantity account_not_found : Error
  insufficient_margin insufficient_balance position_not_found cannot_reduce_position : Error

-- One dictionary for each key prefix. An encoded record that does not decode is not modelled.
pub record State : Type 0 where
  pub markets : Dict Market
  pub positions : Dict Position
  pub accounts : Dict Account
  pub prices : Dict PriceInfo

-- A call of the keeper: an error leaves the store that was written before it.
abbrev pub Call : Type 0 → Type 0
Call A = Outcome (Error × State) A

abbrev pub set_market : Market → State → State
set_market m s = record s { markets = insert m.market_id m s.markets }

abbrev pub get_market : String → State → Option Market
get_market id s = lookup id s.markets

unfoldable pub position_key : String → String → String
position_key trader market_id = trader ++ ":" ++ market_id

abbrev pub set_position : Position → State → State
set_position p s = record s { positions = insert (position_key p.trader p.market_id) p s.positions }

abbrev pub get_position : String → String → State → Option Position
get_position trader market_id s = lookup (position_key trader market_id) s.positions

abbrev pub delete_position : String → String → State → State
delete_position trader market_id s = record s {
  positions = erase (position_key trader market_id) s.positions;
}

abbrev pub set_account : Account → State → State
set_account a s = record s { accounts = insert a.trader a s.accounts }

abbrev pub get_account : String → State → Option Account
get_account trader s = lookup trader s.accounts

-- `GetOrCreateAccount`: a new account starts with 10,000.
unfoldable pub get_or_create_account : String → State → Account × State
get_or_create_account trader s =
    let new = deposit (new_dec 10000) (new_account trader) in
    elim (get_account trader s) [ some a ↦ (a, s) | none ↦ (new, set_account new s) ]

abbrev pub set_price : PriceInfo → State → State
set_price p s = record s { prices = insert p.market_id p s.prices }

abbrev pub get_price : String → State → Option PriceInfo
get_price id s = lookup id s.prices

-- `InitDefaultMarket`, without the time of the next funding.
unfoldable pub init_default_market : State → State
init_default_market s =
    set_price (new_price_info "BTC-USDC" (new_dec 50000))
      (set_market (new_market "BTC-USDC" "BTC" "USDC") s)

-- `Keeper.Deposit`
unfoldable pub deposit_margin : String → LegacyDec → State → State
unfolding get_or_create_account
deposit_margin trader amount s =
    let (a, s') = get_or_create_account trader s in set_account (deposit amount a) s'

unfoldable pub or_fail : {A : Type 0} → Error → State → Option A → Call A
or_fail e s (some a) = done a
or_fail e s none = failed (e, s)

unfoldable pub or_panic : {A : Type 0} → Option A → Call A
or_panic (some a) = done a
or_panic none = panicked

-- `Keeper.Withdraw`
unfoldable pub withdraw_margin : String → LegacyDec → State → Call State
unfolding or_fail
withdraw_margin trader amount s = do
  a ← or_fail account_not_found s (get_account trader s)
  a' ← or_fail insufficient_balance s (withdraw amount a)
  done (set_account a' s)
