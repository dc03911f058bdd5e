-- ===== src/Perpetual/Funding.antt =====
-- x/perpetual/keeper/funding.go, the second half: the settlement of funding against the accounts
-- and the end blocker that settles. Logs and emitted events are left out.
pub mod Steps
pub mod Solvent
pub mod Schedule
pub mod Recorded
pub mod Funded
use Prim.Native.String.{◌++◌}
use perp_dex.Base.{
  ℕ, zero, suc, ◌+◌, ◌-◌, ◌*◌, ◌/◌, ◌%◌, ◌^◌, Bool, String, List, [], ◌∷◌, Option, none, some, same,
  if◌then◌else◌, leb,
}
use perp_dex.Base.Dict.{Dict, lookup, insert}
use perp_dex.Base.Int.{◌+ℤ◌, ◌-ℤ◌}
use perp_dex.Base.Outcome.{Outcome, done, failed, panicked}
use perp_dex.Decimal.{
  LegacyDec, zero_dec, new_dec_with_prec, gt, lt, neg, is_zero, is_positive, is_negative, Rounding,
}
use perp_dex.Perpetual.Types.{
  Market, active, settling, status_is_active, Position, is_long, Account, PriceInfo,
}
use perp_dex.Perpetual.Store.{
  State, Error, market_not_found, set_market, get_market, set_account, get_or_create_account,
  get_price,
}
use perp_dex.Perpetual.Rates.{
  FundingRate, FundingPayment, FundingConfig, FundingStore, FundingEnv, next_funding_time,
  set_next_funding_time, get_next_funding_time, save_funding_payment, set_funding_rate,
  generate_payment_id, get_positions_by_market, list_active_markets, calculate_funding_rate_v2,
}

-- What is due, limited to what the account has.
unfoldable pub limit_payment : LegacyDec → LegacyDec → LegacyDec
limit_payment balance payment =
    if is_negative payment
    then (if lt payment (neg balance) then neg balance else payment)
    else payment

-- An error of the settlement is only logged.
unfoldable pub or_unsettled : FundingStore → Outcome Error FundingStore → FundingStore
or_unsettled s (done s') = s'
or_unsettled s (failed e) = s
or_unsettled s panicked = s

abbrev pub put_market : Market → FundingStore → FundingStore
put_market m s = record s { perp = set_market m s.perp }

-- The next funding time of a market, stored where it was not.
unfoldable pub scheduled : ℕ → Market → FundingStore → ℕ × FundingStore
scheduled now m s = elim (get_next_funding_time m.market_id s) [
  | some t ↦ (t, s)
  | none ↦ (next_funding_time now, set_next_funding_time m.market_id (next_funding_time now) s)
]

module _ (env : FundingEnv) where
  -- What a position is due: a long pays a positive rate, the others receive it.
  unfoldable pub funding_due : LegacyDec → LegacyDec → Position → LegacyDec
  funding_due rate mark_price p =
      let payment = env.mul (env.mul p.size mark_price) rate in
      if is_long p.side then neg payment else payment

  -- One position's turn of the loop in `SettleFunding`.
  unfoldable pub settle_position :
      String → LegacyDec → LegacyDec → ℕ → Position → FundingStore → FundingStore
  settle_position market_id rate mark_price now p s =
      let (a, perp) = get_or_create_account p.trader s.perp in
      let payment = limit_payment a.balance (funding_due rate mark_price p) in
      let (id, s') =
        generate_payment_id env
          (record s { perp = set_account (record a { balance = a.balance +ℤ payment }) perp }) in
      save_funding_payment
        (record {
          payment_id = id;
          trader = p.trader;
          market_id = market_id;
          amount = payment;
          rate = rate;
          timestamp = now;
        })
        s'

  unfoldable pub settle_positions :
      String → LegacyDec → LegacyDec → ℕ → List Position → FundingStore → FundingStore
  settle_positions market_id rate mark_price now [] s = s
  settle_positions market_id rate mark_price now (p ∷ ps) s =
      settle_positions market_id rate mark_price now ps
        (settle_position market_id rate mark_price now p s)

  -- `SettleFunding` for a market with a price.
  unfoldable pub settle_at : String → ℕ → PriceInfo → FundingStore → FundingStore
  settle_at id now price s =
      let rate = calculate_funding_rate_v2 env id s in
      let recorded =
        set_funding_rate env
          (record {
            market_id = id;
            rate = rate;
            mark_price = price.mark_price;
            index_price = price.index_price;
            timestamp = env.wall_time;
          })
          s in
      set_next_funding_time id (next_funding_time now) (
        settle_positions id rate price.mark_price now (get_positions_by_market env id recorded)
          recorded)

  -- `SettleFunding`; an error leaves the store as it was.
  unfoldable pub settle_funding : String → ℕ → FundingStore → Outcome Error FundingStore
  settle_funding id now s = elim (get_market id s.perp) [
    | none ↦ failed market_not_found
    | some m ↦ elim (get_price id s.perp) [
      | none ↦ failed market_not_found
      | some p ↦ done (settle_at id now p s)
    ]
  ]

  -- The market is stored as settling, settled, and stored as active.
  unfoldable pub settle_market : ℕ → Market → FundingStore → FundingStore
  settle_market now m s =
      let s' = put_market (record m { status = settling }) s in
      put_market (record m { status = active })
        (or_unsettled s' (settle_funding m.market_id now s'))

  -- One market's turn of the loop in `FundingEndBlocker`.
  unfoldable pub fund_market : ℕ → Market → FundingStore → FundingStore
  fund_market now m s =
      let (t, s') = scheduled now m s in if leb t now then settle_market now m s' else s'

  unfoldable pub fund_markets : ℕ → List Market → FundingStore → FundingStore
  fund_markets now [] s = s
  fund_markets now (m ∷ ms) s = fund_markets now ms (fund_market now m s)

  unfoldable pub funding_end_blocker : ℕ → FundingStore → FundingStore
  funding_end_blocker now s = fund_markets now (list_active_markets env s) s
