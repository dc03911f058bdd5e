-- ===== src/Perpetual/Margin.antt =====
-- x/perpetual/keeper/margin.go: the margin that an order or a position needs.
use perp_dex.Base.{Bool, true, String, none, some, if◌then◌else◌}
use perp_dex.Base.Int.{◌+ℤ◌, ◌-ℤ◌}
use perp_dex.Base.Outcome.{done, failed, ◌>>=◌}
use perp_dex.Decimal.{LegacyDec, zero_dec, new_dec_with_prec, gte, is_negative, Rounding}
use perp_dex.Perpetual.Types.{
  Position, Account, calculate_unrealized_pnl, can_afford, maintenance_rate,
}
use perp_dex.Perpetual.Types.{
  maintenance_rate, can_afford, calculate_unrealized_pnl, Position, Account,
}
use perp_dex.Perpetual.Store.{
  State, Call, get_account, get_price, or_fail, account_not_found, insufficient_margin,
}

module _ (r : Rounding) where
  unfoldable pub calculate_initial_margin : LegacyDec → LegacyDec → LegacyDec
  calculate_initial_margin size price = r.mul (r.mul size price) (new_dec_with_prec 5 2)

  unfoldable pub calculate_maintenance_margin : LegacyDec → LegacyDec → LegacyDec
  calculate_maintenance_margin size price = r.mul (r.mul size price) maintenance_rate

  unfoldable pub check_afford : LegacyDec → LegacyDec → State → Account → Call State
  unfolding calculate_initial_margin
  check_afford size price s a =
      if can_afford (calculate_initial_margin size price) a
      then done s
      else failed (insufficient_margin, s)

  -- `CheckInitialMarginRequirement`
  unfoldable pub check_initial_margin : String → LegacyDec → LegacyDec → State → Call State
  unfolding check_afford or_fail
  check_initial_margin trader size price s =
      or_fail account_not_found s (get_account trader s) >>= check_afford size price s

  -- `CheckMaintenanceMarginRequirement`: whether the margin is met, and by how much it is missed.
  unfoldable pub check_maintenance_margin : Position → State → Bool × LegacyDec
  unfolding calculate_maintenance_margin calculate_unrealized_pnl
  check_maintenance_margin p s = elim (get_price p.market_id s) [
    | none ↦ (true, zero_dec)
    | some price ↦
        let margin = calculate_maintenance_margin p.size price.mark_price in
        let equity = p.margin +ℤ calculate_unrealized_pnl r price.mark_price p in
        (gte equity margin, if is_negative (margin -ℤ equity) then zero_dec else margin -ℤ equity)
  ]
