-- ===== src/Riverpool/Revenue.antt =====
-- x/riverpool/keeper/revenue.go: what pools earn and lose. `now` is the time of a call and `id` the
-- ID of the record.
pub mod Losses
use Prim.Native.String.{◌++◌}
use perp_dex.Base.{ℕ, String, Option, none, some, if◌then◌else◌}
use perp_dex.Base.Dict.{Dict, lookup, insert}
use perp_dex.Base.Int.{◌+ℤ◌}
use perp_dex.Base.Outcome.{done, ◌>>=◌}
use perp_dex.Decimal.{LegacyDec, zero_dec, gt, neg}
use perp_dex.Riverpool.Types.{Pool, update_nav}
use perp_dex.Riverpool.Store.{
  pool_not_found, RevenueSource, spread, funding, liquidation, trading, fees, RevenueRecord,
  PoolRevenueStats, PoolStore, PoolEnv, get_pool, set_pool,
}
use perp_dex.Riverpool.Deposits.{Call, found_or}

unfoldable pub set_revenue_record : RevenueRecord → PoolStore → PoolStore
set_revenue_record r s = record s {
  revenue_records = insert (r.pool_id ++ r.record_id) r s.revenue_records;
}

unfoldable pub get_revenue_record : String → String → PoolStore → Option RevenueRecord
get_revenue_record pool_id record_id s = lookup (pool_id ++ record_id) s.revenue_records

unfoldable pub set_pool_revenue_stats : PoolRevenueStats → PoolStore → PoolStore
set_pool_revenue_stats r s = record s { revenue_stats = insert r.pool_id r s.revenue_stats }

unfoldable pub get_pool_revenue_stats : String → PoolStore → Option PoolRevenueStats
get_pool_revenue_stats id s = lookup id s.revenue_stats

unfoldable pub new_revenue_stats : String → PoolRevenueStats
new_revenue_stats pool_id = record {
  pool_id = pool_id;
  total_revenue = zero_dec;
  spread_revenue = zero_dec;
  funding_revenue = zero_dec;
  liquidation_profit = zero_dec;
  trading_pnl = zero_dec;
  fee_rebates = zero_dec;
  last_updated = 0;
}

-- The statistic of the record's source.
unfoldable pub count_source : RevenueSource → LegacyDec → PoolRevenueStats → PoolRevenueStats
count_source spread a r = record r { spread_revenue = r.spread_revenue +ℤ a }
count_source funding a r = record r { funding_revenue = r.funding_revenue +ℤ a }
count_source liquidation a r = record r { liquidation_profit = r.liquidation_profit +ℤ a }
count_source trading a r = record r { trading_pnl = r.trading_pnl +ℤ a }
count_source fees a r = record r { fee_rebates = r.fee_rebates +ℤ a }

unfoldable pub count_revenue : RevenueRecord → PoolRevenueStats → PoolRevenueStats
count_revenue r stats =
    count_source r.source r.amount
      (record stats { total_revenue = stats.total_revenue +ℤ r.amount; last_updated = r.timestamp })

unfoldable pub update_pool_revenue_stats : RevenueRecord → PoolStore → PoolStore
update_pool_revenue_stats r s =
    let stats : PoolRevenueStats = elim (get_pool_revenue_stats r.pool_id s) [
      | some t ↦ t
      | none ↦ new_revenue_stats r.pool_id
    ] in
    set_pool_revenue_stats (count_revenue r stats) s

module _ (env : PoolEnv) where
  unfoldable pub nav_impact_of : LegacyDec → Pool → LegacyDec
  nav_impact_of amount p =
      if gt p.total_shares zero_dec then env.quo amount p.total_shares else zero_dec

  -- A gain is added to the pool; what is not a gain leaves the pool as it is.
  unfoldable pub add_gain : LegacyDec → Pool → PoolStore → PoolStore
  add_gain amount p s =
      let total = p.total_deposits +ℤ amount in
      if gt amount zero_dec
      then set_pool (update_nav env.rounding total (record p { total_deposits = total })) s
      else s

  unfoldable pub record_revenue :
      String
      → ℕ
      → String
      → RevenueSource
      → LegacyDec
      → String
      → String
      → String
      → PoolStore
      → Call PoolStore
  record_revenue id now pool_id source amount market_id position_id details s = do
    p ← found_or pool_not_found (get_pool pool_id s)
    let r : RevenueRecord = record {
      record_id = id;
      pool_id = pool_id;
      source = source;
      amount = amount;
      nav_impact = nav_impact_of amount p;
      timestamp = now;
      market_id = market_id;
      position_id = position_id;
      details = details;
    }
    done (add_gain amount p (update_pool_revenue_stats r (set_revenue_record r s)))

  unfoldable pub record_loss :
      String
      → ℕ
      → String
      → RevenueSource
      → LegacyDec
      → String
      → String
      → String
      → PoolStore
      → Call PoolStore
  record_loss id now pool_id source amount market_id position_id details s =
      record_revenue id now pool_id source (neg amount) market_id position_id details s
