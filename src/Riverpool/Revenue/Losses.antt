-- ===== src/Riverpool/Revenue/Losses.antt =====
-- x/riverpool/keeper/revenue.go: what a recorded loss does to the pools.
use perp_dex.Base.{ℕ, String, ◌≡◌, refl, false, some, arith, ap}
use perp_dex.Base.Int.{◌≤ℤ◌, -ℤ_parts}
use perp_dex.Base.Outcome.{done}
use perp_dex.Decimal.{LegacyDec, zero_dec, gt, neg}
use perp_dex.Riverpool.Types.{Pool}
use perp_dex.Riverpool.Store.{RevenueSource, PoolStore, PoolEnv, get_pool}
use perp_dex.Riverpool.Deposits.{found_or}
use perp_dex.Riverpool.Revenue.{
  set_revenue_record, set_pool_revenue_stats, update_pool_revenue_stats, add_gain, record_revenue,
  record_loss,
}

loss_no-gain : (amount : LegacyDec) → zero_dec ≤ℤ amount → gt (neg amount) zero_dec ≡ false
loss_no-gain amount h = ground (arith, -ℤ_parts zero_dec amount)

add_gain-no_gain :
    (env : PoolEnv) (amount : LegacyDec) (p : Pool) (s : PoolStore)
    → gt amount zero_dec ≡ false
    → add_gain env amount p s ≡ s
unfolding add_gain
add_gain-no_gain env amount p s h = rw h refl

-- A loss that is recorded of a pool leaves every pool as it was: neither the deposits nor the value
-- per share fall, whatever is lost.
pub record_loss-pools :
    (env : PoolEnv) (id : String) (now : ℕ) (pool_id : String) (source : RevenueSource)
    (amount : LegacyDec) (market_id position_id details : String) (s : PoolStore) (p : Pool)
    → get_pool pool_id s ≡ some p
    → zero_dec ≤ℤ amount
    → (s' : PoolStore) × (record_loss env id now pool_id source amount market_id position_id details
          s
        ≡ done s')
      × (s'.pools ≡ s.pools)
unfolding record_loss record_revenue found_or set_revenue_record set_pool_revenue_stats
    update_pool_revenue_stats
record_loss-pools env id now pool_id source amount market_id position_id details s p h ha =
    rw (h, record_loss, record_revenue)
      (_, refl, ap (λ x. x.pools) (add_gain-no_gain env (neg amount) p _ (loss_no-gain amount ha)))
