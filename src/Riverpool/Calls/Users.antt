-- ===== src/Riverpool/Calls/Users.antt =====
-- x/riverpool/keeper: deposits, withdrawals and revenue keep the stored pools marked.
use perp_dex.Base.{ℕ, String, Option, none, some, not, same, ◌&&◌, Bool-cases, inl, inr, subst, sym}
use perp_dex.Base.Int.{◌+ℤ◌}
use perp_dex.Decimal.{LegacyDec, gt, lt, zero_dec, is_zero}
use perp_dex.Riverpool.Types.{Pool, is_active, Withdrawal, is_foundation}
use perp_dex.Riverpool.Store.{
  pool_not_active, deposit_too_small, deposit_too_large, invalid_invite_code, RevenueSource,
  PoolStore, PoolEnv, get_pool, set_deposit,
}
use perp_dex.Riverpool.Deposits.{
  check_seat, check_deposit, deposit_of, pool_with, save_deposit, make_deposit,
}
use perp_dex.Riverpool.Nav.Guard.{IsMarked, update_nav-Marks}
use perp_dex.Riverpool.Withdrawals.{
  reduce_user_shares, pool_less, save_claim, claim_at, claim_shares, shares_to_redeem,
  claim_withdrawal, add_pending, request_withdrawal, release_pending, cancel_withdrawal, cancel,
}
use perp_dex.Riverpool.Withdrawals.Claim.{set_deposits-pools}
use perp_dex.Riverpool.Revenue.{
  set_revenue_record, set_pool_revenue_stats, update_pool_revenue_stats, add_gain, record_revenue,
}
use perp_dex.Riverpool.Calls.Marked.{
  AllMarked, Ends, Ends-done, Ends-then, Ends-bind, Ends-check, Ends-found, check-Ends,
  found-IsMarked, insert-AllMarked, set_pool-AllMarked, if-AllMarked, pool_less-IsMarked,
  with_deposits-IsMarked,
}

module _ (env : PoolEnv) where
  release_pending-AllMarked :
      (w : Withdrawal) (o : Option Pool) (s : PoolStore)
      → AllMarked s.pools
      → AllMarked (release_pending env w o s).pools
  unfolding release_pending
  release_pending-AllMarked w none s h = h
  release_pending-AllMarked w (some p) s h = h

  check_seat-Ends : (amount : LegacyDec) (p : Pool) → Ends (λ _. Unit) (check_seat env amount p)
  unfolding check_seat
  check_seat-Ends amount p = elim (Bool-cases (is_foundation p.pool_type)) [
    | inl e ↦ rw e (Ends-check _ _ _ _ (check-Ends _ _))
    | inr e ↦ rw e (Ends-done _ _ tt)
  ]

  check_deposit-Ends :
      (amount : LegacyDec) (code : String) (p : Pool)
      → Ends (λ _. Unit) (check_deposit env amount code p)
  unfolding check_deposit
  check_deposit-Ends amount code p = Ends-check _ pool_not_active (is_active p.status) _ (
      Ends-check _ deposit_too_small (not (lt amount p.min_deposit)) _ (
        Ends-check _ deposit_too_large
          (not (not (is_zero p.max_deposit) && gt amount p.max_deposit)) _
          (Ends-then _ (check_seat env amount p) _ (check_seat-Ends amount p) (
            check-Ends invalid_invite_code (not (p.is_private && not (same p.invite_code code)))))))

  pool_with-IsMarked :
      (amount shares : LegacyDec) (p : Pool) → IsMarked p → IsMarked (pool_with env amount shares p)
  unfolding pool_with
  pool_with-IsMarked amount shares p m = record {
    mark_start = m.mark_start;
    nav_le = m.nav_le;
    level_eq = m.level_eq;
  }

  save_claim-AllMarked :
      (now : ℕ) (shares amount : LegacyDec) (p : Pool) (w : Withdrawal) (s : PoolStore)
      → IsMarked p
      → AllMarked s.pools
      → AllMarked (save_claim env now shares amount p w s).pools
  unfolding save_claim reduce_user_shares
  save_claim-AllMarked now shares amount p w s m h =
      insert-AllMarked (pool_less shares amount p) _ (pool_less-IsMarked shares amount p m)
        (subst AllMarked (sym (set_deposits-pools _ s).0) h)

  pub make_deposit-AllMarked :
      (id : String) (now : ℕ) (depositor pool_id : String) (amount : LegacyDec) (code : String)
      (s : PoolStore)
      → AllMarked s.pools
      → Ends (λ r. AllMarked r.1.pools) (make_deposit env id now depositor pool_id amount code s)
  unfolding make_deposit save_deposit
  make_deposit-AllMarked id now depositor pool_id amount code s h =
      Ends-found _ _ (get_pool pool_id s) _ (λ p e.
        Ends-then _ (check_deposit env amount code p) _ (check_deposit-Ends amount code p) (
          Ends-done _ _ (
            set_pool-AllMarked
              (pool_with env amount (deposit_of env id now depositor amount p).shares p)
              (set_deposit (deposit_of env id now depositor amount p) s)
              (pool_with-IsMarked amount _ p (found-IsMarked pool_id p s.pools h e)) h)))

  pub request_withdrawal-AllMarked :
      (id : String) (now : ℕ) (withdrawer pool_id : String) (shares : LegacyDec) (s : PoolStore)
      → AllMarked s.pools
      → Ends (λ r. AllMarked r.1.pools) (request_withdrawal env id now withdrawer pool_id shares s)
  unfolding request_withdrawal add_pending
  request_withdrawal-AllMarked id now withdrawer pool_id shares s h =
      Ends-found _ _ (get_pool pool_id s) _
        (λ p e. Ends-check _ _ _ _ (Ends-check _ _ _ _ (Ends-done _ _ h)))

  pub claim_withdrawal-AllMarked :
      (now : ℕ) (withdrawer id : String) (s : PoolStore)
      → AllMarked s.pools
      → Ends (λ r. AllMarked r.2.pools) (claim_withdrawal env now withdrawer id s)
  unfolding claim_withdrawal claim_at claim_shares
  claim_withdrawal-AllMarked now withdrawer id s h = Ends-found {A = Withdrawal} _ _ _ _ (λ w e.
      Ends-check _ _ _ _ (
        Ends-check _ _ _ _ (
          Ends-check _ _ _ _ (
            Ends-found _ _ (get_pool w.pool_id s) _ (λ p e'.
              Ends-bind _ (shares_to_redeem env now p w s) _ (λ shares. Ends-done _ _ (
                save_claim-AllMarked now _ _ p w s (found-IsMarked w.pool_id p s.pools h e')
                  h)))))))

  pub cancel_withdrawal-AllMarked :
      (now : ℕ) (withdrawer id : String) (s : PoolStore)
      → AllMarked s.pools
      → Ends (λ r. AllMarked r.1.pools) (cancel_withdrawal env now withdrawer id s)
  unfolding cancel_withdrawal
  cancel_withdrawal-AllMarked now withdrawer id s h = Ends-found {A = Withdrawal} _ _ _ _ (λ w e.
      Ends-check _ _ _ _ (
        Ends-check _ _ _ _
          (Ends-done _ _ (release_pending-AllMarked (cancel now w) (get_pool w.pool_id s) _ h))))

  pub record_revenue-AllMarked :
      (id : String) (now : ℕ) (pool_id : String) (source : RevenueSource) (amount : LegacyDec)
      (market_id position_id details : String) (s : PoolStore)
      → AllMarked s.pools
      → Ends
          (λ s'. AllMarked s'.pools)
          (record_revenue env id now pool_id source amount market_id position_id details s)
  unfolding record_revenue add_gain set_revenue_record set_pool_revenue_stats
      update_pool_revenue_stats
  record_revenue-AllMarked id now pool_id source amount market_id position_id details s h =
      Ends-found _ _ (get_pool pool_id s) _ (λ p e. Ends-done _ _ (
        if-AllMarked (gt amount zero_dec) _ _
          (insert-AllMarked _ s.pools
            (update_nav-Marks env.rounding _
              (record p { total_deposits = p.total_deposits +ℤ amount })
              (with_deposits-IsMarked _ p (found-IsMarked pool_id p s.pools h e))).marked
            h)
          h))
