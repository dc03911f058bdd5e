-- ===== src/Riverpool/Withdrawals.antt =====
-- x/riverpool/keeper/withdrawal.go: withdrawals are requested, claimed and cancelled. `now` is the
-- time of a call and `id` the ID that it draws.
pub mod Redeemed
pub mod Claim
pub mod ByTime
pub mod Fifo
use Prim.Native.Nat.{suc}
use perp_dex.Base.{
  ℕ, ◌+◌, Bool, true, false, not, String, List, [], ◌∷◌, Option, none, some, same, if◌then◌else◌,
  ◌&&◌, ◌||◌, leb, ltb,
}
use perp_dex.Base.Int.{◌+ℤ◌, ◌-ℤ◌}
use perp_dex.Base.Outcome.{done, panicked, ◌>>=◌, ◌>>◌}
use perp_dex.Decimal.{LegacyDec, zero_dec, gt, gte, lte, is_zero, is_positive, is_negative}
use perp_dex.Riverpool.Types.{
  Pool, is_active, Deposit, is_locked, Withdrawal, new_withdrawal, is_ready, is_pending,
  is_completed, completed, processing, cancelled, calculate_value_for_shares,
}
use perp_dex.Riverpool.Store.{
  PoolError, pool_not_found, pool_not_active, insufficient_shares, withdrawal_not_found,
  withdrawal_not_ready, unauthorized, PoolStore, PoolEnv, get_pool, set_pool, set_deposit,
  get_withdrawal, set_withdrawal, get_pool_stats, set_pool_stats, get_user_deposits,
  get_pending_withdrawals,
}
use perp_dex.Riverpool.Deposits.{Call, found_or, check, get_user_available_shares}

-- The shares that a withdrawal has still to redeem.
abbrev pub remaining_shares : Withdrawal → LegacyDec
remaining_shares w = w.shares_requested -ℤ w.shares_redeemed

-- The deposits of a pool that a user can take shares from.
unfoldable pub unlocked_deposits : ℕ → String → List Deposit → List Deposit
unlocked_deposits now pool_id [] = []
unlocked_deposits now pool_id (d ∷ ds) =
    if same d.pool_id pool_id && not (is_locked now d) && is_positive d.shares
    then d ∷ unlocked_deposits now pool_id ds
    else unlocked_deposits now pool_id ds

-- `sort.Slice` by the time of the deposit. Where two have one time the order of the source is not
-- determined beyond twelve deposits, up to which the sort is this insertion.
unfoldable pub insert_by_time : Deposit → List Deposit → List Deposit
insert_by_time d [] = d ∷ []
insert_by_time d (e ∷ es) =
    if ltb d.deposited_at e.deposited_at then d ∷ e ∷ es else e ∷ insert_by_time d es

unfoldable pub sort_by_time : List Deposit → List Deposit → List Deposit
sort_by_time sorted [] = sorted
sort_by_time sorted (d ∷ ds) = sort_by_time (insert_by_time d sorted) ds

-- The loop of `reduceUserShares`: the deposits that it saves.
unfoldable pub reduce_deposits : LegacyDec → List Deposit → List Deposit
reduce_deposits remaining [] = []
reduce_deposits remaining (d ∷ ds) =
    let rest = reduce_deposits (remaining -ℤ d.shares) ds in
    if is_zero remaining || is_negative remaining
    then []
    else if lte d.shares remaining
    then record d { shares = zero_dec } ∷ rest
    else record d { shares = d.shares -ℤ remaining } ∷ []

unfoldable pub set_deposits : List Deposit → PoolStore → PoolStore
set_deposits [] s = s
set_deposits (d ∷ ds) s = set_deposits ds (set_deposit d s)

-- The shares that the withdrawals that are ready have still to redeem.
unfoldable pub ready_shares : ℕ → List Withdrawal → LegacyDec → LegacyDec
ready_shares now [] total = total
ready_shares now (w ∷ ws) total =
    ready_shares now ws (if is_ready now w then total +ℤ remaining_shares w else total)

-- `GetQueuePosition`: the place among the pending withdrawals by the time of request, from one.
unfoldable pub insert_by_request : Withdrawal → List Withdrawal → List Withdrawal
insert_by_request w [] = w ∷ []
insert_by_request w (v ∷ vs) =
    if ltb w.requested_at v.requested_at then w ∷ v ∷ vs else v ∷ insert_by_request w vs

unfoldable pub sort_by_request : List Withdrawal → List Withdrawal → List Withdrawal
sort_by_request sorted [] = sorted
sort_by_request sorted (w ∷ ws) = sort_by_request (insert_by_request w sorted) ws

unfoldable pub position_of : String → ℕ → List Withdrawal → ℕ
position_of id i [] = 0
position_of id i (w ∷ ws) = if same w.withdrawal_id id then suc i else position_of id (suc i) ws

-- A withdrawal that redeems `shares` for `amount`.
unfoldable pub redeem : ℕ → LegacyDec → LegacyDec → Withdrawal → Withdrawal
redeem now shares amount w = record w {
  shares_redeemed = w.shares_redeemed +ℤ shares;
  amount_received = w.amount_received +ℤ amount;
  completed_at = now;
  status = if gte (w.shares_redeemed +ℤ shares) w.shares_requested then completed else processing;
}

unfoldable pub pool_less : LegacyDec → LegacyDec → Pool → Pool
pool_less shares amount p = record p {
  total_deposits = p.total_deposits -ℤ amount;
  total_shares = p.total_shares -ℤ shares;
}

unfoldable pub cancel : ℕ → Withdrawal → Withdrawal
cancel now w = record w { status = cancelled; completed_at = now }

module _ (env : PoolEnv) where
  unfoldable pub reduce_user_shares : ℕ → String → String → LegacyDec → PoolStore → PoolStore
  reduce_user_shares now user pool_id shares s =
      let ds = unlocked_deposits now pool_id (get_user_deposits env user s) in
      set_deposits (reduce_deposits shares (sort_by_time [] ds)) s

  unfoldable pub get_queue_position : String → String → PoolStore → ℕ
  get_queue_position pool_id id s =
      position_of id 0 (sort_by_request [] (get_pending_withdrawals env pool_id s))

  -- The amount by which the pending withdrawals of a pool change in its statistics.
  unfoldable pub add_pending : String → LegacyDec → PoolStore → PoolStore
  add_pending pool_id amount s =
      let stats = get_pool_stats pool_id s in
      set_pool_stats
        (record stats { total_pending_withdrawals = stats.total_pending_withdrawals +ℤ amount }) s

  unfoldable pub request_withdrawal :
      String → ℕ → String → String → LegacyDec → PoolStore → Call (Withdrawal × PoolStore)
  request_withdrawal id now withdrawer pool_id shares s = do
    p ← found_or pool_not_found (get_pool pool_id s)
    check pool_not_active (is_active p.status)
    check insufficient_shares
        (not (gt shares (get_user_available_shares env now pool_id withdrawer s)))
    let w = new_withdrawal id now pool_id withdrawer shares p.nav p.redemption_delay_days
    done (
      w,
      add_pending pool_id (calculate_value_for_shares env.rounding shares p) (set_withdrawal w s),
    )

  -- The limit of a day, and the value of what is ready among the pending withdrawals.
  unfoldable pub limit_of : Pool → LegacyDec
  limit_of p = env.mul p.total_deposits p.daily_redemption_limit

  unfoldable pub waiting_value : ℕ → Pool → PoolStore → LegacyDec
  waiting_value now p s =
      calculate_value_for_shares env.rounding
        (ready_shares now (get_pending_withdrawals env p.pool_id s) zero_dec) p

  -- `calculateProRataRedemption`: the shares to redeem. A quotient by zero panics.
  unfoldable pub shares_to_redeem : ℕ → Pool → Withdrawal → PoolStore → Call LegacyDec
  unfolding limit_of waiting_value
  shares_to_redeem now p w s =
      let remaining = remaining_shares w in
      let limit = limit_of p in
      let value = waiting_value now p s in
      if is_zero remaining || is_negative remaining
      then done zero_dec
      else if is_zero limit
      then done remaining
      else if gt value limit
      then (if is_zero value then panicked else done (env.mul remaining (env.quo limit value)))
      else done remaining

  -- Its amount: nothing where nothing remains, else the value of the shares.
  unfoldable pub amount_to_receive : Pool → Withdrawal → LegacyDec → LegacyDec
  amount_to_receive p w shares =
      let remaining = remaining_shares w in
      if is_zero remaining || is_negative remaining
      then zero_dec
      else calculate_value_for_shares env.rounding shares p

  -- What `ClaimWithdrawal` writes.
  unfoldable pub save_claim : ℕ → LegacyDec → LegacyDec → Pool → Withdrawal → PoolStore → PoolStore
  save_claim now shares amount p w s =
      let p' = pool_less shares amount p in
      let reduced = reduce_user_shares now w.withdrawer w.pool_id shares s in
      let s' = set_pool p' (set_withdrawal (redeem now shares amount w) reduced) in
      let stats = get_pool_stats w.pool_id s' in
      set_pool_stats
        (record stats {
          total_value_locked = p'.total_deposits;
          total_pending_withdrawals = stats.total_pending_withdrawals -ℤ amount;
        })
        s'

  -- What a claim of `shares` gives: the withdrawal, the amount that is received, and the store.
  unfoldable pub claim_shares :
      ℕ → Pool → Withdrawal → PoolStore → LegacyDec → Withdrawal × LegacyDec × PoolStore
  claim_shares now p w s shares =
      let amount = amount_to_receive p w shares in
      (redeem now shares amount w, amount, save_claim now shares amount p w s)

  unfoldable pub claim_at :
      ℕ → Pool → Withdrawal → PoolStore → Call (Withdrawal × LegacyDec × PoolStore)
  claim_at now p w s = do shares ← shares_to_redeem now p w s; done (claim_shares now p w s shares)

  unfoldable pub claim_withdrawal :
      ℕ → String → String → PoolStore → Call (Withdrawal × LegacyDec × PoolStore)
  claim_withdrawal now withdrawer id s = do
    w ← found_or withdrawal_not_found (get_withdrawal id s)
    check unauthorized (same w.withdrawer withdrawer)
    check withdrawal_not_ready (is_ready now w)
    check withdrawal_not_found (not (is_completed w.status))
    p ← found_or pool_not_found (get_pool w.pool_id s)
    claim_at now p w s

  -- What the cancellation takes from the statistics of a pool that is found.
  unfoldable pub release_pending : Withdrawal → Option Pool → PoolStore → PoolStore
  release_pending w none s = s
  release_pending w (some p) s =
      let amount = calculate_value_for_shares env.rounding (remaining_shares w) p in
      let stats = get_pool_stats w.pool_id s in
      set_pool_stats
        (record stats { total_pending_withdrawals = stats.total_pending_withdrawals -ℤ amount }) s

  unfoldable pub cancel_withdrawal : ℕ → String → String → PoolStore → Call (Withdrawal × PoolStore)
  cancel_withdrawal now withdrawer id s = do
    w ← found_or withdrawal_not_found (get_withdrawal id s)
    check unauthorized (same w.withdrawer withdrawer)
    check withdrawal_not_found (is_pending w.status)
    let w' = cancel now w
    done (w', release_pending w' (get_pool w.pool_id s) (set_withdrawal w' s))
