-- ===== src/Riverpool/Deposits.antt =====
-- x/riverpool/keeper/deposit.go: deposits into a pool. `now` is the time of a call, which the source
-- reads from the clock of the machine more than once, and `id` the ID that it draws.
use perp_dex.Base.{
  ℕ, suc, Bool, true, false, not, String, List, [], ◌∷◌, Option, none, some, same, if◌then◌else◌,
  ◌&&◌,
}
use perp_dex.Base.Int.{◌+ℤ◌}
use perp_dex.Base.Outcome.{Outcome, done, failed, ◌>>=◌, ◌>>◌}
use perp_dex.Decimal.{LegacyDec, zero_dec, lt, gt, equal, is_zero}
use perp_dex.Riverpool.Types.{
  Pool, is_active, is_foundation, foundation_seat_size, foundation_points_per_seat,
  has_available_seats, calculate_shares_for_deposit, Deposit, new_deposit, is_locked,
}
use perp_dex.Riverpool.Store.{
  PoolError, pool_not_found, pool_not_active, deposit_too_small, deposit_too_large,
  foundation_pool_full, invalid_invite_code, PoolStore, PoolEnv, get_pool, set_pool, set_deposit,
  get_pool_stats, set_pool_stats, get_user_deposits,
}

-- An error of the module's calls leaves the store as it was.
abbrev pub Call : Type 0 → Type 0
Call A = Outcome PoolError A

unfoldable pub found_or : {A : Type 0} → PoolError → Option A → Call A
found_or e (some a) = done a
found_or e none = failed e

-- A test that ends a call in an error where it fails.
unfoldable pub check : PoolError → Bool → Call Unit
check e true = done tt
check e false = failed e

-- The shares of a user's deposits in a pool.
unfoldable pub sum_shares : String → List Deposit → LegacyDec → LegacyDec
sum_shares pool_id [] total = total
sum_shares pool_id (d ∷ ds) total =
    if same d.pool_id pool_id
    then sum_shares pool_id ds (total +ℤ d.shares)
    else sum_shares pool_id ds total

unfoldable pub sum_unlocked : ℕ → String → List Deposit → LegacyDec → LegacyDec
sum_unlocked now pool_id [] total = total
sum_unlocked now pool_id (d ∷ ds) total =
    if same d.pool_id pool_id && not (is_locked now d)
    then sum_unlocked now pool_id ds (total +ℤ d.shares)
    else sum_unlocked now pool_id ds total

module _ (env : PoolEnv) where
  -- The checks of the foundation pool: a free seat, and the price of one.
  unfoldable pub check_seat : LegacyDec → Pool → Call Unit
  check_seat amount p =
      if is_foundation p.pool_type
      then (do
        check foundation_pool_full (has_available_seats env.rounding env.truncate_int p)
        check deposit_too_small (equal amount foundation_seat_size))
      else done tt

  -- What `Deposit` checks of the pool, in the source's order.
  unfoldable pub check_deposit : LegacyDec → String → Pool → Call Unit
  check_deposit amount invite_code p = do
    check pool_not_active (is_active p.status)
    check deposit_too_small (not (lt amount p.min_deposit))
    check deposit_too_large (not (not (is_zero p.max_deposit) && gt amount p.max_deposit))
    check_seat amount p
    check invalid_invite_code (not (p.is_private && not (same p.invite_code invite_code)))

  unfoldable pub deposit_of : String → ℕ → String → LegacyDec → Pool → Deposit
  deposit_of id now depositor amount p =
      let d =
        new_deposit id now p.pool_id depositor amount
          (calculate_shares_for_deposit env.rounding amount p) p.nav p.lock_period_days in
      if is_foundation p.pool_type
      then record d { points_earned = foundation_points_per_seat }
      else d

  unfoldable pub pool_with : LegacyDec → LegacyDec → Pool → Pool
  pool_with amount shares p = record p {
    total_deposits = p.total_deposits +ℤ amount;
    total_shares = p.total_shares +ℤ shares;
  }

  -- What `Deposit` writes once its checks have passed.
  unfoldable pub save_deposit : LegacyDec → Deposit → Pool → PoolStore → PoolStore
  save_deposit amount d p s =
      let p' = pool_with amount d.shares p in
      let s' = set_pool p' (set_deposit d s) in
      let stats = get_pool_stats p.pool_id s' in
      set_pool_stats
        (record stats {
          total_value_locked = p'.total_deposits;
          total_depositors = suc stats.total_depositors;
        })
        s'

  -- `Deposit`: the deposit and the store.
  unfoldable pub make_deposit :
      String → ℕ → String → String → LegacyDec → String → PoolStore → Call (Deposit × PoolStore)
  make_deposit id now depositor pool_id amount invite_code s = do
    p ← found_or pool_not_found (get_pool pool_id s)
    check_deposit amount invite_code p
    let d = deposit_of id now depositor amount p
    done (d, save_deposit amount d p s)

  unfoldable pub get_user_total_shares : String → String → PoolStore → LegacyDec
  get_user_total_shares pool_id user s = sum_shares pool_id (get_user_deposits env user s) zero_dec

  unfoldable pub get_user_available_shares : ℕ → String → String → PoolStore → LegacyDec
  get_user_available_shares now pool_id user s =
      sum_unlocked now pool_id (get_user_deposits env user s) zero_dec
