-- ===== src/Riverpool/Store.antt =====
-- x/riverpool/keeper/keeper.go: the store of the module.
use Prim.Native.String.{◌++◌}
use perp_dex.Base.{
  ℕ, String, List, [], ◌∷◌, Option, none, some, same, if◌then◌else◌, ◌&&◌, ◌||◌, leb,
}
use perp_dex.Base.Dict.{Dict, lookup, insert}
use perp_dex.Base.Int.{ℤ, ◌+ℤ◌}
use perp_dex.Decimal.{LegacyDec, zero_dec, Rounding}
use perp_dex.Riverpool.Types.{
  Pool, new_foundation_pool, new_main_pool, Deposit, Withdrawal, is_pending, DdGuardState,
  PoolStats, new_pool_stats, NavHistory,
}

pub data PoolError : Type 0 where
  pool_not_found pool_not_active deposit_too_small deposit_too_large : PoolError
  foundation_pool_full invalid_invite_code insufficient_shares : PoolError
  withdrawal_not_found withdrawal_not_ready unauthorized : PoolError

-- `DailyProcessed`: the amount of one day.
pub record DailyProcessed : Type 0 where
  pub date : ℕ
  pub amount : LegacyDec

pub data RevenueSource : Type 0 where
  spread funding liquidation trading fees : RevenueSource

pub record RevenueRecord : Type 0 where
  pub record_id : String
  pub pool_id : String
  pub source : RevenueSource
  pub amount : LegacyDec
  pub nav_impact : LegacyDec
  pub timestamp : ℕ
  pub market_id : String
  pub position_id : String
  pub details : String

pub record PoolRevenueStats : Type 0 where
  pub pool_id : String
  pub total_revenue : LegacyDec
  pub spread_revenue : LegacyDec
  pub funding_revenue : LegacyDec
  pub liquidation_profit : LegacyDec
  pub trading_pnl : LegacyDec
  pub fee_rebates : LegacyDec
  pub last_updated : ℕ

-- One dictionary for each key prefix; the two indexes lead from "<user>:<ID>" to the ID. An encoded
-- record that does not decode is not modelled.
pub record PoolStore : Type 0 where
  pub pools : Dict Pool
  pub deposits : Dict Deposit
  pub withdrawals : Dict Withdrawal
  pub dd_guard_states : Dict DdGuardState
  pub pool_stats : Dict PoolStats
  pub nav_history : Dict NavHistory
  pub user_deposits : Dict String
  pub user_withdrawals : Dict String
  pub daily_processed : Dict DailyProcessed
  pub revenue_records : Dict RevenueRecord
  pub revenue_stats : Dict PoolRevenueStats

-- The rounding of the decimals, `TruncateInt64`, the digits of a number, and the iterators of the
-- store in the order of their keys: over all records of a kind, and over the entries of an index
-- whose keys have a prefix.
pub record PoolEnv : Type 0 where
  pub rounding : Rounding
  pub open rounding use *
  pub truncate_int : LegacyDec → ℤ
  pub digits : ℕ → String
  pub walk_pools : Dict Pool → List Pool
  pub walk_deposits : Dict Deposit → List Deposit
  pub walk_withdrawals : Dict Withdrawal → List Withdrawal
  pub walk_index : String → Dict String → List String
  pub walk_history : String → Dict NavHistory → List NavHistory

abbrev pub set_pool : Pool → PoolStore → PoolStore
set_pool p s = record s { pools = insert p.pool_id p s.pools }

abbrev pub get_pool : String → PoolStore → Option Pool
get_pool id s = lookup id s.pools

abbrev pub set_pool_stats : PoolStats → PoolStore → PoolStore
set_pool_stats p s = record s { pool_stats = insert p.pool_id p s.pool_stats }

unfoldable pub get_pool_stats : String → PoolStore → PoolStats
get_pool_stats id s = elim (lookup id s.pool_stats) [ some p ↦ p | none ↦ new_pool_stats id ]

-- A default pool that is not there yet.
unfoldable pub init_pool : Pool → PoolStore → PoolStore
init_pool p s = elim (get_pool p.pool_id s) [
  | some q ↦ s
  | none ↦ set_pool_stats (new_pool_stats p.pool_id) (set_pool p s)
]

unfoldable pub init_default_pools : PoolStore → PoolStore
init_default_pools s = init_pool new_main_pool (init_pool new_foundation_pool s)

abbrev pub set_deposit : Deposit → PoolStore → PoolStore
set_deposit d s = record s {
  deposits = insert d.deposit_id d s.deposits;
  user_deposits = insert (d.depositor ++ ":" ++ d.deposit_id) d.deposit_id s.user_deposits;
}

abbrev pub get_deposit : String → PoolStore → Option Deposit
get_deposit id s = lookup id s.deposits

abbrev pub set_withdrawal : Withdrawal → PoolStore → PoolStore
set_withdrawal w s = record s {
  withdrawals = insert w.withdrawal_id w s.withdrawals;
  user_withdrawals =
      insert (w.withdrawer ++ ":" ++ w.withdrawal_id) w.withdrawal_id s.user_withdrawals;
}

abbrev pub get_withdrawal : String → PoolStore → Option Withdrawal
get_withdrawal id s = lookup id s.withdrawals

-- What is stored under the IDs of a list.
unfoldable pub found {ℓ} : {A : Type ℓ} → Dict A → List String → List A
found d [] = []
found d (id ∷ ids) =
    let rest = found d ids in elim (lookup id d) [ some a ↦ a ∷ rest | none ↦ rest ]

abbrev pub set_dd_guard_state : DdGuardState → PoolStore → PoolStore
set_dd_guard_state g s = record s { dd_guard_states = insert g.pool_id g s.dd_guard_states }

abbrev pub get_dd_guard_state : String → PoolStore → Option DdGuardState
get_dd_guard_state id s = lookup id s.dd_guard_states

unfoldable pub pending_of : String → List Withdrawal → List Withdrawal
pending_of pool_id [] = []
pending_of pool_id (w ∷ ws) =
    if same w.pool_id pool_id && is_pending w.status
    then w ∷ pending_of pool_id ws
    else pending_of pool_id ws

unfoldable pub deposits_of : String → List Deposit → List Deposit
deposits_of pool_id [] = []
deposits_of pool_id (d ∷ ds) =
    if same d.pool_id pool_id then d ∷ deposits_of pool_id ds else deposits_of pool_id ds

-- From `from` to `to`, each of which bounds nothing where it is zero.
unfoldable pub between : ℕ → ℕ → List NavHistory → List NavHistory
between from to [] = []
between from to (h ∷ hs) =
    if (leb from 0 || leb from h.timestamp) && (leb to 0 || leb h.timestamp to)
    then h ∷ between from to hs
    else between from to hs

-- The shares and the cost of deposits.
unfoldable pub total_held : List Deposit → LegacyDec × LegacyDec → LegacyDec × LegacyDec
total_held [] t = t
total_held (d ∷ ds) (shares, cost) = total_held ds (shares +ℤ d.shares, cost +ℤ d.amount)

module _ (env : PoolEnv) where
  abbrev pub get_all_pools : PoolStore → List Pool
  get_all_pools s = env.walk_pools s.pools

  unfoldable pub get_user_deposits : String → PoolStore → List Deposit
  get_user_deposits user s = found s.deposits (env.walk_index (user ++ ":") s.user_deposits)

  unfoldable pub get_pool_deposits : String → PoolStore → List Deposit
  get_pool_deposits pool_id s = deposits_of pool_id (env.walk_deposits s.deposits)

  unfoldable pub get_user_withdrawals : String → PoolStore → List Withdrawal
  get_user_withdrawals user s =
      found s.withdrawals (env.walk_index (user ++ ":") s.user_withdrawals)

  unfoldable pub get_pending_withdrawals : String → PoolStore → List Withdrawal
  get_pending_withdrawals pool_id s = pending_of pool_id (env.walk_withdrawals s.withdrawals)

  unfoldable pub add_nav_history : NavHistory → PoolStore → PoolStore
  add_nav_history h s = record s {
    nav_history = insert (h.pool_id ++ ":" ++ env.digits h.timestamp) h s.nav_history;
  }

  unfoldable pub get_nav_history : String → ℕ → ℕ → PoolStore → List NavHistory
  get_nav_history pool_id from to s =
      between from to (env.walk_history (pool_id ++ ":") s.nav_history)

  -- `GetUserPoolBalance`: shares, value and cost.
  unfoldable pub get_user_pool_balance :
      String → String → PoolStore → LegacyDec × LegacyDec × LegacyDec
  get_user_pool_balance pool_id user s =
      let held = total_held (deposits_of pool_id (get_user_deposits user s)) (zero_dec, zero_dec) in
      elim (get_pool pool_id s) [
        | none ↦ (zero_dec, zero_dec, zero_dec)
        | some p ↦ (held.0, env.mul held.0 p.nav, held.1)
      ]
