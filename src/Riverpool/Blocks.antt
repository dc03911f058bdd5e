-- ===== src/Riverpool/Blocks.antt =====
-- x/riverpool/keeper/abci.go: the end blocker of the module. `now` is the time of the block's work,
-- which the source reads from the clock of the machine. Logs, timings and events are left out.
use perp_dex.Base.{
  ℕ, suc, ◌-◌, ◌%◌, Bool, String, List, [], ◌∷◌, none, some, ◌&&◌, if◌then◌else◌, leb,
}
use perp_dex.Base.Dict.{lookup, insert}
use perp_dex.Base.Int.{◌+ℤ◌, ◌-ℤ◌}
use perp_dex.Decimal.{LegacyDec, zero_dec, new_dec_with_prec, gt, gte, lt, lte}
use perp_dex.Riverpool.Types.{
  Pool, day, active, paused, is_active, is_paused, is_closed, normal, halt, DdGuardState,
  Withdrawal, completed, processing,
}
use perp_dex.Riverpool.Store.{
  PoolStore, PoolEnv, DailyProcessed, get_all_pools, set_pool, set_withdrawal,
  get_pending_withdrawals, get_dd_guard_state,
}
use perp_dex.Riverpool.Nav.{update_all_pool_navs, same_level}
use perp_dex.Riverpool.Withdrawals.{remaining_shares, pool_less}

-- The start of the day.
abbrev pub today : ℕ → ℕ
today now = now - now % day

-- `GetDailyProcessedAmount`: what was stored for another day counts for nothing.
unfoldable pub get_daily_processed_amount : ℕ → String → PoolStore → LegacyDec
get_daily_processed_amount now id s = elim (lookup id s.daily_processed) [
  | none ↦ zero_dec
  | some d ↦ if leb d.date (today now) && leb (today now) d.date then d.amount else zero_dec
]

unfoldable pub add_daily_processed_amount : ℕ → String → LegacyDec → PoolStore → PoolStore
add_daily_processed_amount now id amount s =
    let d : DailyProcessed = record {
      date = today now;
      amount = get_daily_processed_amount now id s +ℤ amount;
    } in
    record s { daily_processed = insert id d s.daily_processed }

-- The withdrawals that may be paid now.
unfoldable pub available_of : ℕ → List Withdrawal → List Withdrawal
available_of now [] = []
available_of now (w ∷ ws) =
    if leb w.available_at now then w ∷ available_of now ws else available_of now ws

-- A withdrawal that the block pays.
unfoldable pub pay : ℕ → LegacyDec → LegacyDec → Withdrawal → Withdrawal
pay now shares amount w =
    let full = gte (w.shares_redeemed +ℤ shares) w.shares_requested in
    record w {
      shares_redeemed = w.shares_redeemed +ℤ shares;
      amount_received = w.amount_received +ℤ amount;
      status = if full then completed else processing;
      completed_at = if full then now else w.completed_at;
    }

-- What the loop over the withdrawals of a pool carries: the pool, which is saved after the loop.
pub record Work : Type 0 where
  pub pool : Pool
  pub store : PoolStore
  pub count : ℕ

-- The guard has the pool pause, or trade again: at the halt level, and at the normal level where
-- the drawdown is below 5%.
unfoldable pub halts : DdGuardState → Pool → Bool
halts g p = same_level g.level halt && is_active p.status

unfoldable pub resumes : DdGuardState → Pool → Bool
resumes g p =
    is_paused p.status
    && (same_level g.level normal && lt g.drawdown_percent (new_dec_with_prec 5 2))

unfoldable pub guard_pool : DdGuardState → Pool → PoolStore → PoolStore
guard_pool g p s =
    if halts g p
    then set_pool (record p { status = paused }) s
    else if resumes g p
    then set_pool (record p { status = active }) s
    else s

-- `CheckDDGuardActions`: one pool's turn.
unfoldable pub check_pool : Pool → PoolStore → PoolStore
check_pool p s = elim (get_dd_guard_state p.pool_id s) [
  | none ↦ s
  | some g ↦ if is_closed p.status then s else guard_pool g p s
]

unfoldable pub check_pools : List Pool → PoolStore → PoolStore
check_pools [] s = s
check_pools (p ∷ ps) s = check_pools ps (check_pool p s)

module _ (env : PoolEnv) where
  -- The value of what the withdrawals have still to redeem.
  unfoldable pub pending_value : Pool → List Withdrawal → LegacyDec → LegacyDec
  pending_value p [] total = total
  pending_value p (w ∷ ws) total = pending_value p ws (total +ℤ env.mul (remaining_shares w) p.nav)

  -- The shares that one withdrawal redeems, of a pool with `available` for `total`.
  unfoldable pub shares_to_process : LegacyDec → LegacyDec → LegacyDec → LegacyDec → LegacyDec
  shares_to_process available total nav shares =
      let allocation = env.mul available (env.quo (env.mul shares nav) total) in
      let prorated = env.quo allocation nav in
      if gt total available then (if gt prorated shares then shares else prorated) else shares

  -- One withdrawal's turn.
  unfoldable pub process_withdrawal : ℕ → LegacyDec → LegacyDec → Withdrawal → Work → Work
  process_withdrawal now available total w k =
      let left = remaining_shares w in
      let shares = shares_to_process available total k.pool.nav left in
      let amount = env.mul shares k.pool.nav in
      if lte left zero_dec then k else record {
        pool = pool_less shares amount k.pool;
        store =
            add_daily_processed_amount now k.pool.pool_id amount
              (set_withdrawal (pay now shares amount w) k.store);
        count = suc k.count;
      }

  unfoldable pub process_withdrawals : ℕ → LegacyDec → LegacyDec → List Withdrawal → Work → Work
  process_withdrawals now available total [] k = k
  process_withdrawals now available total (w ∷ ws) k =
      process_withdrawals now available total ws (process_withdrawal now available total w k)

  -- The pool is saved where some withdrawal is ready.
  unfoldable pub process_available :
      ℕ → LegacyDec → Pool → List Withdrawal → ℕ → PoolStore → ℕ × PoolStore
  process_available now available p [] n s = (n, s)
  process_available now available p (w ∷ ws) n s =
      let start : Work = record { pool = p; store = s; count = n } in
      let total = pending_value p (w ∷ ws) zero_dec in
      let k = process_withdrawals now available total (w ∷ ws) start in
      (k.count, set_pool k.pool k.store)

  -- What the daily limit of a pool leaves for the day.
  unfoldable pub available_today : ℕ → Pool → PoolStore → LegacyDec
  available_today now p s =
      env.mul p.total_deposits p.daily_redemption_limit
      -ℤ get_daily_processed_amount now p.pool_id s

  -- One pool's turn.
  unfoldable pub process_pool : ℕ → Pool → ℕ × PoolStore → ℕ × PoolStore
  process_pool now p (n, s) =
      let available = available_today now p s in
      if is_closed p.status
      then (n, s)
      else if lte available zero_dec
      then (n, s)
      else process_available now available p
          (available_of now (get_pending_withdrawals env p.pool_id s)) n s

  unfoldable pub process_pools : ℕ → List Pool → ℕ × PoolStore → ℕ × PoolStore
  process_pools now [] k = k
  process_pools now (p ∷ ps) k = process_pools now ps (process_pool now p k)

  -- `ProcessReadyWithdrawals`: how many it paid, and the store.
  unfoldable pub process_ready_withdrawals : ℕ → PoolStore → ℕ × PoolStore
  process_ready_withdrawals now s = process_pools now (get_all_pools env s) (0, s)

  unfoldable pub check_dd_guard_actions : PoolStore → PoolStore
  check_dd_guard_actions s = check_pools (get_all_pools env s) s

  -- `EndBlocker`
  unfoldable pub end_blocker : ℕ → PoolStore → PoolStore
  end_blocker now s =
      check_dd_guard_actions (process_ready_withdrawals now (update_all_pool_navs env now s)).1
