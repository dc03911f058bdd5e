-- ===== src/Riverpool/Types.antt =====
-- x/riverpool/types/types.go: pools, deposits and withdrawals with their methods. The texts that
-- stand for a type, a status or a level are data types here. Times are seconds since 1970; those
-- that are only recorded are left out, as are descriptions and the fields of PoolStats that no
-- operation writes. `none` is a decimal that is not set.
use perp_dex.Base.{
  ℕ, ◌+◌, ◌*◌, Bool, true, false, String, List, [], Option, none, if◌then◌else◌, ◌||◌, ltb, leb,
}
use perp_dex.Base.Int.{ℤ, pos, ◌-ℤ◌, ltb_ℤ}
use perp_dex.Decimal.{
  LegacyDec, zero_dec, one_dec, new_dec, new_dec_with_prec, gt, gte, is_zero, is_positive,
  is_negative, Rounding,
}

pub data PoolType : Type 0 where
  foundation main community : PoolType

abbrev pub is_foundation : PoolType → Bool
is_foundation foundation = true
is_foundation _ = false

pub data PoolStatus : Type 0 where
  active paused closed : PoolStatus

abbrev pub is_active : PoolStatus → Bool
is_active active = true
is_active _ = false

abbrev pub is_paused : PoolStatus → Bool
is_paused paused = true
is_paused _ = false

abbrev pub is_closed : PoolStatus → Bool
is_closed closed = true
is_closed _ = false

pub data DdGuardLevel : Type 0 where
  normal warning reduce halt : DdGuardLevel

pub data WithdrawalStatus : Type 0 where
  pending processing completed cancelled : WithdrawalStatus

abbrev pub is_pending : WithdrawalStatus → Bool
is_pending pending = true
is_pending _ = false

abbrev pub is_completed : WithdrawalStatus → Bool
is_completed completed = true
is_completed _ = false

-- The thresholds of the drawdown guard: 10%, 15% and 30%.
abbrev pub warning_threshold : LegacyDec
warning_threshold = new_dec_with_prec 10 2

abbrev pub reduce_threshold : LegacyDec
reduce_threshold = new_dec_with_prec 15 2

abbrev pub halt_threshold : LegacyDec
halt_threshold = new_dec_with_prec 30 2

-- The constants of the foundation pool and the main pool.
abbrev pub foundation_seat_count : ℕ
foundation_seat_count = 100

abbrev pub foundation_seat_size : LegacyDec
foundation_seat_size = new_dec 100000

abbrev pub foundation_points_per_seat : LegacyDec
foundation_points_per_seat = new_dec 5000000

pub record Pool : Type 0 where
  pub pool_id : String
  pub pool_type : PoolType
  pub name : String
  pub status : PoolStatus
  pub total_deposits : LegacyDec
  pub total_shares : LegacyDec
  pub nav : LegacyDec
  pub high_water_mark : LegacyDec
  pub current_drawdown : LegacyDec
  pub dd_guard_level : DdGuardLevel
  pub min_deposit : LegacyDec
  pub max_deposit : LegacyDec
  pub lock_period_days : ℕ
  pub redemption_delay_days : ℕ
  pub daily_redemption_limit : LegacyDec
  pub management_fee : LegacyDec
  pub performance_fee : LegacyDec
  pub owner : String
  pub owner_min_stake : Option LegacyDec
  pub owner_current_stake : Option LegacyDec
  pub is_private : Bool
  pub invite_code : String
  pub total_holders : ℕ
  pub allowed_markets : List String
  pub max_leverage : Option LegacyDec
  pub tags : List String
  pub seats_available : ℕ
  pub seats_total : ℕ

unfoldable pub new_foundation_pool : Pool
new_foundation_pool = record {
  pool_id = "foundation-lp";
  pool_type = foundation;
  name = "Foundation LP";
  status = active;
  total_deposits = zero_dec;
  total_shares = zero_dec;
  nav = one_dec;
  high_water_mark = one_dec;
  current_drawdown = zero_dec;
  dd_guard_level = normal;
  min_deposit = foundation_seat_size;
  max_deposit = foundation_seat_size;
  lock_period_days = 180;
  redemption_delay_days = 0;
  daily_redemption_limit = zero_dec;
  management_fee = zero_dec;
  performance_fee = zero_dec;
  owner = "";
  owner_min_stake = none;
  owner_current_stake = none;
  is_private = false;
  invite_code = "";
  total_holders = 0;
  allowed_markets = [];
  max_leverage = none;
  tags = [];
  seats_available = foundation_seat_count;
  seats_total = foundation_seat_count;
}

unfoldable pub new_main_pool : Pool
unfolding new_foundation_pool
new_main_pool = record new_foundation_pool {
  pool_id = "main-lp";
  pool_type = main;
  name = "Main LP";
  min_deposit = new_dec 100;
  max_deposit = zero_dec;
  lock_period_days = 0;
  redemption_delay_days = 4;
  daily_redemption_limit = new_dec_with_prec 15 2;
  seats_available = 0;
  seats_total = 0;
}

-- The level of a drawdown.
unfoldable pub level_of_drawdown : LegacyDec → DdGuardLevel
level_of_drawdown d =
    if gte d halt_threshold
    then halt
    else if gte d reduce_threshold
    then reduce
    else if gte d warning_threshold
    then warning
    else normal

-- `updateDDGuardLevel`, which pauses a pool that it halts.
unfoldable pub update_dd_guard_level : Pool → Pool
update_dd_guard_level p = record p {
  dd_guard_level = level_of_drawdown p.current_drawdown;
  status = if gte p.current_drawdown halt_threshold then paused else p.status;
}

module _ (r : Rounding) where
  -- `GetSeatCount`, with `TruncateInt64` of the SDK.
  unfoldable pub get_seat_count : (LegacyDec → ℤ) → Pool → ℤ
  get_seat_count truncate p =
      if is_foundation p.pool_type
      then (if is_zero p.total_deposits
          then pos 0
          else truncate (r.quo p.total_deposits foundation_seat_size))
      else pos 0

  unfoldable pub has_available_seats : (LegacyDec → ℤ) → Pool → Bool
  has_available_seats truncate p =
      if is_foundation p.pool_type
      then ltb_ℤ (get_seat_count truncate p) (pos foundation_seat_count)
      else true

  unfoldable pub calculate_shares_for_deposit : LegacyDec → Pool → LegacyDec
  calculate_shares_for_deposit amount p =
      if is_zero p.nav || is_negative p.nav then amount else r.quo amount p.nav

  unfoldable pub calculate_value_for_shares : LegacyDec → Pool → LegacyDec
  calculate_value_for_shares shares p = r.mul shares p.nav

  -- A pool at a new value per share: the high water mark and the drawdown.
  unfoldable pub mark_nav : LegacyDec → Pool → Pool
  mark_nav nav p =
      if gt nav p.high_water_mark
      then record p { nav = nav; high_water_mark = nav; current_drawdown = zero_dec }
      else if is_positive p.high_water_mark
      then record p {
        nav = nav;
        current_drawdown = r.quo (p.high_water_mark -ℤ nav) p.high_water_mark;
      }
      else record p { nav = nav }

  -- `UpdateNAV`
  unfoldable pub update_nav : LegacyDec → Pool → Pool
  update_nav total_value p =
      if is_zero p.total_shares
      then record p { nav = one_dec }
      else update_dd_guard_level (mark_nav (r.quo total_value p.total_shares) p)

-- A day in seconds.
abbrev pub day : ℕ
day = 24 * 60 * 60

pub record Deposit : Type 0 where
  pub deposit_id : String
  pub pool_id : String
  pub depositor : String
  pub amount : LegacyDec
  pub shares : LegacyDec
  pub nav_at_deposit : LegacyDec
  pub deposited_at : ℕ
  pub unlock_at : ℕ
  pub points_earned : LegacyDec

-- `NewDeposit`, with the ID that `generateID` draws and the time.
unfoldable pub new_deposit :
    String → ℕ → String → String → LegacyDec → LegacyDec → LegacyDec → ℕ → Deposit
new_deposit id now pool_id depositor amount shares nav lock_days = record {
  deposit_id = id;
  pool_id = pool_id;
  depositor = depositor;
  amount = amount;
  shares = shares;
  nav_at_deposit = nav;
  deposited_at = now;
  unlock_at = if ltb 0 lock_days then now + lock_days * day else 0;
  points_earned = zero_dec;
}

unfoldable pub is_locked : ℕ → Deposit → Bool
is_locked now d = if leb d.unlock_at 0 then false else ltb now d.unlock_at

pub record Withdrawal : Type 0 where
  pub withdrawal_id : String
  pub pool_id : String
  pub withdrawer : String
  pub shares_requested : LegacyDec
  pub shares_redeemed : LegacyDec
  pub amount_received : LegacyDec
  pub nav_at_request : LegacyDec
  pub status : WithdrawalStatus
  pub requested_at : ℕ
  pub available_at : ℕ
  pub completed_at : ℕ

-- `NewWithdrawal`, with the ID that `generateID` draws and the time.
unfoldable pub new_withdrawal :
    String → ℕ → String → String → LegacyDec → LegacyDec → ℕ → Withdrawal
new_withdrawal id now pool_id withdrawer shares nav delay_days = record {
  withdrawal_id = id;
  pool_id = pool_id;
  withdrawer = withdrawer;
  shares_requested = shares;
  shares_redeemed = zero_dec;
  amount_received = zero_dec;
  nav_at_request = nav;
  status = pending;
  requested_at = now;
  available_at = now + delay_days * day;
  completed_at = 0;
}

unfoldable pub is_ready : ℕ → Withdrawal → Bool
is_ready now w = leb w.available_at now

pub record DdGuardState : Type 0 where
  pub pool_id : String
  pub level : DdGuardLevel
  pub peak_nav : LegacyDec
  pub current_nav : LegacyDec
  pub drawdown_percent : LegacyDec
  pub max_exposure_limit : LegacyDec
  pub triggered_at : ℕ
  pub last_checked_at : ℕ

pub record PoolStats : Type 0 where
  pub pool_id : String
  pub total_value_locked : LegacyDec
  pub total_depositors : ℕ
  pub total_pending_withdrawals : LegacyDec

unfoldable pub new_pool_stats : String → PoolStats
new_pool_stats pool_id = record {
  pool_id = pool_id;
  total_value_locked = zero_dec;
  total_depositors = 0;
  total_pending_withdrawals = zero_dec;
}

pub record NavHistory : Type 0 where
  pub pool_id : String
  pub nav : LegacyDec
  pub total_value : LegacyDec
  pub timestamp : ℕ
