-- ===== src/Riverpool/Nav.antt =====
-- x/riverpool/keeper/nav.go: the value of a pool per share, and the state of its drawdown guard.
pub mod Guard
use perp_dex.Base.{
  ℕ, Bool, true, false, not, String, List, [], ◌∷◌, Option, none, some, if◌then◌else◌,
}
use perp_dex.Decimal.{LegacyDec, zero_dec, one_dec, new_dec_with_prec, is_zero}
use perp_dex.Riverpool.Types.{
  Pool, is_closed, DdGuardLevel, normal, warning, reduce, halt, DdGuardState, update_nav,
  NavHistory, calculate_shares_for_deposit, calculate_value_for_shares,
}
use perp_dex.Riverpool.Store.{
  PoolStore, PoolEnv, get_pool, set_pool, get_all_pools, set_dd_guard_state, get_dd_guard_state,
  add_nav_history,
}

-- How much of its exposure a pool may use at a level.
unfoldable pub exposure_limit : DdGuardLevel → LegacyDec
exposure_limit normal = one_dec
exposure_limit warning = new_dec_with_prec 80 2
exposure_limit reduce = new_dec_with_prec 50 2
exposure_limit halt = zero_dec

-- `==` on levels.
abbrev pub same_level : DdGuardLevel → DdGuardLevel → Bool
same_level normal normal = true
same_level warning warning = true
same_level reduce reduce = true
same_level halt halt = true
same_level _ _ = false

-- The state of a pool that has none yet.
abbrev pub new_guard : ℕ → Pool → DdGuardState
new_guard now p = record {
  pool_id = p.pool_id;
  level = normal;
  peak_nav = p.high_water_mark;
  current_nav = p.nav;
  drawdown_percent = zero_dec;
  max_exposure_limit = one_dec;
  triggered_at = now;
  last_checked_at = now;
}

unfoldable pub checked_guard : ℕ → Pool → DdGuardState → DdGuardState
checked_guard now p g = record g {
  current_nav = p.nav;
  peak_nav = p.high_water_mark;
  drawdown_percent = p.current_drawdown;
  level = p.dd_guard_level;
  last_checked_at = now;
  max_exposure_limit = exposure_limit p.dd_guard_level;
  triggered_at = if same_level p.dd_guard_level g.level then g.triggered_at else now;
}

-- `updateDDGuardState`
unfoldable pub update_dd_guard_state : ℕ → Pool → PoolStore → PoolStore
update_dd_guard_state now p s =
    let g : DdGuardState = elim (get_dd_guard_state p.pool_id s) [
      | some g ↦ g
      | none ↦ new_guard now p
    ] in
    set_dd_guard_state (checked_guard now p g) s

unfoldable pub get_pool_value : String → PoolStore → LegacyDec
get_pool_value id s = elim (get_pool id s) [ none ↦ zero_dec | some p ↦ p.total_deposits ]

module _ (env : PoolEnv) where
  unfoldable pub calculate_pool_nav : String → PoolStore → LegacyDec
  calculate_pool_nav id s = elim (get_pool id s) [
    | none ↦ one_dec
    | some p ↦ if is_zero p.total_shares then one_dec else env.quo p.total_deposits p.total_shares
  ]

  -- A pool that is saved at its new value.
  unfoldable pub save_nav : ℕ → Pool → PoolStore → PoolStore
  save_nav now p s = update_dd_guard_state now p (
      add_nav_history env
        (record {
          pool_id = p.pool_id;
          nav = p.nav;
          total_value = p.total_deposits;
          timestamp = now;
        })
        (set_pool p s))

  unfoldable pub update_pool_nav : ℕ → String → PoolStore → PoolStore
  update_pool_nav now id s = elim (get_pool id s) [
    | none ↦ s
    | some p ↦ save_nav now (update_nav env.rounding p.total_deposits p) s
  ]

  unfoldable pub update_navs : ℕ → List Pool → PoolStore → PoolStore
  update_navs now [] s = s
  update_navs now (p ∷ ps) s =
      update_navs now ps (if is_closed p.status then s else update_pool_nav now p.pool_id s)

  -- `UpdateAllPoolNAVs`
  unfoldable pub update_all_pool_navs : ℕ → PoolStore → PoolStore
  update_all_pool_navs now s = update_navs now (get_all_pools env s) s

  unfoldable pub estimate_shares_for_deposit :
      String → LegacyDec → PoolStore → LegacyDec × LegacyDec
  estimate_shares_for_deposit id amount s = elim (get_pool id s) [
    | none ↦ (zero_dec, one_dec)
    | some p ↦ (calculate_shares_for_deposit env.rounding amount p, p.nav)
  ]

  unfoldable pub estimate_amount_for_withdrawal :
      String → LegacyDec → PoolStore → LegacyDec × LegacyDec
  estimate_amount_for_withdrawal id shares s = elim (get_pool id s) [
    | none ↦ (zero_dec, one_dec)
    | some p ↦ (calculate_value_for_shares env.rounding shares p, p.nav)
  ]
