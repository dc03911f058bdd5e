-- ===== src/Riverpool/Calls/Block.antt =====
-- x/riverpool/keeper: the end blocker keeps the stored pools marked.
use perp_dex.Base.{
  ℕ, ◌≡◌, String, List, [], ◌∷◌, some, All, All-map, Bool-cases, Option-cases, inl, inr,
}
use perp_dex.Base.Dict.{Dict, lookup}
use perp_dex.Decimal.{LegacyDec, lte, zero_dec}
use perp_dex.Riverpool.Types.{Pool, PoolStatus, active, paused, Withdrawal, is_closed, update_nav}
use perp_dex.Riverpool.Store.{
  PoolStore, PoolEnv, get_pool, set_pool, get_all_pools, get_dd_guard_state, add_nav_history,
}
use perp_dex.Riverpool.Nav.{
  update_dd_guard_state, save_nav, update_pool_nav, update_navs, update_all_pool_navs,
}
use perp_dex.Riverpool.Nav.Guard.{IsMarked, update_nav-Marks}
use perp_dex.Riverpool.Withdrawals.{remaining_shares}
use perp_dex.Riverpool.Blocks.{
  add_daily_processed_amount, Work, guard_pool, halts, resumes, check_pool, check_pools,
  process_withdrawal, process_withdrawals, process_available, available_today, process_pool,
  process_pools, process_ready_withdrawals, check_dd_guard_actions, end_blocker,
}
use perp_dex.Riverpool.Calls.Marked.{
  AllMarked, found-IsMarked, insert-AllMarked, set_pool-AllMarked, if-AllMarked, pool_less-IsMarked,
}

module _ (env : PoolEnv) where
  update_pool_nav-AllMarked :
      (now : ℕ) (id : String) (s : PoolStore)
      → AllMarked s.pools
      → AllMarked (update_pool_nav env now id s).pools
  unfolding update_pool_nav save_nav update_dd_guard_state add_nav_history
  update_pool_nav-AllMarked now id s h = elim (Option-cases (get_pool id s)) [
    | inl e ↦ rw (e, update_pool_nav) h
    | inr (p, e) ↦
        rw (e, update_pool_nav)
          (set_pool-AllMarked (update_nav env.rounding p.total_deposits p) s
            (update_nav-Marks env.rounding p.total_deposits p
              (found-IsMarked id p s.pools h e)).marked
            h)
  ]

  update_navs-AllMarked :
      (now : ℕ) (ps : List Pool) (s : PoolStore)
      → AllMarked s.pools
      → AllMarked (update_navs env now ps s).pools
  unfolding update_navs
  update_navs-AllMarked now [] s h = h
  update_navs-AllMarked now (p ∷ ps) s h = update_navs-AllMarked now ps _ (
      if-AllMarked (is_closed p.status) s (update_pool_nav env now p.pool_id s) h
        (update_pool_nav-AllMarked now p.pool_id s h))

  process_withdrawal-IsMarked :
      (now : ℕ) (available total : LegacyDec) (w : Withdrawal) (k : Work)
      → IsMarked k.pool
      → AllMarked k.store.pools
      → IsMarked (process_withdrawal env now available total w k).pool
        × AllMarked (process_withdrawal env now available total w k).store.pools
  unfolding process_withdrawal add_daily_processed_amount
  process_withdrawal-IsMarked now available total w k m h =
      elim (Bool-cases (lte (remaining_shares w) zero_dec)) [
        | inl e ↦ rw e (m, h)
        | inr e ↦ rw e (pool_less-IsMarked _ _ k.pool m, h)
      ]

  process_withdrawals-AllMarked :
      (now : ℕ) (available total : LegacyDec) (ws : List Withdrawal) (k : Work)
      → IsMarked k.pool
      → AllMarked k.store.pools
      → AllMarked
          (set_pool
            (process_withdrawals env now available total ws k).pool
            (process_withdrawals env now available total ws k).store).pools
  unfolding process_withdrawals
  process_withdrawals-AllMarked now available total [] k m h =
      insert-AllMarked k.pool k.store.pools m h
  process_withdrawals-AllMarked now available total (w ∷ ws) k m h =
      let next = process_withdrawal-IsMarked now available total w k m h in
      process_withdrawals-AllMarked now available total ws
        (process_withdrawal env now available total w k) next.0 next.1

  process_available-AllMarked :
      (now : ℕ) (available : LegacyDec) (p : Pool) (ws : List Withdrawal) (n : ℕ) (s : PoolStore)
      → IsMarked p
      → AllMarked s.pools
      → AllMarked (process_available env now available p ws n s).1.pools
  unfolding process_available
  process_available-AllMarked now available p [] n s m h = h
  process_available-AllMarked now available p (w ∷ ws) n s m h =
      process_withdrawals-AllMarked now available _ (w ∷ ws)
        (record { pool = p; store = s; count = n }) m h

  process_pool-AllMarked :
      (now : ℕ) (p : Pool) (k : ℕ × PoolStore)
      → IsMarked p
      → AllMarked k.1.pools
      → AllMarked (process_pool env now p k).1.pools
  unfolding process_pool
  process_pool-AllMarked now p (n, s) m h = elim (Bool-cases (is_closed p.status)) [
    | inl e ↦ rw e h
    | inr e ↦ elim (Bool-cases (lte (available_today env now p s) zero_dec)) [
      | inl e' ↦ rw (e, e') h
      | inr e' ↦ rw (e, e') (process_available-AllMarked now _ p _ n s m h)
    ]
  ]

  process_pools-AllMarked :
      (now : ℕ) (ps : List Pool) (k : ℕ × PoolStore)
      → All IsMarked ps
      → AllMarked k.1.pools
      → AllMarked (process_pools env now ps k).1.pools
  unfolding process_pools
  process_pools-AllMarked now [] k m h = h
  process_pools-AllMarked now (p ∷ ps) k (m, ms) h =
      process_pools-AllMarked now ps (process_pool env now p k) ms
        (process_pool-AllMarked now p k m h)

with_status-IsMarked :
    (status : PoolStatus) (p : Pool) → IsMarked p → IsMarked (record p { status = status })
with_status-IsMarked status p m = record {
  mark_start = m.mark_start;
  nav_le = m.nav_le;
  level_eq = m.level_eq;
}

check_pool-AllMarked :
    (p : Pool) (s : PoolStore) → IsMarked p → AllMarked s.pools → AllMarked (check_pool p s).pools
unfolding check_pool guard_pool
check_pool-AllMarked p s m h = elim (Option-cases (get_dd_guard_state p.pool_id s)) [
  | inl e ↦ rw (e, check_pool) h
  | inr (g, e) ↦
      rw (e, check_pool)
        (if-AllMarked (is_closed p.status) s (guard_pool g p s) h (
          if-AllMarked (halts g p) (set_pool (record p { status = paused }) s) _
            (set_pool-AllMarked (record p { status = paused }) s (with_status-IsMarked paused p m)
              h)
            (if-AllMarked (resumes g p) (set_pool (record p { status = active }) s) s
              (set_pool-AllMarked (record p { status = active }) s (with_status-IsMarked active p m)
                h)
              h)))
]

check_pools-AllMarked :
    (ps : List Pool) (s : PoolStore)
    → All IsMarked ps
    → AllMarked s.pools
    → AllMarked (check_pools ps s).pools
unfolding check_pools
check_pools-AllMarked [] s m h = h
check_pools-AllMarked (p ∷ ps) s (m, ms) h =
    check_pools-AllMarked ps (check_pool p s) ms (check_pool-AllMarked p s m h)

-- What the iterator of the store gives is stored.
abbrev pub IsWalk : (Dict Pool → List Pool) → Type 0
IsWalk walk = (d : Dict Pool) → All (λ p. (id : String) × (lookup id d ≡ some p)) (walk d)

walk-IsMarked :
    (walk : Dict Pool → List Pool) (d : Dict Pool)
    → IsWalk walk
    → AllMarked d
    → All IsMarked (walk d)
unfolding AllMarked
walk-IsMarked walk d hw h = All-map _ _ (walk d) (λ p (id, e). h id p e) (hw d)

pub end_blocker-AllMarked :
    (env : PoolEnv) (now : ℕ) (s : PoolStore)
    → IsWalk env.walk_pools
    → AllMarked s.pools
    → AllMarked (end_blocker env now s).pools
unfolding end_blocker update_all_pool_navs process_ready_withdrawals check_dd_guard_actions
end_blocker-AllMarked env now s hw h =
    let s1 = update_all_pool_navs env now s in
    let h1 = update_navs-AllMarked env now (get_all_pools env s) s h in
    let s2 = (process_ready_withdrawals env now s1).1 in
    let h2 =
      process_pools-AllMarked env now (get_all_pools env s1) (0, s1)
        (walk-IsMarked env.walk_pools s1.pools hw h1) h1 in
    check_pools-AllMarked (get_all_pools env s2) s2 (walk-IsMarked env.walk_pools s2.pools hw h2) h2
