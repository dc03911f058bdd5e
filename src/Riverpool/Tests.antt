-- ===== src/Riverpool/Tests.antt =====
-- The theorems of the liquidity pools, at the main pool with a user who has two deposits.
use perp_dex.Base.{
  ◌≡◌, ◌⊎◌, refl, Bool, String, List, [], ◌∷◌, Option, some, none, map, Option-cases, inl, inr,
  subst, sym, All, ◌*◌, ◌/◌, ◌^◌, arith, same, if◌then◌else◌,
}
use perp_dex.Base.Int.{pos, pos_part}
use perp_dex.Base.Dict.{Dict, lookup}
use perp_dex.Base.Outcome.{done, panicked}
use perp_dex.Decimal.{new_dec, one_dec}
use perp_dex.Riverpool.Types.{
  Pool, new_foundation_pool, new_main_pool, level_of_drawdown, Deposit, new_deposit, Withdrawal,
  new_withdrawal, update_nav, is_ready,
}
use perp_dex.Riverpool.Store.{PoolStore, PoolEnv, RevenueSource, get_pool, get_withdrawal}
use perp_dex.Riverpool.Nav.Guard.{IsMarked, Marks, update_nav-Marks}
use perp_dex.Riverpool.Withdrawals.{claim_withdrawal, cancel, cancel_withdrawal, limit_of}
use perp_dex.Riverpool.Withdrawals.Redeemed.{DividesByZero}
use perp_dex.Riverpool.Withdrawals.Claim.{IsPaid, claim_withdrawal_lem, cancelled_claim}
use perp_dex.Riverpool.Revenue.{record_loss}
use perp_dex.Riverpool.Revenue.Losses.{record_loss-pools}
use perp_dex.Riverpool.Calls.Marked.{AllMarked}
use perp_dex.Riverpool.Calls.Block.{IsWalk}
use perp_dex.Riverpool.Calls.Run.{
  PoolCall, deposits, requests, claims, ends, make_calls, make_calls-AllMarked,
}

abbrev values : {A : Type 0} → Dict A → List A
values d = map (λ e. e.1) d

abbrev listed : Option Pool → List Pool
listed (some p) = p ∷ []
listed none = []

-- The pools of a store with the main pool only.
abbrev walk_main : Dict Pool → List Pool
walk_main d = listed (lookup "main-lp" d)

abbrev env : PoolEnv
env = record {
  rounding = record {
    mul = λ a b. pos (pos_part a * pos_part b / 10 ^ 18);
    quo = λ a b. pos (pos_part a * 10 ^ 18 / pos_part b);
  };
  truncate_int = λ a. pos (pos_part a / 10 ^ 18);
  digits = λ n. "0";
  walk_pools = walk_main;
  walk_deposits = values;
  walk_withdrawals = values;
  walk_index = λ p d. values d;
  walk_history = λ p d. values d;
}

abbrev first_deposit : Deposit
first_deposit = new_deposit "dep-1" 100 "main-lp" "alice" (new_dec 200) (new_dec 200) one_dec 0

abbrev second_deposit : Deposit
second_deposit = new_deposit "dep-2" 200 "main-lp" "alice" (new_dec 300) (new_dec 300) one_dec 0

abbrev withdrawal : Withdrawal
withdrawal = new_withdrawal "wth-1" 300 "main-lp" "alice" (new_dec 250) one_dec 4

abbrev main_pool : Pool
main_pool = record new_main_pool { total_deposits = new_dec 500; total_shares = new_dec 500 }

abbrev store : PoolStore
store = record {
  pools = ("main-lp", main_pool) ∷ [];
  deposits = ("dep-1", first_deposit) ∷ ("dep-2", second_deposit) ∷ [];
  withdrawals = ("wth-1", withdrawal) ∷ [];
  dd_guard_states = [];
  pool_stats = [];
  nav_history = [];
  user_deposits = ("alice:dep-1", "dep-1") ∷ ("alice:dep-2", "dep-2") ∷ [];
  user_withdrawals = ("alice:wth-1", "wth-1") ∷ [];
  daily_processed = [];
  revenue_records = [];
  revenue_stats = [];
}

main_pool-IsMarked : IsMarked main_pool
unfolding new_main_pool new_foundation_pool level_of_drawdown
main_pool-IsMarked = record { mark_start = omega arith; nav_le = omega arith; level_eq = refl }

found_if : {A : Type 0} (b : Bool) (x y : A) → (if b then some x else none) ≡ some y → x ≡ y
found_if b x y h = ground arith

store-AllMarked : AllMarked store.pools
unfolding AllMarked lookup
store-AllMarked id p h =
    subst IsMarked (found_if (same "main-lp" id) main_pool p h) main_pool-IsMarked

walk_main-IsWalk : IsWalk walk_main
walk_main-IsWalk d = elim (Option-cases (lookup "main-lp" d)) [
  | inl e ↦ subst (λ o. All (λ p. (id : String) × (lookup id d ≡ some p)) (listed o)) (sym e) tt
  | inr (p, e) ↦
      subst (λ o. All (λ p. (id : String) × (lookup id d ≡ some p)) (listed o)) (sym e)
        (("main-lp", e), tt)
]

-- A value of 400 is a drawdown of 20%.
update_nav-Marks_example : Marks main_pool (update_nav env.rounding (new_dec 400) main_pool)
update_nav-Marks_example = update_nav-Marks env.rounding (new_dec 400) main_pool main_pool-IsMarked

found_withdrawal : get_withdrawal "wth-1" store ≡ some withdrawal
unfolding lookup same
found_withdrawal = refl

found_pool : get_pool withdrawal.pool_id store ≡ some main_pool
unfolding lookup same new_withdrawal
found_pool = refl

claim_withdrawal_lem_example :
    (DividesByZero env 500000 main_pool withdrawal store
      × (claim_withdrawal env 500000 withdrawal.withdrawer "wth-1" store ≡ panicked))
    ⊎ ((¬ DividesByZero env 500000 main_pool withdrawal store)
        × IsPaid env 500000 withdrawal.withdrawer "wth-1" store main_pool withdrawal)
unfolding new_withdrawal is_ready
claim_withdrawal_lem_example =
    claim_withdrawal_lem env 500000 "wth-1" store main_pool withdrawal found_withdrawal refl refl
      found_pool

cancelled_claim_example :
    (s' : PoolStore) × (cancel_withdrawal env 400 withdrawal.withdrawer withdrawal.withdrawal_id
        store
      ≡ done (cancel 400 withdrawal, s'))
    × IsPaid env 500000 withdrawal.withdrawer withdrawal.withdrawal_id s' main_pool
        (cancel 400 withdrawal)
unfolding new_withdrawal is_ready limit_of
cancelled_claim_example =
    cancelled_claim env 400 500000 store main_pool withdrawal found_withdrawal refl refl found_pool
      (omega arith)

record_loss-pools_example :
    (s' : PoolStore) × (record_loss env "rev-1" 400 "main-lp" RevenueSource.trading
        (new_dec 100)
        "BTC-USDC"
        ""
        ""
        store
      ≡ done s')
    × (s'.pools ≡ store.pools)
unfolding lookup same
record_loss-pools_example =
    record_loss-pools env "rev-1" 400 "main-lp" RevenueSource.trading (new_dec 100) "BTC-USDC" "" ""
      store main_pool refl (omega arith)

abbrev calls : List PoolCall
calls =
    deposits "dep-3" 400 "bob" "main-lp" (new_dec 150) ""
    ∷ requests "wth-2" 400 "bob" "main-lp" (new_dec 50)
    ∷ claims 500000 "alice" "wth-1"
    ∷ ends 500000
    ∷ []

make_calls-AllMarked_example : AllMarked (make_calls env calls store).pools
make_calls-AllMarked_example = make_calls-AllMarked env calls store walk_main-IsWalk store-AllMarked
