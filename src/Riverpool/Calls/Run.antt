-- ===== src/Riverpool/Calls/Run.antt =====
-- x/riverpool/keeper: any run of the module's calls.
use perp_dex.Base.{ℕ, String, List, [], ◌∷◌}
use perp_dex.Base.Outcome.{done, failed, panicked}
use perp_dex.Decimal.{LegacyDec, neg}
use perp_dex.Riverpool.Store.{RevenueSource, PoolStore, PoolEnv}
use perp_dex.Riverpool.Deposits.{Call, make_deposit}
use perp_dex.Riverpool.Withdrawals.{request_withdrawal, claim_withdrawal, cancel_withdrawal}
use perp_dex.Riverpool.Revenue.{record_revenue, record_loss}
use perp_dex.Riverpool.Blocks.{end_blocker}
use perp_dex.Riverpool.Calls.Marked.{AllMarked, Ends}
use perp_dex.Riverpool.Calls.Users.{
  make_deposit-AllMarked, request_withdrawal-AllMarked, claim_withdrawal-AllMarked,
  cancel_withdrawal-AllMarked, record_revenue-AllMarked,
}
use perp_dex.Riverpool.Calls.Block.{IsWalk, end_blocker-AllMarked}

-- The calls that change the store, with the time of each and the ID that it draws.
pub data PoolCall : Type 0 where
  deposits :
      (id : String) → ℕ → (depositor pool_id : String) → LegacyDec → (code : String) → PoolCall
  requests : (id : String) → ℕ → (withdrawer pool_id : String) → LegacyDec → PoolCall
  claims cancels : ℕ → (withdrawer id : String) → PoolCall
  earns loses :
      (id : String)
      → ℕ
      → (pool_id : String) → RevenueSource
      → LegacyDec
      → (market_id position_id details : String) → PoolCall
  ends : ℕ → PoolCall

-- The store after a call; an error leaves it as it was, and so does a panic, from which a transaction
-- is recovered.
abbrev pub left_by : {A : Type 0} → (A → PoolStore) → PoolStore → Call A → PoolStore
left_by f s (done a) = f a
left_by f s (failed e) = s
left_by f s panicked = s

abbrev pub make_call : PoolEnv → PoolCall → PoolStore → PoolStore
make_call env (deposits id now depositor pool_id amount code) s =
    left_by (λ r. r.1) s (make_deposit env id now depositor pool_id amount code s)
make_call env (requests id now withdrawer pool_id shares) s =
    left_by (λ r. r.1) s (request_withdrawal env id now withdrawer pool_id shares s)
make_call env (claims now withdrawer id) s =
    left_by (λ r. r.2) s (claim_withdrawal env now withdrawer id s)
make_call env (cancels now withdrawer id) s =
    left_by (λ r. r.1) s (cancel_withdrawal env now withdrawer id s)
make_call env (earns id now pool_id source amount market_id position_id details) s =
    left_by (λ r. r) s
      (record_revenue env id now pool_id source amount market_id position_id details s)
make_call env (loses id now pool_id source amount market_id position_id details) s =
    left_by (λ r. r) s
      (record_loss env id now pool_id source amount market_id position_id details s)
make_call env (ends now) s = end_blocker env now s

left_by-AllMarked :
    {A : Type 0} (f : A → PoolStore) (s : PoolStore) (m : Call A)
    → AllMarked s.pools
    → Ends (λ a. AllMarked (f a).pools) m
    → AllMarked (left_by f s m).pools
unfolding Ends
left_by-AllMarked f s (done a) h k = k
left_by-AllMarked f s (failed e) h k = h
left_by-AllMarked f s panicked h k = h

make_call-AllMarked :
    (env : PoolEnv) (c : PoolCall) (s : PoolStore)
    → IsWalk env.walk_pools
    → AllMarked s.pools
    → AllMarked (make_call env c s).pools
unfolding record_loss
make_call-AllMarked env (deposits id now depositor pool_id amount code) s w h =
    left_by-AllMarked _ s _ h (make_deposit-AllMarked env id now depositor pool_id amount code s h)
make_call-AllMarked env (requests id now withdrawer pool_id shares) s w h =
    left_by-AllMarked _ s _ h
      (request_withdrawal-AllMarked env id now withdrawer pool_id shares s h)
make_call-AllMarked env (claims now withdrawer id) s w h =
    left_by-AllMarked _ s _ h (claim_withdrawal-AllMarked env now withdrawer id s h)
make_call-AllMarked env (cancels now withdrawer id) s w h =
    left_by-AllMarked _ s _ h (cancel_withdrawal-AllMarked env now withdrawer id s h)
make_call-AllMarked env (earns id now pool_id source amount market_id position_id details) s w h =
    left_by-AllMarked _ s _ h
      (record_revenue-AllMarked env id now pool_id source amount market_id position_id details s h)
make_call-AllMarked env (loses id now pool_id source amount market_id position_id details) s w h =
    left_by-AllMarked _ s _ h (
      record_revenue-AllMarked env id now pool_id source (neg amount) market_id position_id details
        s h)
make_call-AllMarked env (ends now) s w h = end_blocker-AllMarked env now s w h

abbrev pub make_calls : PoolEnv → List PoolCall → PoolStore → PoolStore
make_calls env [] s = s
make_calls env (c ∷ cs) s = make_calls env cs (make_call env c s)

-- Where the iterator gives only pools that are stored, any run of the module's calls keeps every
-- stored pool marked: its value per share is at most its high water mark, that mark is at least
-- one, and its guard level is the one of its drawdown.
pub make_calls-AllMarked :
    (env : PoolEnv) (cs : List PoolCall) (s : PoolStore)
    → IsWalk env.walk_pools
    → AllMarked s.pools
    → AllMarked (make_calls env cs s).pools
make_calls-AllMarked env [] s w h = h
make_calls-AllMarked env (c ∷ cs) s w h =
    make_calls-AllMarked env cs (make_call env c s) w (make_call-AllMarked env c s w h)
