-- ===== src/Riverpool/Calls/Marked.antt =====
-- x/riverpool/keeper: the stored pools are marked, and how a call of the module ends.
use perp_dex.Base.{
  ◌≡◌, refl, Bool, true, false, String, Option, none, some, if◌then◌else◌, inl, inr, subst,
}
use perp_dex.Base.Dict.{Dict, lookup, insert, lookup-insert_cases}
use perp_dex.Base.Outcome.{done, failed, panicked, ◌>>=◌, ◌>>◌}
use perp_dex.Decimal.{LegacyDec}
use perp_dex.Riverpool.Types.{Pool}
use perp_dex.Riverpool.Store.{PoolError, PoolStore, set_pool}
use perp_dex.Riverpool.Deposits.{Call, found_or, check}
use perp_dex.Riverpool.Nav.Guard.{IsMarked}
use perp_dex.Riverpool.Withdrawals.{pool_less}

-- Every stored pool is marked.
unfoldable pub AllMarked : Dict Pool → Type 0
AllMarked d = (id : String) (p : Pool) → lookup id d ≡ some p → IsMarked p

-- This holds of what a call of the module gives, where it gives a value.
unfoldable pub Ends : {A : Type 0} → (A → Type 0) → Call A → Type 0
Ends P (done a) = P a
Ends P (failed e) = Unit
Ends P panicked = Unit

pub Ends-done : {A : Type 0} (P : A → Type 0) (a : A) → P a → Ends P (done a)
unfolding Ends
Ends-done P a h = h

pub Ends-then :
    {B : Type 0} (P : B → Type 0) (c : Call Unit) (m : Call B)
    → Ends (λ _. Unit) c
    → Ends P m
    → Ends P (c >> m)
unfolding Ends
Ends-then P (done a) m h k = k
Ends-then P (failed e) m h k = tt
Ends-then P panicked m h k = tt

pub Ends-bind :
    {A B : Type 0} (P : B → Type 0) (c : Call A) (f : A → Call B)
    → ((a : A) → Ends P (f a))
    → Ends P (c >>= f)
unfolding Ends
Ends-bind P (done a) f h = h a
Ends-bind P (failed e) f h = tt
Ends-bind P panicked f h = tt

pub Ends-check :
    {B : Type 0} (P : B → Type 0) (e : PoolError) (b : Bool) (m : Call B)
    → Ends P m
    → Ends P (check e b >> m)
unfolding Ends check
Ends-check P e true m h = h
Ends-check P e false m h = tt

pub Ends-found :
    {A B : Type 0} (P : B → Type 0) (e : PoolError) (o : Option A) (f : A → Call B)
    → ((a : A) → o ≡ some a → Ends P (f a))
    → Ends P (found_or e o >>= f)
unfolding Ends found_or
Ends-found P e (some a) f h = h a refl
Ends-found P e none f h = tt

pub found-IsMarked :
    (id : String) (p : Pool) (d : Dict Pool) → AllMarked d → lookup id d ≡ some p → IsMarked p
unfolding AllMarked
found-IsMarked id p d h e = h id p e

pub insert-AllMarked :
    (p : Pool) (d : Dict Pool) → IsMarked p → AllMarked d → AllMarked (insert p.pool_id p d)
unfolding AllMarked
insert-AllMarked p d m h id q e = elim (lookup-insert_cases p.pool_id id p d e) [
  | inl e' ↦ subst IsMarked e' m
  | inr e' ↦ h id q e'
]

pub set_pool-AllMarked :
    (p : Pool) (s : PoolStore) → IsMarked p → AllMarked s.pools → AllMarked (set_pool p s).pools
set_pool-AllMarked p s m h = insert-AllMarked p s.pools m h

pub if-AllMarked :
    (b : Bool) (x y : PoolStore)
    → AllMarked x.pools
    → AllMarked y.pools
    → AllMarked (if b then x else y).pools
if-AllMarked true x y hx hy = hx
if-AllMarked false x y hx hy = hy

pub check-Ends : (e : PoolError) (b : Bool) → Ends (λ _. Unit) (check e b)
unfolding Ends check
check-Ends e true = tt
check-Ends e false = tt

pub pool_less-IsMarked :
    (shares amount : LegacyDec) (p : Pool) → IsMarked p → IsMarked (pool_less shares amount p)
unfolding pool_less
pool_less-IsMarked shares amount p m = record {
  mark_start = m.mark_start;
  nav_le = m.nav_le;
  level_eq = m.level_eq;
}

pub with_deposits-IsMarked :
    (total : LegacyDec) (p : Pool) → IsMarked p → IsMarked (record p { total_deposits = total })
with_deposits-IsMarked total p m = record {
  mark_start = m.mark_start;
  nav_le = m.nav_le;
  level_eq = m.level_eq;
}
