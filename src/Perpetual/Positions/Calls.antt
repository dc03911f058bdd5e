-- ===== src/Perpetual/Positions/Calls.antt =====
-- What holds of the value or the error of a call, and how it passes through a chain of calls.
use perp_dex.Base.{◌≡◌, refl, Option, none, some}
use perp_dex.Base.Outcome.{done, failed, panicked, ◌>>=◌}
use perp_dex.Perpetual.Store.{Error, State, Call, or_fail}

-- A call ends in a value or an error, of which these hold; it does not panic.
unfoldable pub Holds : {A : Type 0} → (A → Type 0) → (Error × State → Type 0) → Call A → Type 0
Holds P Q (done a) = P a
Holds P Q (failed x) = Q x
Holds P Q panicked = ⊥

pub Holds-map :
    {A B : Type 0} (P : A → Type 0) (R : B → Type 0) (Q : Error × State → Type 0) (g : A → B)
    (m : Call A)
    → ((a : A) → P a → R (g a))
    → Holds P Q m
    → Holds R Q (m >>= λ a. done (g a))
unfolding Holds
Holds-map P R Q g (done a) f h = f a h
Holds-map P R Q g (failed x) f h = h
Holds-map P R Q g panicked f h = elim h [ ]

pub Holds-bind :
    {A B : Type 0} (P : A → Type 0) (R : B → Type 0) (Q : Error × State → Type 0) (g : A → Call B)
    (m : Call A)
    → ((a : A) → P a → Holds R Q (g a))
    → Holds P Q m
    → Holds R Q (m >>= g)
unfolding Holds
Holds-bind P R Q g (done a) f h = f a h
Holds-bind P R Q g (failed x) f h = h
Holds-bind P R Q g panicked f h = elim h [ ]

pub Holds-or_fail :
    {A : Type 0} (Q : Error × State → Type 0) (e : Error) (s : State) (o : Option A)
    → Q (e, s)
    → Holds (λ a. o ≡ some a) Q (or_fail e s o)
unfolding Holds or_fail
Holds-or_fail Q e s none q = q
Holds-or_fail Q e s (some a) q = refl
