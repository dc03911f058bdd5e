-- ===== src/Riverpool/Withdrawals/Fifo.antt =====
-- x/riverpool/keeper/withdrawal.go: the shares that a claim takes from a user's deposits, the oldest
-- first.
use mathlib.Core.List.{Perm}
use perp_dex.Base.{map, ◌≡◌, false, List, [], ◌∷◌, arith, All, ◌||◌}
use perp_dex.Base.Int.{◌+ℤ◌, ◌-ℤ◌, ◌<ℤ◌}
use perp_dex.Decimal.{LegacyDec, zero_dec, is_zero, is_negative, min_dec}
use perp_dex.Riverpool.Types.{Deposit}
use perp_dex.Riverpool.Withdrawals.ByTime.{IsOldestFirst}
use perp_dex.Riverpool.Withdrawals.{sort_by_time}

-- The shares of deposits.
abbrev pub total : List Deposit → LegacyDec
total [] = zero_dec
total (d ∷ ds) = d.shares +ℤ total ds

-- The deposits once those that were saved have taken the place of the first ones.
abbrev pub replace_first : List Deposit → List Deposit → List Deposit
replace_first [] ds = ds
replace_first (r ∷ rs) [] = r ∷ rs
replace_first (r ∷ rs) (d ∷ ds) = r ∷ replace_first rs ds

-- Every deposit but the last has no shares left.
abbrev pub IsSpent : List Deposit → Type 0
IsSpent [] = Unit
IsSpent (d ∷ []) = Unit
IsSpent (d ∷ e ∷ ds) = (d.shares ≡ zero_dec) × IsSpent (e ∷ ds)

abbrev pub HasShares : Deposit → Type 0
HasShares d = zero_dec <ℤ d.shares

some_left : (x : LegacyDec) → (is_zero x || is_negative x) ≡ false → zero_dec <ℤ x
some_left x e = ground arith

-- The deposits but for the number of their shares.
abbrev pub without_shares : List Deposit → List Deposit
without_shares ds = map {A = Deposit} (λ d. record d { shares = zero_dec }) ds

-- A sort of `ds` behind `sorted`.
record Sorts (P : Deposit → Type 0) (sorted ds : List Deposit) : Type 0 where
  ordered : IsOldestFirst (sort_by_time sorted ds)
  total_eq : total (sort_by_time sorted ds) ≡ total sorted +ℤ total ds
  all : All P (sort_by_time sorted ds)

-- The deposits `ds` in the order `sorted`, and those that are saved, `saved`, for `x` shares.
pub record TakesOldest (x : LegacyDec) (ds sorted saved : List Deposit) : Type 0 where
  pub ordered : IsOldestFirst sorted
  pub same_list : Perm sorted ds
  pub total_eq : total sorted ≡ total ds
  pub taken_eq : total (replace_first saved sorted) ≡ total ds -ℤ min_dec x (total ds)
  pub spent : IsSpent saved
  pub same_deposits : without_shares (replace_first saved sorted) ≡ without_shares sorted
