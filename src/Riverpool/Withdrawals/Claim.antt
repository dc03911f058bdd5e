-- ===== src/Riverpool/Withdrawals/Claim.antt =====
-- x/riverpool/keeper/withdrawal.go: what a claim moves between a withdrawal and its pool, and what
-- becomes of a withdrawal that was cancelled.
use perp_dex.Base.{
  ℕ, ◌≡◌, refl, true, false, String, List, [], ◌∷◌, some, same_self, if◌then◌else◌, ap, ◌∙◌, ◌⊎◌,
  inl, inr, arith,
}
use perp_dex.Base.Dict.{lookup, lookup-insert_self}
use perp_dex.Base.Int.{◌+ℤ◌, ◌-ℤ◌, ◌<ℤ◌, ◌≤ℤ◌, int_laws}
use perp_dex.Base.Outcome.{done, panicked}
use perp_dex.Decimal.{LegacyDec, zero_dec, gte}
use perp_dex.Riverpool.Types.{
  Pool, Deposit, Withdrawal, completed, processing, is_ready, is_pending, is_completed,
}
use perp_dex.Riverpool.Store.{
  PoolStore, PoolEnv, get_pool, set_deposit, get_withdrawal, set_withdrawal,
}
use perp_dex.Riverpool.Deposits.{found_or, check}
use perp_dex.Riverpool.Withdrawals.Redeemed.{DividesByZero, shares_to_redeem_cases}
use perp_dex.Riverpool.Withdrawals.{
  set_deposits, redeem, pool_less, cancel, amount_to_receive, save_claim, claim_at, claim_shares,
  claim_withdrawal, limit_of, release_pending, cancel_withdrawal,
}

pub set_deposits-pools :
    (ds : List Deposit) (s : PoolStore)
    → ((set_deposits ds s).pools ≡ s.pools) × ((set_deposits ds s).withdrawals ≡ s.withdrawals)
unfolding set_deposits
set_deposits-pools [] s = (refl, refl)
set_deposits-pools (d ∷ ds) s = set_deposits-pools ds (set_deposit d s)

-- What a claim moves: what the withdrawal gains, the pool loses, and both are stored.
pub record Moves (p : Pool) (w : Withdrawal) (r : Withdrawal × LegacyDec × PoolStore) : Type 0 where
  pub pool_after : Pool
  pub pool_stored : get_pool p.pool_id r.2 ≡ some pool_after
  pub withdrawal_stored : get_withdrawal w.withdrawal_id r.2 ≡ some r.0
  pub shares_kept :
      pool_after.total_shares +ℤ r.0.shares_redeemed ≡ p.total_shares +ℤ w.shares_redeemed
  pub deposits_kept :
      pool_after.total_deposits +ℤ r.0.amount_received ≡ p.total_deposits +ℤ w.amount_received
  pub amount_eq : r.0.amount_received ≡ w.amount_received +ℤ r.1
  pub status_eq :
      r.0.status ≡ (if gte r.0.shares_redeemed w.shares_requested then completed else processing)

moved : (a b x : LegacyDec) → (a -ℤ x) +ℤ (b +ℤ x) ≡ a +ℤ b
moved a b x = omega int_laws

not_below : (l : LegacyDec) → zero_dec ≤ℤ l → l <ℤ zero_dec → ⊥
not_below l h k = omega (arith, h, k)

module _ (env : PoolEnv) where
  claim_shares-Moves :
      (now : ℕ) (p : Pool) (w : Withdrawal) (s : PoolStore) (shares : LegacyDec)
      → Moves p w (claim_shares env now p w s shares)
  unfolding claim_shares save_claim redeem pool_less
  claim_shares-Moves now p w s shares =
      let amount = amount_to_receive env p w shares in
      record {
        pool_after = pool_less shares amount p;
        pool_stored = lookup-insert_self p.pool_id (pool_less shares amount p) _;
        withdrawal_stored = lookup-insert_self w.withdrawal_id (redeem now shares amount w) _;
        shares_kept = moved p.total_shares w.shares_redeemed shares;
        deposits_kept = moved p.total_deposits w.amount_received amount;
        amount_eq = refl;
        status_eq = refl;
      }

  claim_withdrawal-at :
      (now : ℕ) (id : String) (s : PoolStore) (p : Pool) (w : Withdrawal)
      → get_withdrawal id s ≡ some w
      → is_ready now w ≡ true
      → is_completed w.status ≡ false
      → get_pool w.pool_id s ≡ some p
      → claim_withdrawal env now w.withdrawer id s ≡ claim_at env now p w s
  unfolding claim_withdrawal found_or check
  claim_withdrawal-at now id s p w hw hr hc hp =
      rw (hw, claim_withdrawal) (rw (same_self w.withdrawer, hr, hc, hp) refl)

  -- A claim that gives `r`, which is paid.
  abbrev pub IsPaid : ℕ → String → String → PoolStore → Pool → Withdrawal → Type 0
  IsPaid now withdrawer id s p w =
      (r : Withdrawal × LegacyDec × PoolStore) × (claim_withdrawal env now withdrawer id s ≡ done r)
      × Moves p w r

-- A withdrawal that is stored under its ID, ready and not completed is claimed by its withdrawer
-- where its pool is found. Where something remains to redeem, the daily limit is negative and what
-- is ready among the pending withdrawals has no value, the claim panics. Everywhere else it succeeds:
-- what the withdrawal gains in shares and in money is exactly what the pool loses, the amount that
-- is returned is what it gains, it is stored as completed where all its shares are redeemed and as
-- processing where some are left, and the pool is stored with it.
pub claim_withdrawal_lem :
    (env : PoolEnv) (now : ℕ) (id : String) (s : PoolStore) (p : Pool) (w : Withdrawal)
    → get_withdrawal id s ≡ some w
    → is_ready now w ≡ true
    → is_completed w.status ≡ false
    → get_pool w.pool_id s ≡ some p
    → (DividesByZero env now p w s × (claim_withdrawal env now w.withdrawer id s ≡ panicked))
      ⊎ ((¬ DividesByZero env now p w s) × IsPaid env now w.withdrawer id s p w)
unfolding claim_at
claim_withdrawal_lem env now id s p w hw hr hc hp =
    let at = claim_withdrawal-at env now id s p w hw hr hc hp in
    elim (shares_to_redeem_cases env now p w s) [
      | inl (z, e) ↦ inl (z, at ∙ rw e refl)
      | inr (shares, nz, e) ↦ inr (
        nz,
        (
          claim_shares env now p w s shares,
          at ∙ rw e refl,
          claim_shares-Moves env now p w s shares,
        ),
      )
    ]

-- With a daily limit that is not negative a claim is paid.
claim_withdrawal-IsPaid :
    (env : PoolEnv) (now : ℕ) (id : String) (s : PoolStore) (p : Pool) (w : Withdrawal)
    → get_withdrawal id s ≡ some w
    → is_ready now w ≡ true
    → is_completed w.status ≡ false
    → get_pool w.pool_id s ≡ some p
    → zero_dec ≤ℤ limit_of env p
    → IsPaid env now w.withdrawer id s p w
claim_withdrawal-IsPaid env now id s p w hw hr hc hp hl =
    elim (claim_withdrawal_lem env now id s p w hw hr hc hp) [
      | inl (z, e) ↦ absurd (not_below (limit_of env p) hl z.1.0)
      | inr (nz, paid) ↦ paid
    ]

module _ (env : PoolEnv) where
  cancelled_store : ℕ → Withdrawal → Pool → PoolStore → PoolStore
  cancelled_store now w p s =
      release_pending env (cancel now w) (some p) (set_withdrawal (cancel now w) s)

  cancel_withdrawal-done :
      (now : ℕ) (id : String) (s : PoolStore) (p : Pool) (w : Withdrawal)
      → get_withdrawal id s ≡ some w
      → is_pending w.status ≡ true
      → get_pool w.pool_id s ≡ some p
      → cancel_withdrawal env now w.withdrawer id s ≡ done (cancel now w, cancelled_store now w p s)
  unfolding cancel_withdrawal cancelled_store found_or check
  cancel_withdrawal-done now id s p w hw hs hp =
      rw (hw, cancel_withdrawal) (rw (same_self w.withdrawer, hs, hp) refl)

  cancelled_store-kept :
      (now : ℕ) (w : Withdrawal) (p : Pool) (s : PoolStore)
      → (get_withdrawal w.withdrawal_id (cancelled_store now w p s) ≡ some (cancel now w))
        × ((cancelled_store now w p s).pools ≡ s.pools)
  unfolding cancelled_store release_pending cancel
  cancelled_store-kept now w p s =
      (lookup-insert_self w.withdrawal_id (cancel now w) s.withdrawals, refl)

-- A withdrawal that its withdrawer cancels while it is pending can still be claimed once it is
-- ready, where the daily limit of its pool is not negative: the claim succeeds and moves shares and
-- money from the pool as for any other withdrawal.
pub cancelled_claim :
    (env : PoolEnv) (now later : ℕ) (s : PoolStore) (p : Pool) (w : Withdrawal)
    → get_withdrawal w.withdrawal_id s ≡ some w
    → is_pending w.status ≡ true
    → is_ready later w ≡ true
    → get_pool w.pool_id s ≡ some p
    → zero_dec ≤ℤ limit_of env p
    → (s' : PoolStore) × (cancel_withdrawal env now w.withdrawer w.withdrawal_id s
        ≡ done (cancel now w, s'))
      × IsPaid env later w.withdrawer w.withdrawal_id s' p (cancel now w)
unfolding cancel is_ready
cancelled_claim env now later s p w hw hs hr hp hl =
    let s' = cancelled_store env now w p s in
    let kept = cancelled_store-kept env now w p s in
    (
      s',
      cancel_withdrawal-done env now w.withdrawal_id s p w hw hs hp,
      claim_withdrawal-IsPaid env later w.withdrawal_id s' p (cancel now w) kept.0 hr refl
          (ap (lookup w.pool_id) kept.1 ∙ hp) hl,
    )
