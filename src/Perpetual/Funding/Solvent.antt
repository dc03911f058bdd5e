-- ===== src/Perpetual/Funding/Solvent.antt =====
-- x/perpetual/keeper/funding.go: no settlement of funding drives a balance below zero.
use perp_dex.Base.{ℕ, ◌≡◌, String, List, [], ◌∷◌, some, Option-cases, inl, inr, arith, subst}
use perp_dex.Base.Dict.{Dict, lookup, insert, lookup-insert_cases}
use perp_dex.Base.Int.{◌≤ℤ◌, ◌+ℤ◌, +ℤ_parts, -ℤ_parts}
use perp_dex.Decimal.{LegacyDec, zero_dec, new_dec, neg}
use perp_dex.Perpetual.Types.{Account, Position, PriceInfo, new_account, deposit}
use perp_dex.Perpetual.Store.{State, get_account, get_or_create_account}
use perp_dex.Perpetual.Rates.{
  FundingStore, FundingEnv, set_funding_rate, generate_payment_id, save_funding_payment,
  list_active_markets, calculate_funding_rate_v2,
}
use perp_dex.Perpetual.Funding.{
  limit_payment, funding_due, settle_position, settle_positions, settle_at, funding_end_blocker,
}
use perp_dex.Perpetual.Funding.Steps.{fund_markets-keeps}

-- No account has a balance below zero.
unfoldable pub IsSolvent : Dict Account → Type 0
IsSolvent d = (trader : String) (a : Account) → lookup trader d ≡ some a → zero_dec ≤ℤ a.balance

limit_payment-le :
    (balance payment : LegacyDec)
    → zero_dec ≤ℤ balance
    → zero_dec ≤ℤ balance +ℤ limit_payment balance payment
unfolding limit_payment
limit_payment-le balance payment h =
    ground
      (arith, +ℤ_parts balance payment, +ℤ_parts balance (neg balance), -ℤ_parts zero_dec balance)

insert-IsSolvent :
    (a : Account) (d : Dict Account)
    → zero_dec ≤ℤ a.balance
    → IsSolvent d
    → IsSolvent (insert a.trader a d)
unfolding IsSolvent
insert-IsSolvent a d h k trader b e = elim (lookup-insert_cases a.trader trader a d e) [
  | inl e' ↦ subst (λ x. zero_dec ≤ℤ x.balance) e' h
  | inr e' ↦ k trader b e'
]

new_balance : (trader : String) → zero_dec ≤ℤ (deposit (new_dec 10000) (new_account trader)).balance
unfolding deposit new_account ◌+ℤ◌
new_balance trader = omega arith

stored_balance :
    (trader : String) (a : Account) (d : Dict Account)
    → lookup trader d ≡ some a
    → IsSolvent d
    → zero_dec ≤ℤ a.balance
unfolding IsSolvent
stored_balance trader a d e k = k trader a e

-- An account that is asked for, or made, has a balance, and no balance has fallen below zero.
get_or_create-IsSolvent :
    (trader : String) (s : State)
    → IsSolvent s.accounts
    → (zero_dec ≤ℤ (get_or_create_account trader s).0.balance)
      × IsSolvent (get_or_create_account trader s).1.accounts
unfolding get_or_create_account
get_or_create-IsSolvent trader s k = elim (Option-cases (get_account trader s)) [
  | inl e ↦
      rw (e, get_or_create_account)
        (
          new_balance trader,
          insert-IsSolvent (deposit (new_dec 10000) (new_account trader)) s.accounts
              (new_balance trader) k,
        )
  | inr (a, e) ↦ rw (e, get_or_create_account) (stored_balance trader a s.accounts e k, k)
]

module _ (env : FundingEnv) where
  settle_position-IsSolvent :
      (id : String) (rate mark : LegacyDec) (now : ℕ) (p : Position) (s : FundingStore)
      → IsSolvent s.perp.accounts
      → IsSolvent (settle_position env id rate mark now p s).perp.accounts
  unfolding settle_position generate_payment_id save_funding_payment
  settle_position-IsSolvent id rate mark now p s k =
      let r = get_or_create_account p.trader s.perp in
      let h = get_or_create-IsSolvent p.trader s.perp k in
      let payment = limit_payment r.0.balance (funding_due env rate mark p) in
      insert-IsSolvent (record r.0 { balance = r.0.balance +ℤ payment }) r.1.accounts
        (limit_payment-le r.0.balance (funding_due env rate mark p) h.0) h.1

  settle_positions-IsSolvent :
      (id : String) (rate mark : LegacyDec) (now : ℕ) (ps : List Position) (s : FundingStore)
      → IsSolvent s.perp.accounts
      → IsSolvent (settle_positions env id rate mark now ps s).perp.accounts
  unfolding settle_positions
  settle_positions-IsSolvent id rate mark now [] s k = k
  settle_positions-IsSolvent id rate mark now (p ∷ ps) s k =
      settle_positions-IsSolvent id rate mark now ps _
        (settle_position-IsSolvent id rate mark now p s k)

  settle_at-IsSolvent :
      (id : String) (now : ℕ) (p : PriceInfo) (s : FundingStore)
      → IsSolvent s.perp.accounts
      → IsSolvent (settle_at env id now p s).perp.accounts
  unfolding settle_at set_funding_rate
  settle_at-IsSolvent id now p s k =
      settle_positions-IsSolvent id (calculate_funding_rate_v2 env id s) p.mark_price now _ _ k

-- Whatever the positions, prices and rates are, the end blocker leaves no account with a balance
-- below zero where there was none before: a payment is limited to what the account has.
pub funding_end_blocker-IsSolvent :
    (env : FundingEnv) (now : ℕ) (s : FundingStore)
    → IsSolvent s.perp.accounts
    → IsSolvent (funding_end_blocker env now s).perp.accounts
unfolding funding_end_blocker
funding_end_blocker-IsSolvent env now s k =
    fund_markets-keeps env now (λ s'. IsSolvent s'.perp.accounts) (λ m s' h. h)
      (λ id p s' h. settle_at-IsSolvent env id now p s' h) (λ id s' e h. h)
      (list_active_markets env s) s k
