-- ===== src/Perpetual/Funding/Schedule.antt =====
-- x/perpetual/keeper/funding.go: when a market settles next.
use perp_dex.Base.{
  ℕ, ◌+◌, ◌<◌, ◌≤◌, ◌%◌, ◌≡◌, refl, String, List, [], ◌∷◌, some, Option-cases, Bool-cases, inl, inr,
  arith, subst, sym, ap, ◌∙◌, leb, false, same,
}
use perp_dex.Base.Dict.{Dict, lookup, insert, lookup-insert, lookup-insert_self, lookup-insert_ne}
use perp_dex.Perpetual.Types.{Market, PriceInfo, Position, settling}
use perp_dex.Decimal.{LegacyDec}
use perp_dex.Perpetual.Store.{State, get_account, get_or_create_account, get_market, get_price}
use perp_dex.Perpetual.Rates.{
  FundingStore, FundingEnv, funding_period, next_funding_time, set_next_funding_time,
  get_next_funding_time, set_funding_rate, generate_payment_id, save_funding_payment,
  calculate_funding_rate_v2,
}
use perp_dex.Perpetual.Funding.{
  settle_position, settle_positions, settle_at, settle_funding, or_unsettled, put_market,
  settle_market, scheduled, fund_market, fund_markets,
}
use perp_dex.Perpetual.Funding.Steps.{fund_market-keeps, fund_markets-keeps}

-- A time that is later than `now` by at most a period, and a whole number of periods.
abbrev pub IsNext : ℕ → ℕ → Type 0
IsNext now t = (now < t) × (t ≤ now + funding_period) × (t % funding_period ≡ 0)

next_funding_time-IsNext : (now : ℕ) → IsNext now (next_funding_time now)
unfolding next_funding_time
next_funding_time-IsNext now = (omega arith, omega arith, omega arith)

abbrev pub IsLater : ℕ → String → Dict ℕ → Type 0
IsLater now id d = (t : ℕ) × (lookup id d ≡ some t) × (now < t)

-- The market is to settle after `now`.
abbrev pub IsScheduled : ℕ → String → FundingStore → Type 0
IsScheduled now id s = IsLater now id s.next_times

-- It has a price.
abbrev pub HasPrice : FundingStore → Market → Type 0
HasPrice s m = (p : PriceInfo) × (get_price m.market_id s.perp ≡ some p)

insert-IsScheduled :
    (now : ℕ) (id j : String) (s : FundingStore)
    → IsScheduled now j s
    → IsScheduled now j (set_next_funding_time id (next_funding_time now) s)
insert-IsScheduled now id j s (t, e, h) = elim (Bool-cases (same id j)) [
  | inl c ↦ (
    next_funding_time now,
    lookup-insert id j (next_funding_time now) s.next_times ∙ rw c refl,
    (next_funding_time-IsNext now).0,
  )
  | inr c ↦ (t, lookup-insert_ne id j (next_funding_time now) s.next_times c ∙ e, h)
]

set_next-IsScheduled :
    (now : ℕ) (id : String) (s : FundingStore)
    → IsScheduled now id (set_next_funding_time id (next_funding_time now) s)
set_next-IsScheduled now id s = (
  next_funding_time now,
  lookup-insert_self id (next_funding_time now) s.next_times,
  (next_funding_time-IsNext now).0,
)

get_or_create-prices :
    (trader : String) (s : State) → (get_or_create_account trader s).1.prices ≡ s.prices
unfolding get_or_create_account
get_or_create-prices trader s = elim (Option-cases (get_account trader s)) [
  | inl e ↦ rw (e, get_or_create_account) refl
  | inr (a, e) ↦ rw (e, get_or_create_account) refl
]

scheduled-prices :
    (now : ℕ) (m : Market) (s : FundingStore) → (scheduled now m s).1.perp.prices ≡ s.perp.prices
unfolding scheduled
scheduled-prices now m s = elim (Option-cases (get_next_funding_time m.market_id s)) [
  | inl e ↦ rw (e, scheduled) refl
  | inr (t, e) ↦ rw (e, scheduled) refl
]

scheduled-found :
    (now : ℕ) (m : Market) (s : FundingStore)
    → get_next_funding_time m.market_id (scheduled now m s).1 ≡ some (scheduled now m s).0
unfolding scheduled
scheduled-found now m s = elim (Option-cases (get_next_funding_time m.market_id s)) [
  | inl e ↦ rw (e, scheduled) (lookup-insert_self m.market_id (next_funding_time now) s.next_times)
  | inr (t, e) ↦ rw (e, scheduled) e
]

later_of_leb : (t now : ℕ) → leb t now ≡ false → now < t
later_of_leb t now h = ground arith

module _ (env : FundingEnv) where
  settle_positions-next_times :
      (id : String) (rate mark : LegacyDec) (now : ℕ) (ps : List Position) (s : FundingStore)
      → (settle_positions env id rate mark now ps s).next_times ≡ s.next_times
  unfolding settle_positions settle_position generate_payment_id save_funding_payment
  settle_positions-next_times id rate mark now [] s = refl
  settle_positions-next_times id rate mark now (p ∷ ps) s =
      settle_positions-next_times id rate mark now ps (settle_position env id rate mark now p s)

  settle_positions-prices :
      (id : String) (rate mark : LegacyDec) (now : ℕ) (ps : List Position) (s : FundingStore)
      → (settle_positions env id rate mark now ps s).perp.prices ≡ s.perp.prices
  unfolding settle_positions settle_position generate_payment_id save_funding_payment
  settle_positions-prices id rate mark now [] s = refl
  settle_positions-prices id rate mark now (p ∷ ps) s =
      settle_positions-prices id rate mark now ps (settle_position env id rate mark now p s)
      ∙ get_or_create-prices p.trader s.perp

  pub settle_at-next_times :
      (id : String) (now : ℕ) (p : PriceInfo) (s : FundingStore)
      → (settle_at env id now p s).next_times ≡ insert id (next_funding_time now) s.next_times
  unfolding settle_at set_funding_rate
  settle_at-next_times id now p s =
      ap (insert id (next_funding_time now))
        (settle_positions-next_times id (calculate_funding_rate_v2 env id s) p.mark_price now _ _)

  settle_at-prices :
      (id : String) (now : ℕ) (p : PriceInfo) (s : FundingStore)
      → (settle_at env id now p s).perp.prices ≡ s.perp.prices
  unfolding settle_at set_funding_rate
  settle_at-prices id now p s =
      settle_positions-prices id (calculate_funding_rate_v2 env id s) p.mark_price now _ _

  settle_at-IsScheduled :
      (id j : String) (now : ℕ) (p : PriceInfo) (s : FundingStore)
      → IsScheduled now j s
      → IsScheduled now j (settle_at env id now p s)
  settle_at-IsScheduled id j now p s h =
      subst (IsLater now j) (sym (settle_at-next_times id now p s))
        (insert-IsScheduled now id j s h)

  -- A market that is to settle later still is, whatever settles.
  fund_market-kept :
      (now : ℕ) (j : String) (m : Market) (s : FundingStore)
      → IsScheduled now j s
      → IsScheduled now j (fund_market env now m s)
  fund_market-kept now j =
      fund_market-keeps env now (IsScheduled now j) (λ m s h. h)
        (λ id p s h. settle_at-IsScheduled id j now p s h)
        (λ id s e h. insert-IsScheduled now id j s h)

  pub fund_markets-kept :
      (now : ℕ) (j : String) (ms : List Market) (s : FundingStore)
      → IsScheduled now j s
      → IsScheduled now j (fund_markets env now ms s)
  fund_markets-kept now j =
      fund_markets-keeps env now (IsScheduled now j) (λ m s h. h)
        (λ id p s h. settle_at-IsScheduled id j now p s h)
        (λ id s e h. insert-IsScheduled now id j s h)

  pub fund_market-prices :
      (now : ℕ) (m : Market) (s : FundingStore)
      → (fund_market env now m s).perp.prices ≡ s.perp.prices
  fund_market-prices now m s =
      fund_market-keeps env now (λ s'. s'.perp.prices ≡ s.perp.prices) (λ m s' h. h)
        (λ id p s' h. settle_at-prices id now p s' ∙ h) (λ id s' e h. h) m s refl

  pub settle_funding_done :
      (id : String) (now : ℕ) (m : Market) (p : PriceInfo) (s : FundingStore)
      → get_market id s.perp ≡ some m
      → get_price id s.perp ≡ some p
      → or_unsettled s (settle_funding env id now s) ≡ settle_at env id now p s
  unfolding settle_funding or_unsettled
  settle_funding_done id now m p s e e' = rw (e, e', settle_funding, or_unsettled) refl

  -- A market with a price that is due is settled, and scheduled anew.
  settle_market-IsScheduled :
      (now : ℕ) (m : Market) (s : FundingStore)
      → HasPrice s m
      → IsScheduled now m.market_id (settle_market env now m s)
  unfolding settle_market
  settle_market-IsScheduled now m s (p, e) =
      let s' = put_market (record m { status = settling }) s in
      subst (λ x. IsLater now m.market_id x.next_times)
        (sym (
          settle_funding_done m.market_id now (record m { status = settling }) p s'
            (lookup-insert_self m.market_id (record m { status = settling }) s.perp.markets) e))
        (subst (IsLater now m.market_id) (sym (settle_at-next_times m.market_id now p s'))
          (set_next-IsScheduled now m.market_id s'))

  pub fund_market-IsScheduled :
      (now : ℕ) (m : Market) (s : FundingStore)
      → HasPrice s m
      → IsScheduled now m.market_id (fund_market env now m s)
  unfolding fund_market
  fund_market-IsScheduled now m s (p, e) =
      let t = (scheduled now m s).0 in
      let s' = (scheduled now m s).1 in
      elim (Bool-cases (leb t now)) [
        | inl h ↦ rw h (
            settle_market-IsScheduled now m s'
              (p, ap (lookup m.market_id) (scheduled-prices now m s) ∙ e))
        | inr h ↦ rw h (t, scheduled-found now m s, later_of_leb t now h)
      ]
