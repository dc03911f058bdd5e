-- ===== src/Perpetual/Funding/Steps.antt =====
-- x/perpetual/keeper/funding.go: what every step of the end blocker keeps, the end blocker keeps.
use perp_dex.Base.{ℕ, ◌≡◌, none, String, List, [], ◌∷◌, Bool-cases, Option-cases, inl, inr, leb}
use perp_dex.Perpetual.Types.{Market, PriceInfo, active, settling}
use perp_dex.Perpetual.Store.{get_market, get_price}
use perp_dex.Perpetual.Rates.{
  FundingStore, FundingEnv, next_funding_time, set_next_funding_time, get_next_funding_time,
}
use perp_dex.Perpetual.Funding.{
  settle_at, settle_funding, or_unsettled, put_market, settle_market, scheduled, fund_market,
  fund_markets,
}

module _ (env : FundingEnv) (now : ℕ) (P : FundingStore → Type 0)
    (put : (m : Market) (s : FundingStore) → P s → P (put_market m s))
    (settle : (id : String) (p : PriceInfo) (s : FundingStore) → P s → P (settle_at env id now p s))
    (plan : (id : String) (s : FundingStore)
      → get_next_funding_time id s ≡ none
      → P s
      → P (set_next_funding_time id (next_funding_time now) s)) where
  settle_funding-keeps :
      (id : String) (s : FundingStore) → P s → P (or_unsettled s (settle_funding env id now s))
  unfolding settle_funding or_unsettled
  settle_funding-keeps id s h = elim (Option-cases (get_market id s.perp)) [
    | inl e ↦ rw (e, settle_funding, or_unsettled) h
    | inr (m, e) ↦ elim (Option-cases (get_price id s.perp)) [
      | inl e' ↦ rw (e, e', settle_funding, or_unsettled) h
      | inr (p, e') ↦ rw (e, e', settle_funding, or_unsettled) (settle id p s h)
    ]
  ]

  settle_market-keeps : (m : Market) (s : FundingStore) → P s → P (settle_market env now m s)
  unfolding settle_market
  settle_market-keeps m s h =
      put (record m { status = active }) _
        (settle_funding-keeps m.market_id _ (put (record m { status = settling }) s h))

  scheduled-keeps : (m : Market) (s : FundingStore) → P s → P (scheduled now m s).1
  unfolding scheduled
  scheduled-keeps m s h = elim (Option-cases (get_next_funding_time m.market_id s)) [
    | inl e ↦ rw (e, scheduled) (plan m.market_id s e h)
    | inr (t, e) ↦ rw (e, scheduled) h
  ]

  pub fund_market-keeps : (m : Market) (s : FundingStore) → P s → P (fund_market env now m s)
  unfolding fund_market
  fund_market-keeps m s h = elim (Bool-cases (leb (scheduled now m s).0 now)) [
    | inl e ↦ rw e (settle_market-keeps m _ (scheduled-keeps m s h))
    | inr e ↦ rw e (scheduled-keeps m s h)
  ]

  pub fund_markets-keeps :
      (ms : List Market) (s : FundingStore) → P s → P (fund_markets env now ms s)
  unfolding fund_markets
  fund_markets-keeps [] s h = h
  fund_markets-keeps (m ∷ ms) s h = fund_markets-keeps ms _ (fund_market-keeps m s h)
