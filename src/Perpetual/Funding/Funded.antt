-- ===== src/Perpetual/Funding/Funded.antt =====
-- x/perpetual/keeper/funding.go: what the end blocker makes of every active market.
use perp_dex.Base.{
  ℕ, ◌≡◌, ◌⊎◌, true, List, [], ◌∷◌, none, inl, inr, ap, ◌∙◌, All, All-map, leb, Option-cases,
}
use perp_dex.Base.Dict.{lookup}
use perp_dex.Perpetual.Types.{Market}
use perp_dex.Perpetual.Store.{get_price}
use perp_dex.Perpetual.Rates.{FundingStore, FundingEnv, get_next_funding_time, list_active_markets}
use perp_dex.Perpetual.Funding.{fund_market, fund_markets, funding_end_blocker}
use perp_dex.Perpetual.Funding.Schedule.{
  IsScheduled, HasPrice, fund_markets-kept, fund_market-prices, fund_market-IsScheduled,
}
use perp_dex.Perpetual.Funding.Recorded.{
  Waits, due_or_not, IsRecorded, Due, fund_markets-IsRecorded, fund_market-Due,
  fund_market-IsRecorded,
}

module _ (env : FundingEnv) (now : ℕ) (start : FundingStore) where
  -- From `start` to `s`: the market has no price, or it is to settle after `now`, and was either not
  -- due or has had a rate recorded.
  abbrev pub IsFunded : FundingStore → Market → Type 0
  IsFunded s m =
      (get_price m.market_id start.perp ≡ none)
      ⊎ (IsScheduled now m.market_id s
          × (Waits now m.market_id start ⊎ IsRecorded env now m.market_id s))

  -- The same before its turn.
  abbrev IsReady : FundingStore → Market → Type 0
  IsReady s m =
      (get_price m.market_id start.perp ≡ none)
      ⊎ (HasPrice s m
          × (Waits now m.market_id start
              ⊎ ((t : ℕ) × (leb t now ≡ true) × Due env now t m.market_id s)))

  start-IsReady : (m : Market) → IsReady start m
  start-IsReady m = elim (Option-cases (get_price m.market_id start.perp)) [
    | inl e ↦ inl e
    | inr (p, e) ↦ elim (Option-cases (get_next_funding_time m.market_id start)) [
      | inl n ↦ inr ((p, e), inl (inl n))
      | inr (t, n) ↦ elim (due_or_not now t m.market_id start n) [
        | inl w ↦ inr ((p, e), inl w)
        | inr d ↦ inr ((p, e), inr (t, d, inl n))
      ]
    ]
  ]

  All-IsReady : (ms : List Market) → All (IsReady start) ms
  All-IsReady [] = tt
  All-IsReady (m ∷ ms) = (start-IsReady m, All-IsReady ms)

  fund_market-HasPrice :
      (j m : Market) (s : FundingStore) → HasPrice s m → HasPrice (fund_market env now j s) m
  fund_market-HasPrice j m s (p, e) =
      (p, ap (lookup m.market_id) (fund_market-prices env now j s) ∙ e)

  fund_market-IsReady :
      (j m : Market) (s : FundingStore) → IsReady s m → IsReady (fund_market env now j s) m
  fund_market-IsReady j m s (inl h) = inl h
  fund_market-IsReady j m s (inr (hp, inl w)) = inr (fund_market-HasPrice j m s hp, inl w)
  fund_market-IsReady j m s (inr (hp, inr (t, d, due))) =
      inr (fund_market-HasPrice j m s hp, inr (t, d, fund_market-Due env now t m.market_id j s due))

  -- A market's turn, and the turns behind it.
  turn-IsFunded :
      (m : Market) (ms : List Market) (s : FundingStore)
      → IsReady s m
      → IsFunded (fund_markets env now ms (fund_market env now m s)) m
  turn-IsFunded m ms s (inl h) = inl h
  turn-IsFunded m ms s (inr (hp, inl w)) =
      inr
        (fund_markets-kept env now m.market_id ms _ (fund_market-IsScheduled env now m s hp), inl w)
  turn-IsFunded m ms s (inr (hp, inr (t, d, due))) = inr (
    fund_markets-kept env now m.market_id ms _ (fund_market-IsScheduled env now m s hp),
    inr (
        fund_markets-IsRecorded env now m.market_id ms _
          (fund_market-IsRecorded env now t m s hp d due)),
  )

  fund_markets-IsFunded :
      (ms : List Market) (s : FundingStore)
      → All (IsReady s) ms
      → All (IsFunded (fund_markets env now ms s)) ms
  unfolding fund_markets
  fund_markets-IsFunded [] s h = tt
  fund_markets-IsFunded (m ∷ ms) s (h, hs) = (
    turn-IsFunded m ms s h,
    fund_markets-IsFunded ms (fund_market env now m s) (
        All-map (IsReady s) (IsReady (fund_market env now m s)) ms
          (λ j k. fund_market-IsReady m j s k) hs),
  )

-- After the end blocker every active market that has a price has a next funding time later than
-- the block; and where it was due, with a next time no later than the block, a funding rate of the
-- market has been recorded. A market without a price is left out.
pub funding_end_blocker-IsFunded :
    (env : FundingEnv) (now : ℕ) (s : FundingStore)
    → All (IsFunded env now s (funding_end_blocker env now s)) (list_active_markets env s)
unfolding funding_end_blocker
funding_end_blocker-IsFunded env now s =
    fund_markets-IsFunded env now s (list_active_markets env s) s
      (All-IsReady env now s (list_active_markets env s))
