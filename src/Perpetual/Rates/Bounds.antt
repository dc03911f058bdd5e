-- ===== src/Perpetual/Rates/Bounds.antt =====
-- x/perpetual/keeper/funding.go: the bounds of the funding rate.
use perp_dex.Base.{String, Option-cases, inl, inr, arith, Bool, true, false, if◌then◌else◌}
use perp_dex.Base.Int.{◌≤ℤ◌, ◌+ℤ◌}
use perp_dex.Decimal.{LegacyDec, zero_dec, is_zero, is_positive}
use perp_dex.Perpetual.Store.{get_price}
use perp_dex.Perpetual.Rates.{
  FundingConfig, FundingStore, FundingEnv, get_funding_config, clamp, calculate_funding_rate,
  get_funding_info, adjusted_rate, calculate_funding_rate_v2,
}

-- Between the least and the greatest rate of a configuration.
abbrev pub IsWithin : FundingConfig → LegacyDec → Type 0
IsWithin c rate = (c.min_rate ≤ℤ rate) × (rate ≤ℤ c.max_rate)

clamp-IsWithin :
    (c : FundingConfig) (rate : LegacyDec) → c.min_rate ≤ℤ c.max_rate → IsWithin c (clamp c rate)
unfolding clamp
clamp-IsWithin c rate h = (ground arith, ground arith)

if-IsWithin :
    (c : FundingConfig) (b : Bool) (x y : LegacyDec)
    → IsWithin c x
    → IsWithin c y
    → IsWithin c (if b then x else y)
if-IsWithin c true x y hx hy = hx
if-IsWithin c false x y hx hy = hy

calculate_funding_rate-IsWithin :
    (env : FundingEnv) (id : String) (s : FundingStore)
    → IsWithin (get_funding_config id s) zero_dec
    → IsWithin (get_funding_config id s) (calculate_funding_rate env id s)
unfolding calculate_funding_rate
calculate_funding_rate-IsWithin env id s h = elim (Option-cases (get_price id s.perp)) [
  | inl e ↦ rw (e, calculate_funding_rate) h
  | inr (p, e) ↦
      rw (e, calculate_funding_rate)
        (if-IsWithin (get_funding_config id s) (is_zero p.index_price) zero_dec _ h
          (clamp-IsWithin (get_funding_config id s) _ (omega (arith, h.0, h.1))))
]

-- Where the configuration of a market lets the rate be zero, the rate that is settled lies between
-- the configuration's least and greatest rate, whatever the prices and the open interest.
pub calculate_funding_rate_v2-IsWithin :
    (env : FundingEnv) (id : String) (s : FundingStore)
    → IsWithin (get_funding_config id s) zero_dec
    → IsWithin (get_funding_config id s) (calculate_funding_rate_v2 env id s)
unfolding calculate_funding_rate_v2 adjusted_rate
calculate_funding_rate_v2-IsWithin env id s h =
    let base = calculate_funding_rate-IsWithin env id s h in
    elim (Option-cases (get_funding_info env id s)) [
      | inl e ↦ rw (e, calculate_funding_rate_v2) base
      | inr (i, e) ↦
          rw (e, calculate_funding_rate_v2)
            (if-IsWithin (get_funding_config id s)
              (is_positive (i.total_long_size +ℤ i.total_short_size)) _
              (calculate_funding_rate env id s)
              (clamp-IsWithin (get_funding_config id s) _ (omega (arith, h.0, h.1))) base)
    ]
