-- ===== src/Clearinghouse/Funds/Parts.antt =====
-- x/clearinghouse/keeper/insurance.go: what the fund of a market and the global fund each give
-- to a deficit.
use Prim.Native.String.{count}
use text.Mathlib.TextLemmas.{length-append}
use perp_dex.Base.{
  ◌≡◌, refl, false, String, none, some, same, same_iff, same-cases, Bool-cases, Option-cases, inl,
  inr, sym, ap, subst, ◌∙◌, arith,
}
use perp_dex.Base.Dict.{Dict, lookup, insert, lookup-insert_ne, lookup-insert_self}
use perp_dex.Base.Int.{◌-ℤ◌, ◌≤ℤ◌, eq_of_parts}
use perp_dex.Decimal.{LegacyDec, zero_dec, is_positive, min_dec}
use perp_dex.Clearinghouse.Insurance.{InsuranceFund, new_insurance_fund}
use perp_dex.Clearinghouse.Funds.{
  FundStore, FundEnv, set_insurance_fund, get_insurance_fund, get_global_insurance_fund, Cover,
  cover_from, cover_from_market, cover_from_global, market_fund_id, global_fund_id,
}
use perp_dex.Clearinghouse.Funds.Kept.{Kept, Kept-found, global-Kept}
use perp_dex.Clearinghouse.Funds.Gives.{
  balance_in, balance_of, Gives, nothing_given, balance_in-some, cover_from-Gives,
}

market_fund-ne : (m : String) → market_fund_id m ≡ global_fund_id → ⊥
market_fund-ne m h = omega (arith, length-append "market-" m, ap count h)

-- No market's fund is the global one: its ID is longer.
pub market_fund-global : (m : String) → same (market_fund_id m) global_fund_id ≡ false
market_fund-global m = elim (Bool-cases (same (market_fund_id m) global_fund_id)) [
  | inr e ↦ e
  | inl e ↦ elim (market_fund-ne m ((same_iff (market_fund_id m) global_fund_id).0 e)) [ ]
]

pub balance_in-nonneg : (id : String) (s : FundStore) → Kept s.funds → zero_dec ≤ℤ balance_in id s
unfolding balance_in Kept
balance_in-nonneg id s k = elim (Option-cases (lookup id s.funds)) [
  | inl e ↦ rw e (omega arith)
  | inr (f, e) ↦ rw e ((k id f e).balanced.balance_nonneg)
]

get_global-found :
    (s : FundStore)
    → get_insurance_fund global_fund_id (get_global_insurance_fund s).1
      ≡ some (get_global_insurance_fund s).0
unfolding get_global_insurance_fund set_insurance_fund new_insurance_fund
get_global-found s = elim (Option-cases (lookup global_fund_id s.funds)) [
  | inl e ↦
      rw (e, get_global_insurance_fund)
        (lookup-insert_self global_fund_id (new_insurance_fund global_fund_id "") s.funds)
  | inr (f, e) ↦ rw (e, get_global_insurance_fund) e
]

balance_in-new :
    (j : String) (d : Dict InsuranceFund)
    → lookup global_fund_id d ≡ none
    → balance_of (lookup j (insert global_fund_id (new_insurance_fund global_fund_id "") d))
      ≡ balance_of (lookup j d)
unfolding new_insurance_fund
balance_in-new j d e =
    let new = new_insurance_fund global_fund_id "" in
    elim (same-cases global_fund_id j) [
      | inr e' ↦ ap balance_of (lookup-insert_ne global_fund_id j new d e')
      | inl e' ↦
          subst (λ i. balance_of (lookup i (insert global_fund_id new d)) ≡ balance_of (lookup i d))
            e' (ap balance_of (lookup-insert_self global_fund_id new d) ∙ sym (ap balance_of e))
    ]

balance_in-get_global :
    (j : String) (s : FundStore) → balance_in j (get_global_insurance_fund s).1 ≡ balance_in j s
unfolding get_global_insurance_fund set_insurance_fund new_insurance_fund balance_in
balance_in-get_global j s = elim (Option-cases (lookup global_fund_id s.funds)) [
  | inl e ↦ rw (e, get_global_insurance_fund) (balance_in-new j s.funds e)
  | inr (f, e) ↦ rw (e, get_global_insurance_fund) refl
]

min_zero :
    (b r : LegacyDec)
    → zero_dec ≤ℤ b
    → zero_dec ≤ℤ r
    → is_positive r ≡ false
    → min_dec b r ≡ zero_dec
min_zero b r hb hr h = ground (arith, eq_of_parts (min_dec b r) zero_dec)

min_none :
    (id : String) (s : FundStore) (r : LegacyDec)
    → get_insurance_fund id s ≡ none
    → zero_dec ≤ℤ r
    → min_dec (balance_in id s) r ≡ zero_dec
unfolding balance_in
min_none id s r e hr =
    rw (ap balance_of e) (ground (arith, eq_of_parts (min_dec zero_dec r) zero_dec))

module _ (env : FundEnv) where
  pub cover_from_market-Gives :
      (id liquidation : String) (c : Cover)
      → Kept c.cache.funds
      → zero_dec ≤ℤ c.remaining
      → Gives id
          (min_dec (balance_in id c.cache) c.remaining)
          c
          (cover_from_market env id liquidation c)
  unfolding cover_from_market
  cover_from_market-Gives id liquidation c k hr =
      elim (Option-cases (get_insurance_fund id c.cache)) [
        | inl e ↦
            rw (e, cover_from_market)
              (nothing_given id (min_dec (balance_in id c.cache) c.remaining) c
                (min_none id c.cache c.remaining e hr))
        | inr (f, e) ↦
            rw (e, cover_from_market)
              (subst
                (λ b.
                  Gives id (min_dec b c.remaining) c (cover_from env id liquidation f.balance c))
                (sym (balance_in-some id c.cache f e))
                (cover_from-Gives env id liquidation c f e (Kept-found id f c.cache.funds e k) hr))
      ]

  cover_global :
      (liquidation : String) (c : Cover) (g : InsuranceFund) (s : FundStore)
      → get_insurance_fund global_fund_id s ≡ some g
      → ((j : String) → balance_in j s ≡ balance_in j c.cache)
      → Kept s.funds
      → zero_dec ≤ℤ c.remaining
      → Gives global_fund_id
          (min_dec (balance_in global_fund_id c.cache) c.remaining)
          c
          (cover_from env global_fund_id liquidation g.balance (record c { cache = s }))
  cover_global liquidation c g s h hs k hr =
      let d : Cover = record c { cache = s } in
      let e : balance_in global_fund_id c.cache ≡ g.balance =
        sym (hs global_fund_id) ∙ balance_in-some global_fund_id s g h in
      let gives =
        cover_from-Gives env global_fund_id liquidation d g h
          (Kept-found global_fund_id g s.funds h k) hr in
      rw e (record {
        covered_eq = gives.covered_eq;
        remaining_eq = gives.remaining_eq;
        balance_eq =
            gives.balance_eq ∙ ap (λ x. x -ℤ min_dec g.balance c.remaining) (hs global_fund_id);
        others_eq = λ j hj. gives.others_eq j hj ∙ hs j;
      })

  pub cover_from_global-Gives :
      (liquidation : String) (c : Cover)
      → Kept c.cache.funds
      → zero_dec ≤ℤ c.remaining
      → Gives global_fund_id
          (min_dec (balance_in global_fund_id c.cache) c.remaining)
          c
          (cover_from_global env liquidation c)
  unfolding cover_from_global
  cover_from_global-Gives liquidation c k hr = elim (Bool-cases (is_positive c.remaining)) [
    | inr e ↦ rw e (
        nothing_given global_fund_id (min_dec (balance_in global_fund_id c.cache) c.remaining) c (
          min_zero (balance_in global_fund_id c.cache) c.remaining
            (balance_in-nonneg global_fund_id c.cache k) hr e))
    | inl e ↦ rw e (
        cover_global liquidation c (get_global_insurance_fund c.cache).0
          (get_global_insurance_fund c.cache).1 (get_global-found c.cache)
          (λ j. balance_in-get_global j c.cache) (global-Kept c.cache k) hr)
  ]
