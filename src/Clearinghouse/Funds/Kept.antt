-- ===== src/Clearinghouse/Funds/Kept.antt =====
-- x/clearinghouse/keeper/insurance.go: every stored fund balances, through any run of the keeper's
-- calls.
use perp_dex.Base.{
  ◌≡◌, Bool, true, false, String, List, [], ◌∷◌, some, if◌then◌else◌, Bool-cases, Option-cases, inl,
  inr, sym, subst, ap, ◌∙◌, arith,
}
use perp_dex.Base.Dict.{Dict, lookup, insert, lookup-insert_found}
use perp_dex.Base.Int.{◌≤ℤ◌}
use perp_dex.Base.Outcome.{Outcome, done, failed, panicked}
use perp_dex.Decimal.{LegacyDec, zero_dec, is_positive, min_dec}
use perp_dex.Clearinghouse.Insurance.{
  InsuranceFund, new_insurance_fund, deposit, withdraw, IsBalanced, InsuranceFundConfig,
  InsuranceEventType, liquidation_penalty, trading_fee, pays_in, pays_out, apply-IsBalanced,
  new_insurance_fund-IsBalanced,
}
use perp_dex.Clearinghouse.Funds.{
  FundError, FundStore, FundEnv, set_insurance_fund, get_insurance_fund, get_global_insurance_fund,
  set_insurance_fund_config, Cover, record_insurance_event, generate_insurance_event_id,
  deposit_to_insurance_fund, save_withdrawal, withdraw_from_insurance_fund, count_cover, cover_from,
  cover_from_market, cover_from_global, cover_deficit, deposit_share, process_liquidation_penalty,
  process_trading_fee, get_insurance_fund_config, market_fund_id, global_fund_id,
}

-- A fund that is stored under its own ID and balances.
pub record IsKept (id : String) (f : InsuranceFund) : Type 0 where
  pub fund_id_eq : f.fund_id ≡ id
  pub balanced : IsBalanced f

unfoldable pub Kept : Dict InsuranceFund → Type 0
Kept d = (id : String) (f : InsuranceFund) → lookup id d ≡ some f → IsKept id f

pub Kept-found :
    (id : String) (f : InsuranceFund) (d : Dict InsuranceFund)
    → lookup id d ≡ some f
    → Kept d
    → IsKept id f
unfolding Kept
Kept-found id f d h k = k id f h

Kept-balance :
    (id : String) (f : InsuranceFund) (d : Dict InsuranceFund)
    → lookup id d ≡ some f
    → Kept d
    → IsBalanced f
Kept-balance id f d h k = (Kept-found id f d h k).balanced

pub insert-Kept :
    (f : InsuranceFund) (d : Dict InsuranceFund)
    → IsBalanced f
    → Kept d
    → Kept (insert f.fund_id f d)
unfolding Kept
insert-Kept f d b k id g h = elim (lookup-insert_found f.fund_id id f d h) [
  | inl (e, e') ↦ record {
    fund_id_eq = ap (λ x. x.fund_id) (sym e') ∙ e;
    balanced = subst IsBalanced e' b;
  }
  | inr (e, h') ↦ k id g h'
]

withdraw-IsBalanced :
    (amount : LegacyDec) (f : InsuranceFund)
    → zero_dec ≤ℤ amount
    → IsBalanced f
    → IsBalanced (withdraw amount f).0
withdraw-IsBalanced amount f h b = apply-IsBalanced (pays_out amount h) f b

fund_id-withdraw :
    (amount : LegacyDec) (f : InsuranceFund) → (withdraw amount f).0.fund_id ≡ f.fund_id
unfolding withdraw
fund_id-withdraw amount f = ground arith

positive-nonneg : (x : LegacyDec) → is_positive x ≡ true → zero_dec ≤ℤ x
positive-nonneg x h = ground arith

if-Kept :
    (b : Bool) (x y : FundStore) → Kept x.funds → Kept y.funds → Kept (if b then x else y).funds
if-Kept true x y h k = h
if-Kept false x y h k = k

-- The store that a payment leaves.
abbrev pub after : FundStore → Outcome FundError FundStore → FundStore
after s (done s') = s'
after s (failed e) = s
after s panicked = s

pub global-Kept : (s : FundStore) → Kept s.funds → Kept (get_global_insurance_fund s).1.funds
unfolding get_global_insurance_fund set_insurance_fund
global-Kept s k = elim (Option-cases (lookup global_fund_id s.funds)) [
  | inl e ↦
      rw (e, get_global_insurance_fund)
        (insert-Kept (new_insurance_fund global_fund_id "") s.funds
          (new_insurance_fund-IsBalanced global_fund_id "") k)
  | inr (f, e) ↦ rw (e, get_global_insurance_fund) k
]

module _ (env : FundEnv) where
  deposit_to-Kept :
      (id : String) (amount : LegacyDec) (t : InsuranceEventType) (related : String) (s : FundStore)
      → zero_dec ≤ℤ amount
      → Kept s.funds
      → Kept (deposit_to_insurance_fund env id amount t related s).funds
  unfolding deposit_to_insurance_fund set_insurance_fund record_insurance_event
      generate_insurance_event_id
  deposit_to-Kept id amount t related s h k = elim (Option-cases (lookup id s.funds)) [
    | inl e ↦ rw e (
        insert-Kept (deposit amount (new_insurance_fund id "")) s.funds
          (apply-IsBalanced (pays_in amount h) (new_insurance_fund id "")
            (new_insurance_fund-IsBalanced id ""))
          k)
    | inr (f, e) ↦ rw e (
        insert-Kept (deposit amount f) s.funds
          (apply-IsBalanced (pays_in amount h) f (Kept-balance id f s.funds e k)) k)
  ]

  save_withdrawal-Kept :
      (id : String) (amount : LegacyDec) (related desc : String) (s : FundStore) (f : InsuranceFund)
      (paid : Bool)
      → IsBalanced f
      → Kept s.funds
      → Kept (after s (save_withdrawal env id amount related desc s (f, paid))).funds
  unfolding save_withdrawal set_insurance_fund record_insurance_event generate_insurance_event_id
  save_withdrawal-Kept id amount related desc s f true b k = insert-Kept f s.funds b k
  save_withdrawal-Kept id amount related desc s f false b k = k

  withdraw_from-Kept :
      (id : String) (amount : LegacyDec) (related desc : String) (s : FundStore)
      → zero_dec ≤ℤ amount
      → Kept s.funds
      → Kept (after s (withdraw_from_insurance_fund env id amount related desc s)).funds
  unfolding withdraw_from_insurance_fund
  withdraw_from-Kept id amount related desc s h k = elim (Option-cases (lookup id s.funds)) [
    | inl e ↦ rw (e, withdraw_from_insurance_fund, after) k
    | inr (f, e) ↦
        rw (e, withdraw_from_insurance_fund, after)
          (save_withdrawal-Kept id amount related desc s (withdraw amount f).0 (withdraw amount f).1
            (withdraw-IsBalanced amount f h (Kept-balance id f s.funds e k)) k)
  ]

  count_cover-Kept :
      (amount : LegacyDec) (c : Cover) (o : Outcome FundError FundStore)
      → Kept c.cache.funds
      → Kept (after c.cache o).funds
      → Kept (count_cover env amount c o).cache.funds
  unfolding count_cover
  count_cover-Kept amount c (done s) k h = h
  count_cover-Kept amount c (failed e) k h = k
  count_cover-Kept amount c panicked k h = k

  cover_from-Kept :
      (id liquidation : String) (balance : LegacyDec) (c : Cover)
      → Kept c.cache.funds
      → Kept (cover_from env id liquidation balance c).cache.funds
  unfolding cover_from
  cover_from-Kept id liquidation balance c k = elim (Bool-cases (is_positive balance)) [
    | inr e ↦ rw e k
    | inl e ↦ elim (Bool-cases (is_positive (min_dec balance c.remaining))) [
      | inr e' ↦ rw (e, e') k
      | inl e' ↦
          rw (e, e')
            (count_cover-Kept (min_dec balance c.remaining) c
              (withdraw_from_insurance_fund env id (min_dec balance c.remaining) liquidation
                "deficit cover" c.cache)
              k
              (withdraw_from-Kept id (min_dec balance c.remaining) liquidation "deficit cover"
                c.cache (positive-nonneg (min_dec balance c.remaining) e') k))
    ]
  ]

  pub cover_from_market-Kept :
      (id liquidation : String) (c : Cover)
      → Kept c.cache.funds
      → Kept (cover_from_market env id liquidation c).cache.funds
  unfolding cover_from_market
  cover_from_market-Kept id liquidation c k = elim (Option-cases (get_insurance_fund id c.cache)) [
    | inl e ↦ rw (e, cover_from_market) k
    | inr (f, e) ↦ rw (e, cover_from_market) (cover_from-Kept id liquidation f.balance c k)
  ]

  cover_from_global-Kept :
      (liquidation : String) (c : Cover)
      → Kept c.cache.funds
      → Kept (cover_from_global env liquidation c).cache.funds
  unfolding cover_from_global
  cover_from_global-Kept liquidation c k = elim (Bool-cases (is_positive c.remaining)) [
    | inr e ↦ rw e k
    | inl e ↦ rw e (
        cover_from-Kept global_fund_id liquidation (get_global_insurance_fund c.cache).0.balance
          (record c { cache = (get_global_insurance_fund c.cache).1 }) (global-Kept c.cache k))
  ]

  cover_deficit-Kept :
      (market_id : String) (deficit : LegacyDec) (liquidation : String) (s : FundStore)
      → Kept s.funds
      → Kept (cover_deficit env market_id deficit liquidation s).2.funds
  unfolding cover_deficit
  cover_deficit-Kept market_id deficit liquidation s k =
      let start : Cover = record { covered = zero_dec; remaining = deficit; cache = s } in
      let c = cover_from_market env (market_fund_id market_id) liquidation start in
      let c' = cover_from_global env liquidation c in
      if-Kept (is_positive c'.covered) c'.cache s
        (cover_from_global-Kept liquidation c
          (cover_from_market-Kept (market_fund_id market_id) liquidation start k))
        k

  deposit_share-Kept :
      (amount rate : LegacyDec) (t : InsuranceEventType) (related : String) (s : FundStore)
      → Kept s.funds
      → Kept (deposit_share env amount rate t related s).funds
  unfolding deposit_share
  deposit_share-Kept amount rate t related s k =
      elim (Bool-cases (is_positive (env.mul amount rate))) [
        | inr e ↦ rw e k
        | inl e ↦ rw e (
            deposit_to-Kept global_fund_id (env.mul amount rate) t related s
              (positive-nonneg (env.mul amount rate) e) k)
      ]

-- The calls that change the funds; the amounts that callers choose are not negative.
pub data FundCall : Type 0 where
  pays_to :
      String → (amount : LegacyDec) → zero_dec ≤ℤ amount → InsuranceEventType → String → FundCall
  takes_from : String → (amount : LegacyDec) → zero_dec ≤ℤ amount → String → String → FundCall
  covers : String → LegacyDec → String → FundCall
  penalizes charges : LegacyDec → String → FundCall
  configures : InsuranceFundConfig → FundCall

abbrev pub make_call : FundEnv → FundCall → FundStore → FundStore
make_call env (pays_to id amount h t related) s =
    deposit_to_insurance_fund env id amount t related s
make_call env (takes_from id amount h related desc) s =
    after s (withdraw_from_insurance_fund env id amount related desc s)
make_call env (covers market_id deficit liquidation) s =
    (cover_deficit env market_id deficit liquidation s).2
make_call env (penalizes penalty liquidation) s =
    process_liquidation_penalty env penalty liquidation s
make_call env (charges fee trade) s = process_trading_fee env fee trade s
make_call env (configures c) s = set_insurance_fund_config c s

make_call-Kept :
    (env : FundEnv) (c : FundCall) (s : FundStore) → Kept s.funds → Kept (make_call env c s).funds
unfolding process_liquidation_penalty process_trading_fee set_insurance_fund_config
make_call-Kept env (pays_to id amount h t related) s k =
    deposit_to-Kept env id amount t related s h k
make_call-Kept env (takes_from id amount h related desc) s k =
    withdraw_from-Kept env id amount related desc s h k
make_call-Kept env (covers market_id deficit liquidation) s k =
    cover_deficit-Kept env market_id deficit liquidation s k
make_call-Kept env (penalizes penalty liquidation) s k =
    deposit_share-Kept env penalty (get_insurance_fund_config s).liquidation_penalty_rate
      liquidation_penalty liquidation s k
make_call-Kept env (charges fee trade) s k =
    deposit_share-Kept env fee (get_insurance_fund_config s).trading_fee_rate trading_fee trade s k
make_call-Kept env (configures c) s k = k

abbrev pub make_calls : FundEnv → List FundCall → FundStore → FundStore
make_calls env [] s = s
make_calls env (c ∷ cs) s = make_calls env cs (make_call env c s)

-- Through any run of the keeper's calls, refused ones included, every stored fund stays under its
-- own ID and balances: what it has is what came in less what went out, and never negative. The
-- deficits, penalties and fees are any amounts; what callers pay in or take out is not negative.
pub make_calls-Kept :
    (env : FundEnv) (cs : List FundCall) (s : FundStore)
    → Kept s.funds
    → Kept (make_calls env cs s).funds
make_calls-Kept env [] s k = k
make_calls-Kept env (c ∷ cs) s k =
    make_calls-Kept env cs (make_call env c s) (make_call-Kept env c s k)
