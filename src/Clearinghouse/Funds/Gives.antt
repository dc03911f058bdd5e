-- ===== src/Clearinghouse/Funds/Gives.antt =====
-- x/clearinghouse/keeper/insurance.go: what one withdrawal towards a deficit takes, and from which
-- fund.
use perp_dex.Base.{
  ◌≡◌, refl, Bool, true, false, String, Option, none, some, same, same_self, if◌then◌else◌,
  Bool-cases, inl, inr, sym, ap, ◌∙◌, arith,
}
use perp_dex.Base.Dict.{lookup, lookup-insert}
use perp_dex.Base.Int.{◌+ℤ◌, ◌-ℤ◌, ◌≤ℤ◌, int_laws, eq_of_parts}
use perp_dex.Base.Outcome.{done}
use perp_dex.Decimal.{LegacyDec, zero_dec, is_positive, neg, min_dec, min_dec_le_left}
use perp_dex.Clearinghouse.Insurance.{InsuranceFund, withdraw, deficit_cover}
use perp_dex.Clearinghouse.Funds.{
  FundStore, FundEnv, set_insurance_fund, get_insurance_fund, Cover, record_insurance_event,
  generate_insurance_event_id, save_withdrawal, withdraw_from_insurance_fund, count_cover,
  cover_from,
}
use perp_dex.Clearinghouse.Funds.Kept.{IsKept}

abbrev pub balance_of : Option InsuranceFund → LegacyDec
balance_of (some f) = f.balance
balance_of none = zero_dec

-- The balance of a fund; one that is not stored has none.
unfoldable pub balance_in : String → FundStore → LegacyDec
balance_in id s = balance_of (get_insurance_fund id s)

-- From `c` to `d` the fund `id` has given `a`, and no other fund has changed.
pub record Gives (id : String) (a : LegacyDec) (c d : Cover) : Type 0 where
  pub covered_eq : d.covered ≡ c.covered +ℤ a
  pub remaining_eq : d.remaining ≡ c.remaining -ℤ a
  pub balance_eq : balance_in id d.cache ≡ balance_in id c.cache -ℤ a
  pub others_eq : (j : String) → same id j ≡ false → balance_in j d.cache ≡ balance_in j c.cache

plus_nothing : (x a : LegacyDec) → a ≡ zero_dec → x ≡ x +ℤ a
plus_nothing x a h = rw h (omega int_laws)

pub less_nothing : (x a : LegacyDec) → a ≡ zero_dec → x ≡ x -ℤ a
less_nothing x a h = rw h (omega int_laws)

-- Where nothing is given.
pub nothing_given : (id : String) (a : LegacyDec) (c : Cover) → a ≡ zero_dec → Gives id a c c
nothing_given id a c h = record {
  covered_eq = plus_nothing c.covered a h;
  remaining_eq = less_nothing c.remaining a h;
  balance_eq = less_nothing (balance_in id c.cache) a h;
  others_eq = λ j _. refl;
}

pub balance_in-some :
    (id : String) (s : FundStore) (f : InsuranceFund)
    → get_insurance_fund id s ≡ some f
    → balance_in id s ≡ f.balance
unfolding balance_in
balance_in-some id s f h = ap balance_of h

balance_of-if :
    (b : Bool) (f : InsuranceFund) (o : Option InsuranceFund)
    → balance_of (if b then some f else o) ≡ (if b then f.balance else balance_of o)
balance_of-if true f o = refl
balance_of-if false f o = refl

min_nothing :
    (b r : LegacyDec)
    → zero_dec ≤ℤ b
    → zero_dec ≤ℤ r
    → is_positive b ≡ false
    → min_dec b r ≡ zero_dec
min_nothing b r hb hr h = ground (arith, eq_of_parts (min_dec b r) zero_dec)

pub zero_of_nonpositive : (a : LegacyDec) → zero_dec ≤ℤ a → is_positive a ≡ false → a ≡ zero_dec
zero_of_nonpositive a ha h = ground (arith, eq_of_parts a zero_dec)

pub min_nonneg : (b r : LegacyDec) → zero_dec ≤ℤ b → zero_dec ≤ℤ r → zero_dec ≤ℤ min_dec b r
min_nonneg b r hb hr = ground arith

withdraw_pays :
    (amount : LegacyDec) (f : InsuranceFund)
    → amount ≤ℤ f.balance
    → ((withdraw amount f).1 ≡ true)
      × ((withdraw amount f).0.balance ≡ f.balance -ℤ amount)
      × ((withdraw amount f).0.fund_id ≡ f.fund_id)
unfolding withdraw
withdraw_pays amount f h = ground arith

module _ (env : FundEnv) where
  save_done :
      (id : String) (amount : LegacyDec) (liquidation desc : String) (s : FundStore)
      (f : InsuranceFund) (paid : Bool)
      → paid ≡ true
      → save_withdrawal env id amount liquidation desc s (f, paid)
        ≡ done (
            record_insurance_event env id deficit_cover
              (neg amount)
              liquidation
              desc
              (set_insurance_fund f s))
  unfolding save_withdrawal
  save_done id amount liquidation desc s f paid h = rw h refl

  -- A stored fund that has the amount pays it.
  withdraw_from_done :
      (id : String) (amount : LegacyDec) (liquidation desc : String) (s : FundStore)
      (f : InsuranceFund)
      → get_insurance_fund id s ≡ some f
      → amount ≤ℤ f.balance
      → withdraw_from_insurance_fund env id amount liquidation desc s
        ≡ done (
            record_insurance_event env id deficit_cover
              (neg amount)
              liquidation
              desc
              (set_insurance_fund (withdraw amount f).0 s))
  unfolding withdraw_from_insurance_fund
  withdraw_from_done id amount liquidation desc s f h hb =
      rw (h, withdraw_from_insurance_fund)
        (save_done id amount liquidation desc s (withdraw amount f).0 (withdraw amount f).1
          (withdraw_pays amount f hb).0)

  balance_in-saved :
      (id : String) (amount : LegacyDec) (liquidation desc j : String) (s : FundStore)
      (f : InsuranceFund)
      → balance_in j (
          record_insurance_event env id deficit_cover amount liquidation desc
            (set_insurance_fund f s))
        ≡ (if same f.fund_id j then f.balance else balance_in j s)
  unfolding balance_in record_insurance_event generate_insurance_event_id set_insurance_fund
  balance_in-saved id amount liquidation desc j s f =
      ap balance_of (lookup-insert f.fund_id j f s.funds)
      ∙ balance_of-if (same f.fund_id j) f (lookup j s.funds)

  balance_in-saved_self :
      (id : String) (amount : LegacyDec) (liquidation desc j : String) (s : FundStore)
      (f : InsuranceFund)
      → same f.fund_id j ≡ true
      → balance_in j (
          record_insurance_event env id deficit_cover amount liquidation desc
            (set_insurance_fund f s))
        ≡ f.balance
  balance_in-saved_self id amount liquidation desc j s f h =
      balance_in-saved id amount liquidation desc j s f ∙ rw h refl

  balance_in-saved_ne :
      (id : String) (amount : LegacyDec) (liquidation desc j : String) (s : FundStore)
      (f : InsuranceFund)
      → same f.fund_id j ≡ false
      → balance_in j (
          record_insurance_event env id deficit_cover amount liquidation desc
            (set_insurance_fund f s))
        ≡ balance_in j s
  balance_in-saved_ne id amount liquidation desc j s f h =
      balance_in-saved id amount liquidation desc j s f ∙ rw h refl

  -- A withdrawal of no more than the fund has.
  withdraw_from-Gives :
      (id liquidation : String) (amount : LegacyDec) (c : Cover) (f : InsuranceFund)
      → get_insurance_fund id c.cache ≡ some f
      → f.fund_id ≡ id
      → amount ≤ℤ f.balance
      → Gives id amount c (
          count_cover env amount c
            (withdraw_from_insurance_fund env id amount liquidation "deficit cover" c.cache))
  unfolding count_cover
  withdraw_from-Gives id liquidation amount c f h hid hb =
      let paid = withdraw_pays amount f hb in
      let fid : (withdraw amount f).0.fund_id ≡ id = paid.2 ∙ hid in
      rw (withdraw_from_done id amount liquidation "deficit cover" c.cache f h hb) (record {
        covered_eq = refl;
        remaining_eq = refl;
        balance_eq =
            balance_in-saved_self id (neg amount) liquidation "deficit cover" id c.cache
              (withdraw amount f).0 (rw fid (same_self id))
            ∙ paid.1
            ∙ ap (λ x. x -ℤ amount) (sym (balance_in-some id c.cache f h));
        others_eq = λ j hj.
            balance_in-saved_ne id (neg amount) liquidation "deficit cover" j c.cache
              (withdraw amount f).0 (rw fid hj);
      })

  pub cover_from-Gives :
      (id liquidation : String) (c : Cover) (f : InsuranceFund)
      → get_insurance_fund id c.cache ≡ some f
      → IsKept id f
      → zero_dec ≤ℤ c.remaining
      → Gives id (min_dec f.balance c.remaining) c (cover_from env id liquidation f.balance c)
  unfolding cover_from
  cover_from-Gives id liquidation c f h k hr =
      let a = min_dec f.balance c.remaining in
      let hb = k.balanced.balance_nonneg in
      elim (Bool-cases (is_positive f.balance)) [
        | inr e ↦ rw e (nothing_given id a c (min_nothing f.balance c.remaining hb hr e))
        | inl e ↦ elim (Bool-cases (is_positive a)) [
          | inr e' ↦
              rw (e, e')
                (nothing_given id a c
                  (zero_of_nonpositive a (min_nonneg f.balance c.remaining hb hr) e'))
          | inl e' ↦
              rw (e, e')
                (withdraw_from-Gives id liquidation a c f h k.fund_id_eq
                  (min_dec_le_left f.balance c.remaining))
        ]
      ]
