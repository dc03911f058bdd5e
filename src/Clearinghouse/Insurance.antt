-- ===== src/Clearinghouse/Insurance.antt =====
-- x/clearinghouse/types/insurance.go: the insurance fund of a market, its configuration and its
-- events. Times are left out: they are only recorded.
use perp_dex.Base.{◌≡◌, refl, Bool, true, false, String, List, [], ◌∷◌, if◌then◌else◌, arith}
use perp_dex.Base.Int.{◌+ℤ◌, ◌-ℤ◌, ◌≤ℤ◌, int_laws, +ℤ_parts, -ℤ_parts}
use perp_dex.Decimal.{LegacyDec, zero_dec, new_dec, new_dec_with_prec, lt, gte}

pub record InsuranceFund : Type 0 where
  pub fund_id : String
  pub market_id : String
  pub balance : LegacyDec
  pub total_deposits : LegacyDec
  pub total_payouts : LegacyDec

unfoldable pub new_insurance_fund : String → String → InsuranceFund
new_insurance_fund fund_id market_id = record {
  fund_id = fund_id;
  market_id = market_id;
  balance = zero_dec;
  total_deposits = zero_dec;
  total_payouts = zero_dec;
}

unfoldable pub deposit : LegacyDec → InsuranceFund → InsuranceFund
deposit amount f = record f {
  balance = f.balance +ℤ amount;
  total_deposits = f.total_deposits +ℤ amount;
}

-- `Withdraw`: the fund that it leaves, and whether it paid.
unfoldable pub withdraw : LegacyDec → InsuranceFund → InsuranceFund × Bool
withdraw amount f = if lt f.balance amount then (f, false) else (
  record f { balance = f.balance -ℤ amount; total_payouts = f.total_payouts +ℤ amount },
  true,
)

abbrev pub can_cover : LegacyDec → InsuranceFund → Bool
can_cover amount f = gte f.balance amount

pub record InsuranceFundConfig : Type 0 where
  pub liquidation_penalty_rate : LegacyDec
  pub trading_fee_rate : LegacyDec
  pub adl_threshold : LegacyDec
  pub min_fund_balance : LegacyDec

unfoldable pub default_insurance_fund_config : InsuranceFundConfig
default_insurance_fund_config = record {
  liquidation_penalty_rate = new_dec_with_prec 2 1;
  trading_fee_rate = new_dec_with_prec 1 1;
  adl_threshold = new_dec_with_prec 1 2;
  min_fund_balance = new_dec 10000;
}

pub data InsuranceEventType : Type 0 where
  deposited liquidation_penalty trading_fee deficit_cover adl_trigger : InsuranceEventType

unfoldable pub event_type_string : InsuranceEventType → String
event_type_string deposited = "deposit"
event_type_string liquidation_penalty = "liquidation_penalty"
event_type_string trading_fee = "trading_fee"
event_type_string deficit_cover = "deficit_cover"
event_type_string adl_trigger = "adl_trigger"

pub record InsuranceEvent : Type 0 where
  pub event_id : String
  pub fund_id : String
  pub event_type : InsuranceEventType
  pub amount : LegacyDec
  pub related_id : String
  pub description : String

-- A use of the fund, by an amount that is not negative.
pub data Use : Type 0 where
  pays_in pays_out : (amount : LegacyDec) → zero_dec ≤ℤ amount → Use

abbrev pub apply : Use → InsuranceFund → InsuranceFund
apply (pays_in amount h) f = deposit amount f
apply (pays_out amount h) f = (withdraw amount f).0

abbrev pub apply_all : List Use → InsuranceFund → InsuranceFund
apply_all [] f = f
apply_all (u ∷ us) f = apply_all us (apply u f)

-- The balance is what came in less what went out, and is not negative.
pub record IsBalanced (f : InsuranceFund) : Type 0 where
  pub balance_eq : f.balance ≡ f.total_deposits -ℤ f.total_payouts
  pub balance_nonneg : zero_dec ≤ℤ f.balance

less_paid : (b d p a : LegacyDec) → b ≡ d -ℤ p → b -ℤ a ≡ d -ℤ (p +ℤ a)
less_paid b d p a h = rw h (omega int_laws)

pub apply-IsBalanced : (u : Use) (f : InsuranceFund) → IsBalanced f → IsBalanced (apply u f)
unfolding deposit withdraw
apply-IsBalanced (pays_in a h) f b = record {
  balance_eq = rw b.balance_eq (omega int_laws);
  balance_nonneg = omega (arith, +ℤ_parts f.balance a, b.balance_nonneg, h);
}
apply-IsBalanced (pays_out a h) f b = record {
  balance_eq =
      ground
        (arith, less_paid f.balance f.total_deposits f.total_payouts a b.balance_eq, b.balance_eq);
  balance_nonneg = ground (arith, -ℤ_parts f.balance a, b.balance_nonneg);
}

-- However often money is paid into a fund that balances, and asked of it, in any order and by any
-- amounts that are not negative, its balance stays what came in less what went out, and never
-- falls below zero.
pub apply_all-IsBalanced :
    (us : List Use) (f : InsuranceFund) → IsBalanced f → IsBalanced (apply_all us f)
apply_all-IsBalanced [] f b = b
apply_all-IsBalanced (u ∷ us) f b = apply_all-IsBalanced us (apply u f) (apply-IsBalanced u f b)

pub new_insurance_fund-IsBalanced :
    (fund_id market_id : String) → IsBalanced (new_insurance_fund fund_id market_id)
unfolding new_insurance_fund ◌-ℤ◌
new_insurance_fund-IsBalanced fund_id market_id = record {
  balance_eq = refl;
  balance_nonneg = omega arith;
}
