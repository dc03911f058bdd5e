-- ===== src/Clearinghouse/Funds.antt =====
-- x/clearinghouse/keeper/insurance.go: the store of the insurance funds, what is paid in and out,
-- and how a deficit is covered from two funds. Logs and emitted events are left out.
pub mod Kept
pub mod Gives
pub mod Parts
pub mod Deficit
use Prim.Native.String.{◌++◌}
use perp_dex.Base.{ℕ, Bool, true, false, String, List, [], ◌∷◌, Option, none, some, ◌||◌, ◌&&◌}
use perp_dex.Base.{◌+◌, ◌%◌, ◌^◌, suc, zero, same, if◌then◌else◌}
use perp_dex.Base.Dict.{Dict, lookup, insert}
use perp_dex.Base.Int.{◌+ℤ◌, ◌-ℤ◌}
use perp_dex.Base.Outcome.{Outcome, done, failed, panicked, ◌>>=◌}
use perp_dex.Decimal.{LegacyDec, zero_dec, is_positive, lt, neg, min_dec, Rounding}
use perp_dex.Clearinghouse.Insurance.{
  InsuranceFund, new_insurance_fund, deposit, withdraw, InsuranceFundConfig,
  default_insurance_fund_config, InsuranceEventType, liquidation_penalty, trading_fee,
  deficit_cover, InsuranceEvent,
}

pub data FundError : Type 0 where
  fund_not_found : String → FundError
  insufficient_fund_balance : FundError

-- One dictionary for each key prefix, the stored configuration and the counter of the events. An
-- encoded record that does not decode is not modelled.
pub record FundStore : Type 0 where
  pub funds : Dict InsuranceFund
  pub fund_config : Option InsuranceFundConfig
  pub events : Dict InsuranceEvent
  pub event_counter : ℕ

-- The rounding of the decimals, `fmt.Sprintf` at "ins-event-%d", and the reverse iterator of the
-- store, which gives the entries of a dictionary from the last of their keys.
pub record FundEnv : Type 0 where
  pub rounding : Rounding
  pub open rounding use *
  pub event_name : ℕ → String
  pub walk_back : Dict InsuranceEvent → Dict InsuranceEvent

abbrev pub global_fund_id : String
global_fund_id = "global"

abbrev pub market_fund_id : String → String
market_fund_id market_id = "market-" ++ market_id

unfoldable pub set_insurance_fund : InsuranceFund → FundStore → FundStore
set_insurance_fund f s = record s { funds = insert f.fund_id f s.funds }

abbrev pub get_insurance_fund : String → FundStore → Option InsuranceFund
get_insurance_fund id s = lookup id s.funds

-- The global fund is created when it is first asked for.
unfoldable pub get_global_insurance_fund : FundStore → InsuranceFund × FundStore
get_global_insurance_fund s =
    let new = new_insurance_fund global_fund_id "" in
    elim (get_insurance_fund global_fund_id s) [
      | some f ↦ (f, s)
      | none ↦ (new, set_insurance_fund new s)
    ]

unfoldable pub get_market_insurance_fund : String → FundStore → InsuranceFund × FundStore
get_market_insurance_fund market_id s = elim (get_insurance_fund (market_fund_id market_id) s) [
  | some f ↦ (f, s)
  | none ↦ get_global_insurance_fund s
]

unfoldable pub set_insurance_fund_config : InsuranceFundConfig → FundStore → FundStore
set_insurance_fund_config c s = record s { fund_config = some c }

unfoldable pub get_insurance_fund_config : FundStore → InsuranceFundConfig
get_insurance_fund_config s = elim s.fund_config [
  | some c ↦ c
  | none ↦ default_insurance_fund_config
]

-- `ShouldTriggerADL`: the answer, and the store in which the global fund exists.
unfoldable pub should_trigger_adl : LegacyDec → FundStore → Bool × FundStore
should_trigger_adl deficit s =
    let (g, s') = get_global_insurance_fund s in
    let c = get_insurance_fund_config s' in
    (lt g.balance c.min_fund_balance || (is_positive deficit && lt g.balance deficit), s')

pub record InsuranceFundStatus : Type 0 where
  pub global_balance : LegacyDec
  pub total_balance : LegacyDec
  pub adl_threshold : LegacyDec
  pub is_adl_triggered : Bool

-- `GetInsuranceFundStatus`; the balances per market stay empty in the source.
unfoldable pub get_insurance_fund_status : FundStore → InsuranceFundStatus × FundStore
get_insurance_fund_status s =
    let (g, s') = get_global_insurance_fund s in
    let c = get_insurance_fund_config s' in
    (
      record {
        global_balance = g.balance;
        total_balance = g.balance;
        adl_threshold = c.min_fund_balance;
        is_adl_triggered = lt g.balance c.min_fund_balance;
      },
      s',
    )

-- The first entries, up to a limit, of one fund, or of every fund where no fund is named.
unfoldable pub take_events : String → ℕ → Dict InsuranceEvent → List InsuranceEvent
take_events fund_id zero d = []
take_events fund_id (suc n) [] = []
take_events fund_id (suc n) ((_, e) ∷ d) =
    if same fund_id "" || same e.fund_id fund_id
    then e ∷ take_events fund_id n d
    else take_events fund_id (suc n) d

unfoldable pub get_insurance_events : FundEnv → String → ℕ → FundStore → List InsuranceEvent
get_insurance_events env fund_id limit s = take_events fund_id limit (env.walk_back s.events)

-- The answer of `CoverDeficit` with the store of its cache context.
pub record Cover : Type 0 where
  pub covered : LegacyDec
  pub remaining : LegacyDec
  pub cache : FundStore

module _ (env : FundEnv) where
  -- The counter is a uint64, and wraps.
  unfoldable pub generate_insurance_event_id : FundStore → String × FundStore
  generate_insurance_event_id s =
      let n = (s.event_counter + 1) % 2 ^ 64 in (env.event_name n, record s { event_counter = n })

  unfoldable pub record_insurance_event :
      String → InsuranceEventType → LegacyDec → String → String → FundStore → FundStore
  record_insurance_event fund_id event_type amount related_id description s =
      let (id, s') = generate_insurance_event_id s in
      let e : InsuranceEvent = record {
        event_id = id;
        fund_id = fund_id;
        event_type = event_type;
        amount = amount;
        related_id = related_id;
        description = description;
      } in
      record s' { events = insert id e s'.events }

  -- `DepositToInsuranceFund`, which has no error.
  unfoldable pub deposit_to_insurance_fund :
      String → LegacyDec → InsuranceEventType → String → FundStore → FundStore
  deposit_to_insurance_fund fund_id amount event_type related_id s =
      let f : InsuranceFund = elim (get_insurance_fund fund_id s) [
        | some f ↦ f
        | none ↦ new_insurance_fund fund_id ""
      ] in
      record_insurance_event fund_id event_type amount related_id "deposit"
        (set_insurance_fund (deposit amount f) s)

  -- What is written once `Withdraw` has answered.
  unfoldable pub save_withdrawal :
      String
      → LegacyDec
      → String
      → String
      → FundStore
      → InsuranceFund × Bool
      → Outcome FundError FundStore
  save_withdrawal fund_id amount related_id description s (f, false) =
      failed insufficient_fund_balance
  save_withdrawal fund_id amount related_id description s (f, true) = done (
      record_insurance_event fund_id deficit_cover (neg amount) related_id description
        (set_insurance_fund f s))

  -- An error of `WithdrawFromInsuranceFund` leaves the store as it was.
  unfoldable pub withdraw_from_insurance_fund :
      String → LegacyDec → String → String → FundStore → Outcome FundError FundStore
  withdraw_from_insurance_fund fund_id amount related_id description s =
      elim (get_insurance_fund fund_id s) [
        | none ↦ failed (fund_not_found fund_id)
        | some f ↦ save_withdrawal fund_id amount related_id description s (withdraw amount f)
      ]

  -- What a withdrawal of `amount` adds to what is covered.
  unfoldable pub count_cover : LegacyDec → Cover → Outcome FundError FundStore → Cover
  count_cover amount c (done s) = record {
    covered = c.covered +ℤ amount;
    remaining = c.remaining -ℤ amount;
    cache = s;
  }
  count_cover amount c (failed e) = c
  count_cover amount c panicked = c

  -- One fund's part in covering what remains.
  unfoldable pub cover_from : String → String → LegacyDec → Cover → Cover
  cover_from fund_id liquidation_id balance c =
      let amount = min_dec balance c.remaining in
      if is_positive balance
      then (if is_positive amount
          then count_cover amount c
              (withdraw_from_insurance_fund fund_id amount liquidation_id "deficit cover" c.cache)
          else c)
      else c

  unfoldable pub cover_from_market : String → String → Cover → Cover
  cover_from_market fund_id liquidation_id c = elim (get_insurance_fund fund_id c.cache) [
    | some f ↦ cover_from fund_id liquidation_id f.balance c
    | none ↦ c
  ]

  unfoldable pub cover_from_global : String → Cover → Cover
  cover_from_global liquidation_id c =
      if is_positive c.remaining
      then (let (g, s) = get_global_insurance_fund c.cache in
          cover_from global_fund_id liquidation_id g.balance (record c { cache = s }))
      else c

  -- `CoverDeficit`: what is covered, what remains, and the store, which keeps what was written only
  -- where something is covered.
  unfoldable pub cover_deficit :
      String → LegacyDec → String → FundStore → LegacyDec × LegacyDec × FundStore
  cover_deficit market_id deficit liquidation_id s =
      let start : Cover = record { covered = zero_dec; remaining = deficit; cache = s } in
      let c =
        cover_from_global liquidation_id
          (cover_from_market (market_fund_id market_id) liquidation_id start) in
      (c.covered, c.remaining, if is_positive c.covered then c.cache else s)

  -- The share of an amount that goes to the global fund.
  unfoldable pub deposit_share :
      LegacyDec → LegacyDec → InsuranceEventType → String → FundStore → FundStore
  deposit_share amount rate event_type related_id s =
      let share = env.mul amount rate in
      if is_positive share
      then deposit_to_insurance_fund global_fund_id share event_type related_id s
      else s

  -- `ProcessLiquidationPenalty`, given the penalty and the ID of the liquidation.
  unfoldable pub process_liquidation_penalty : LegacyDec → String → FundStore → FundStore
  process_liquidation_penalty penalty liquidation_id s =
      deposit_share penalty (get_insurance_fund_config s).liquidation_penalty_rate
        liquidation_penalty liquidation_id s

  unfoldable pub process_trading_fee : LegacyDec → String → FundStore → FundStore
  process_trading_fee total_fee trade_id s =
      deposit_share total_fee (get_insurance_fund_config s).trading_fee_rate trading_fee trade_id s
