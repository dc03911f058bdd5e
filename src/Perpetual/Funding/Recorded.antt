-- ===== src/Perpetual/Funding/Recorded.antt =====
-- x/perpetual/keeper/funding.go: what the end blocker makes of every active market.
use Prim.Native.String.{◌++◌}
use text.Mathlib.TextLemmas.{append_cancel_right}
use perp_dex.Base.{
  ℕ, ◌<◌, ◌≡◌, ◌⊎◌, refl, true, false, String, List, [], ◌∷◌, none, some, inl, inr, arith, subst,
  sym, ap, ◌∙◌, leb, same, same_iff, Bool-cases,
}
use perp_dex.Base.Dict.{lookup, insert, lookup-insert, lookup-insert_self, lookup-insert_ne}
use perp_dex.Decimal.{LegacyDec}
use perp_dex.Perpetual.Types.{Market, PriceInfo, Position, settling}
use perp_dex.Perpetual.Rates.{
  FundingRate, FundingStore, FundingEnv, next_funding_time, set_funding_rate, get_next_funding_time,
  generate_payment_id, save_funding_payment, calculate_funding_rate_v2,
}
use perp_dex.Perpetual.Funding.{
  settle_position, settle_positions, settle_at, put_market, settle_market, scheduled, fund_market,
  fund_markets,
}
use perp_dex.Perpetual.Funding.Steps.{fund_market-keeps, fund_markets-keeps}
use perp_dex.Perpetual.Funding.Schedule.{HasPrice, settle_at-next_times, settle_funding_done}

-- The market has no next time, or one later than `now`.
abbrev pub Waits : ℕ → String → FundingStore → Type 0
Waits now id s =
    (get_next_funding_time id s ≡ none)
    ⊎ ((t : ℕ) × (get_next_funding_time id s ≡ some t) × (now < t))

none-some : {A : Type 0} (a : A) → none ≡ some a → ⊥
none-some a h = ground arith

later_than : (t now : ℕ) → leb t now ≡ false → now < t
later_than t now h = ground arith

pub due_or_not :
    (now t : ℕ) (id : String) (s : FundingStore)
    → get_next_funding_time id s ≡ some t
    → Waits now id s ⊎ (leb t now ≡ true)
due_or_not now t id s e = elim (Bool-cases (leb t now)) [
  | inl h ↦ inr h
  | inr h ↦ inl (inr (t, e, later_than t now h))
]

module _ (env : FundingEnv) (now : ℕ) where
  -- The key of a rate of the market at the time on the wall.
  abbrev pub rate_key : String → String
  rate_key id = id ++ ":" ++ env.digits env.wall_time

  rate_key_inj : (i j : String) → rate_key i ≡ rate_key j → i ≡ j
  rate_key_inj i j h = append_cancel_right i j (":" ++ env.digits env.wall_time) h

  -- A funding rate of the market has been recorded.
  abbrev pub IsRecorded : String → FundingStore → Type 0
  IsRecorded id s =
      (r : FundingRate) × (lookup (rate_key id) s.rates ≡ some r)
      × ((r.market_id ≡ id) × (r.timestamp ≡ env.wall_time))

  settle_positions-rates :
      (id : String) (rate mark : LegacyDec) (ps : List Position) (s : FundingStore)
      → (settle_positions env id rate mark now ps s).rates ≡ s.rates
  unfolding settle_positions settle_position generate_payment_id save_funding_payment
  settle_positions-rates id rate mark [] s = refl
  settle_positions-rates id rate mark (p ∷ ps) s =
      settle_positions-rates id rate mark ps (settle_position env id rate mark now p s)

  settle_at-rates :
      (id : String) (p : PriceInfo) (s : FundingStore)
      → (r : FundingRate) × ((settle_at env id now p s).rates ≡ insert (rate_key id) r s.rates)
        × ((r.market_id ≡ id) × (r.timestamp ≡ env.wall_time))
  unfolding settle_at set_funding_rate
  settle_at-rates id p s = (
    record {
      market_id = id;
      rate = calculate_funding_rate_v2 env id s;
      mark_price = p.mark_price;
      index_price = p.index_price;
      timestamp = env.wall_time;
    },
    settle_positions-rates id _ p.mark_price _ _,
    (refl, refl),
  )

  settle_at-IsRecorded :
      (id : String) (p : PriceInfo) (s : FundingStore) → IsRecorded id (settle_at env id now p s)
  settle_at-IsRecorded id p s =
      let (r, e, terms) = settle_at-rates id p s in
      (r, ap (lookup (rate_key id)) e ∙ lookup-insert_self (rate_key id) r s.rates, terms)

  -- Whatever settles, a recorded rate stays, or one of the same market takes its place.
  settle_at-kept :
      (id j : String) (p : PriceInfo) (s : FundingStore)
      → IsRecorded j s
      → IsRecorded j (settle_at env id now p s)
  settle_at-kept id j p s (r, e, terms) =
      let (r', e', terms') = settle_at-rates id p s in
      elim (Bool-cases (same (rate_key id) (rate_key j))) [
        | inl c ↦
            let k = (same_iff (rate_key id) (rate_key j)).0 c in
            let i = rate_key_inj id j k in
            (
              r',
              ap (lookup (rate_key j)) e'
                  ∙ lookup-insert (rate_key id) (rate_key j) r' s.rates
                  ∙ rw c refl,
              (terms'.0 ∙ i, terms'.1),
            )
        | inr c ↦ (
          r,
          ap (lookup (rate_key j)) e'
              ∙ lookup-insert_ne (rate_key id) (rate_key j) r' s.rates c
              ∙ e,
          terms,
        )
      ]

  pub fund_markets-IsRecorded :
      (j : String) (ms : List Market) (s : FundingStore)
      → IsRecorded j s
      → IsRecorded j (fund_markets env now ms s)
  fund_markets-IsRecorded j =
      fund_markets-keeps env now (IsRecorded j) (λ m s h. h) (λ id p s h. settle_at-kept id j p s h)
        (λ id s e h. h)

  -- The market's next time is still `t`, or it has been settled.
  abbrev pub Due : ℕ → String → FundingStore → Type 0
  Due t j s = (get_next_funding_time j s ≡ some t) ⊎ IsRecorded j s

  settle_at-Due :
      (t : ℕ) (j id : String) (p : PriceInfo) (s : FundingStore)
      → Due t j s
      → Due t j (settle_at env id now p s)
  settle_at-Due t j id p s (inr h) = inr (settle_at-kept id j p s h)
  settle_at-Due t j id p s (inl e) = elim (Bool-cases (same id j)) [
    | inl c ↦ inr (
        subst (λ x. IsRecorded x (settle_at env id now p s)) ((same_iff id j).0 c)
          (settle_at-IsRecorded id p s))
    | inr c ↦ inl (
        ap (lookup j) (settle_at-next_times env id now p s)
        ∙ lookup-insert_ne id j (next_funding_time now) s.next_times c
        ∙ e)
  ]

  plan-Due :
      (t : ℕ) (j id : String) (s : FundingStore)
      → get_next_funding_time id s ≡ none
      → Due t j s
      → Due t j (record s { next_times = insert id (next_funding_time now) s.next_times })
  plan-Due t j id s n (inr h) = inr h
  plan-Due t j id s n (inl e) = elim (Bool-cases (same id j)) [
    | inl c ↦
        absurd
          (none-some t (sym (ap (λ x. lookup x s.next_times) (sym ((same_iff id j).0 c)) ∙ n) ∙ e))
    | inr c ↦ inl (lookup-insert_ne id j (next_funding_time now) s.next_times c ∙ e)
  ]

  pub fund_market-Due :
      (t : ℕ) (j : String) (m : Market) (s : FundingStore)
      → Due t j s
      → Due t j (fund_market env now m s)
  fund_market-Due t j =
      fund_market-keeps env now (Due t j) (λ m s h. h) (λ id p s h. settle_at-Due t j id p s h)
        (λ id s n h. plan-Due t j id s n h)

  settle_market-IsRecorded :
      (m : Market) (s : FundingStore)
      → HasPrice s m
      → IsRecorded m.market_id (settle_market env now m s)
  unfolding settle_market
  settle_market-IsRecorded m s (p, e) =
      let s' = put_market (record m { status = settling }) s in
      subst (λ x. IsRecorded m.market_id (record s' { rates = x.rates }))
        (sym (
          settle_funding_done env m.market_id now (record m { status = settling }) p s'
            (lookup-insert_self m.market_id (record m { status = settling }) s.perp.markets) e))
        (settle_at-IsRecorded m.market_id p s')

  -- A market that is due and has a price is settled in its turn.
  pub fund_market-IsRecorded :
      (t : ℕ) (m : Market) (s : FundingStore)
      → HasPrice s m
      → leb t now ≡ true
      → Due t m.market_id s
      → IsRecorded m.market_id (fund_market env now m s)
  unfolding fund_market scheduled fund_markets
  fund_market-IsRecorded t m s hp due (inr h) = fund_markets-IsRecorded m.market_id (m ∷ []) s h
  fund_market-IsRecorded t m s hp due (inl e) =
      rw (e, scheduled) (rw due (settle_market-IsRecorded m s hp))
