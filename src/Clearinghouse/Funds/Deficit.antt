-- ===== src/Clearinghouse/Funds/Deficit.antt =====
-- x/clearinghouse/keeper/insurance.go: what CoverDeficit takes from the fund of a market and from
-- the global fund.
use perp_dex.Base.{
  ◌≡◌, false, String, same, same-cases, same_comm, if◌then◌else◌, Bool-cases, inl, inr, sym, ap,
  subst, ◌∙◌, arith,
}
use perp_dex.Base.Int.{◌+ℤ◌, ◌-ℤ◌, ◌≤ℤ◌, int_laws}
use perp_dex.Decimal.{
  min_dec-or, LegacyDec, zero_dec, is_positive, min_dec, min_dec_le_left, min_dec_le_right,
}
use perp_dex.Clearinghouse.Funds.{
  FundStore, FundEnv, Cover, cover_from_market, cover_from_global, cover_deficit, market_fund_id,
  global_fund_id,
}
use perp_dex.Clearinghouse.Funds.Kept.{Kept, cover_from_market-Kept}
use perp_dex.Clearinghouse.Funds.Gives.{balance_in, Gives, min_nonneg, less_nothing}
use perp_dex.Clearinghouse.Funds.Parts.{
  market_fund-global, balance_in-nonneg, cover_from_market-Gives, cover_from_global-Gives,
}

-- What `CoverDeficit` gives for a deficit, from the store `s`.
pub record Covers (market_id : String) (deficit : LegacyDec) (s : FundStore)
    (r : LegacyDec × LegacyDec × FundStore) : Type 0 where
  pub total_eq :
      r.0 ≡ min_dec deficit (balance_in (market_fund_id market_id) s +ℤ balance_in global_fund_id s)
  pub rest_eq : r.0 +ℤ r.1 ≡ deficit
  pub market_eq :
      balance_in (market_fund_id market_id) r.2
      ≡ balance_in (market_fund_id market_id) s
        -ℤ min_dec (balance_in (market_fund_id market_id) s) deficit
  pub sum_eq :
      balance_in (market_fund_id market_id) r.2 +ℤ balance_in global_fund_id r.2 +ℤ r.0
      ≡ balance_in (market_fund_id market_id) s +ℤ balance_in global_fund_id s
  pub others_eq :
      (j : String)
      → same (market_fund_id market_id) j ≡ false
      → same global_fund_id j ≡ false
      → balance_in j r.2 ≡ balance_in j s

less_min_nonneg : (m d : LegacyDec) → zero_dec ≤ℤ d -ℤ min_dec m d
less_min_nonneg m d = omega (int_laws, min_dec_le_right m d)

-- The whole of what two funds give.
total_given :
    (m g d : LegacyDec)
    → zero_dec ≤ℤ m
    → zero_dec ≤ℤ g
    → zero_dec ≤ℤ d
    → zero_dec +ℤ min_dec m d +ℤ min_dec g (d -ℤ min_dec m d) ≡ min_dec d (m +ℤ g)
total_given m g d hm hg hd = omega (
  int_laws,
  min_dec_le_left m d,
  min_dec_le_right m d,
  min_dec-or m d,
  min_dec_le_left g (d -ℤ min_dec m d),
  min_dec_le_right g (d -ℤ min_dec m d),
  min_dec-or g (d -ℤ min_dec m d),
  min_dec_le_left d (m +ℤ g),
  min_dec_le_right d (m +ℤ g),
  min_dec-or d (m +ℤ g),
)

-- A fund that gives nothing leaves every balance.
Gives-nothing :
    (id j : String) (a : LegacyDec) (c d : Cover)
    → Gives id a c d
    → a ≡ zero_dec
    → balance_in j d.cache ≡ balance_in j c.cache
Gives-nothing id j a c d g h = elim (same-cases id j) [
  | inr e ↦ g.others_eq j e
  | inl e ↦
      subst (λ i. balance_in i d.cache ≡ balance_in i c.cache) e
        (g.balance_eq ∙ sym (less_nothing (balance_in id c.cache) a h))
]

Covers-same :
    (market_id : String) (deficit covered remaining : LegacyDec) (s s1 s2 : FundStore)
    → ((j : String) → balance_in j s1 ≡ balance_in j s2)
    → Covers market_id deficit s (covered, remaining, s1)
    → Covers market_id deficit s (covered, remaining, s2)
Covers-same market_id deficit covered remaining s s1 s2 h c = record {
  total_eq = c.total_eq;
  rest_eq = c.rest_eq;
  market_eq = sym (h (market_fund_id market_id)) ∙ c.market_eq;
  sum_eq = rw (sym (h (market_fund_id market_id)), sym (h global_fund_id)) c.sum_eq;
  others_eq = λ j hm hg. sym (h j) ∙ c.others_eq j hm hg;
}

nonpositive_le : (x : LegacyDec) → is_positive x ≡ false → x ≤ℤ zero_dec
nonpositive_le x h = ground arith

given_rest :
    {d x y x' y' : LegacyDec} (a b : LegacyDec)
    → x ≡ zero_dec +ℤ a
    → y ≡ d -ℤ a
    → x' ≡ x +ℤ b
    → y' ≡ y -ℤ b
    → x' +ℤ y' ≡ d
given_rest a b hx hy hx' hy' = rw (hx', hy', hx, hy) (omega int_laws)

given_sum :
    {m' g' x x' : LegacyDec} (m g a b : LegacyDec)
    → m' ≡ m -ℤ a
    → g' ≡ g -ℤ b
    → x ≡ zero_dec +ℤ a
    → x' ≡ x +ℤ b
    → m' +ℤ g' +ℤ x' ≡ m +ℤ g
given_sum m g a b hm hg hx hx' = rw (hm, hg, hx', hx) (omega int_laws)

none_given :
    {x x' : LegacyDec} (a b : LegacyDec)
    → zero_dec ≤ℤ a
    → zero_dec ≤ℤ b
    → x ≡ zero_dec +ℤ a
    → x' ≡ x +ℤ b
    → is_positive x' ≡ false
    → (a ≡ zero_dec) × (b ≡ zero_dec)
none_given a b ha hb hx hx' h =
    let h' =
      nonpositive_le (zero_dec +ℤ a +ℤ b)
        (ap is_positive (ap (λ y. y +ℤ b) (sym hx) ∙ sym hx') ∙ h) in
    (omega (int_laws, h'), omega (int_laws, h'))

module _ (market_id : String) (deficit : LegacyDec) (s : FundStore) (c d : Cover) (k : Kept s.funds)
    (hd : zero_dec ≤ℤ deficit)
    (first : Gives
      (market_fund_id market_id)
      (min_dec (balance_in (market_fund_id market_id) s) deficit)
      (record { covered = zero_dec; remaining = deficit; cache = s })
      c)
    (second : Gives global_fund_id
      (min_dec (balance_in global_fund_id c.cache) c.remaining)
      c
      d) where
  global_kept : balance_in global_fund_id c.cache ≡ balance_in global_fund_id s
  global_kept = first.others_eq global_fund_id (market_fund-global market_id)

  covered_total :
      d.covered
      ≡ min_dec deficit (balance_in (market_fund_id market_id) s +ℤ balance_in global_fund_id s)
  covered_total =
      rw (second.covered_eq, first.covered_eq, first.remaining_eq, global_kept)
        (total_given (balance_in (market_fund_id market_id) s) (balance_in global_fund_id s) deficit
          (balance_in-nonneg (market_fund_id market_id) s k) (balance_in-nonneg global_fund_id s k)
          hd)

  two-Covers : Covers market_id deficit s (d.covered, d.remaining, d.cache)
  two-Covers =
      let id = market_fund_id market_id in
      record {
        total_eq = covered_total;
        rest_eq =
            given_rest (min_dec (balance_in id s) deficit)
              (min_dec (balance_in global_fund_id c.cache) c.remaining) first.covered_eq
              first.remaining_eq second.covered_eq second.remaining_eq;
        market_eq =
            second.others_eq id (same_comm global_fund_id id ∙ market_fund-global market_id)
            ∙ first.balance_eq;
        sum_eq =
            given_sum (balance_in id s) (balance_in global_fund_id s)
              (min_dec (balance_in id s) deficit)
              (min_dec (balance_in global_fund_id c.cache) c.remaining)
              (second.others_eq id (same_comm global_fund_id id ∙ market_fund-global market_id)
                ∙ first.balance_eq)
              (second.balance_eq
                ∙ ap (λ x. x -ℤ min_dec (balance_in global_fund_id c.cache) c.remaining)
                    global_kept)
              first.covered_eq second.covered_eq;
        others_eq = λ j hm hg. second.others_eq j hg ∙ first.others_eq j hm;
      }

  -- Where nothing is covered, the cache holds what the store holds.
  nothing_covered :
      is_positive d.covered ≡ false → (j : String) → balance_in j d.cache ≡ balance_in j s
  nothing_covered h j =
      let a = min_dec (balance_in (market_fund_id market_id) s) deficit in
      let b = min_dec (balance_in global_fund_id c.cache) c.remaining in
      let ha =
        min_nonneg (balance_in (market_fund_id market_id) s) deficit
          (balance_in-nonneg (market_fund_id market_id) s k) hd in
      let hb =
        min_nonneg (balance_in global_fund_id c.cache) c.remaining
          (rw global_kept (balance_in-nonneg global_fund_id s k))
          (rw first.remaining_eq
            (less_min_nonneg (balance_in (market_fund_id market_id) s) deficit)) in
      let zeros = none_given a b ha hb first.covered_eq second.covered_eq h in
      Gives-nothing global_fund_id j b c d second zeros.1
      ∙ Gives-nothing (market_fund_id market_id) j a
          (record { covered = zero_dec; remaining = deficit; cache = s }) c first zeros.0

  commit-Covers :
      Covers market_id deficit s
        (d.covered, d.remaining, if is_positive d.covered then d.cache else s)
  commit-Covers = elim (Bool-cases (is_positive d.covered)) [
    | inl e ↦ rw e two-Covers
    | inr e ↦ rw e (
        Covers-same market_id deficit d.covered d.remaining s d.cache s (nothing_covered e)
          two-Covers)
  ]

-- Given funds that balance, a deficit that is not negative is covered as far as the fund of its
-- market and the global fund together go; covered and remaining make up the deficit; the market's
-- fund gives first, both give together exactly what is covered, and no other fund changes.
pub cover_deficit_lem :
    (env : FundEnv) (market_id : String) (deficit : LegacyDec) (liquidation_id : String)
    (s : FundStore)
    → Kept s.funds
    → zero_dec ≤ℤ deficit
    → Covers market_id deficit s (cover_deficit env market_id deficit liquidation_id s)
unfolding cover_deficit
cover_deficit_lem env market_id deficit liquidation_id s k hd =
    let id = market_fund_id market_id in
    let start : Cover = record { covered = zero_dec; remaining = deficit; cache = s } in
    let c = cover_from_market env id liquidation_id start in
    let d = cover_from_global env liquidation_id c in
    let first = cover_from_market-Gives env id liquidation_id start k hd in
    commit-Covers market_id deficit s c d k hd first (
      cover_from_global-Gives env liquidation_id c
        (cover_from_market-Kept env id liquidation_id start k)
        (rw first.remaining_eq (less_min_nonneg (balance_in id s) deficit)))
