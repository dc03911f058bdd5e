-- ===== src/Perpetual/Positions/Fees.antt =====
-- What the fee of a trade leaves of an account.
use perp_dex.Base.{◌≡◌, refl, ap, subst, ◌∙◌, String, some, arith, inl, inr, Bool-cases}
use perp_dex.Base.Int.{◌-ℤ◌, ◌≤ℤ◌, eq_of_parts, -ℤ_parts}
use perp_dex.Base.Dict.{lookup, insert, lookup-insert_self}
use perp_dex.Decimal.{LegacyDec, zero_dec, min_dec, is_positive, lt}
use perp_dex.Perpetual.Types.{Account}
use perp_dex.Perpetual.Store.{State, get_account, set_account}
use perp_dex.Perpetual.Positions.{take_fee, deduct_fee}

-- What a fee leaves of a balance.
unfoldable pub after_fee : LegacyDec → Account → Account
after_fee fee a = record a { balance = a.balance -ℤ min_dec a.balance fee }

-- The account has become `a'`, and the positions are what they were.
record Leaves (trader : String) (a' : Account) (s s' : State) : Type 0 where
  pub account_eq : get_account trader s' ≡ some a'
  pub positions_eq : s'.positions ≡ s.positions

-- Nothing is written where nothing is taken.
untouched :
    (trader : String) (fee : LegacyDec) (s : State) (a : Account)
    → get_account trader s ≡ some a
    → a.balance ≡ a.balance -ℤ min_dec a.balance fee
    → Leaves trader (after_fee fee a) s s
unfolding after_fee
untouched trader fee s a e h = record {
  account_eq = e ∙ ap (λ b. some (record a { balance = b })) h;
  positions_eq = refl;
}

written :
    (trader : String) (fee b : LegacyDec) (s : State) (a : Account)
    → a.trader ≡ trader
    → b ≡ a.balance -ℤ min_dec a.balance fee
    → Leaves trader (after_fee fee a) s (set_account (record a { balance = b }) s)
unfolding after_fee
written trader fee b s a n h = record {
  account_eq =
      subst
        (λ t.
          lookup t (insert a.trader (record a { balance = b }) s.accounts)
          ≡ some (record a { balance = b }))
        n (lookup-insert_self a.trader (record a { balance = b }) s.accounts)
      ∙ ap (λ b. some (record a { balance = b })) h;
  positions_eq = refl;
}

take_fee-Leaves :
    (trader : String) (fee : LegacyDec) (s : State) (a : Account)
    → get_account trader s ≡ some a
    → a.trader ≡ trader
    → zero_dec ≤ℤ a.balance
    → zero_dec ≤ℤ fee
    → Leaves trader (after_fee fee a) s (take_fee fee a s)
unfolding take_fee
take_fee-Leaves trader fee s a e n h f = elim (Bool-cases (is_positive fee)) [
  | inl p ↦ rw p (elim (Bool-cases (lt a.balance fee)) [
    | inl l ↦ rw l (elim (Bool-cases (is_positive a.balance)) [
      | inl q ↦ rw q (
          written trader fee zero_dec s a n (
            ground (
              arith,
              eq_of_parts zero_dec (a.balance -ℤ min_dec a.balance fee),
              -ℤ_parts a.balance (min_dec a.balance fee),
            )))
      | inr q ↦ rw q (
          untouched trader fee s a e (
            ground (
              arith,
              eq_of_parts a.balance (a.balance -ℤ min_dec a.balance fee),
              -ℤ_parts a.balance (min_dec a.balance fee),
            )))
    ])
    | inr l ↦
        rw l (written trader fee (a.balance -ℤ fee) s a n (ap (λ m. a.balance -ℤ m) (ground arith)))
  ])
  | inr p ↦ rw p (
      untouched trader fee s a e (
        ground (
          arith,
          eq_of_parts a.balance (a.balance -ℤ min_dec a.balance fee),
          -ℤ_parts a.balance (min_dec a.balance fee),
        )))
]

deduct_fee-take_fee :
    (trader : String) (fee : LegacyDec) (s : State) (a : Account)
    → get_account trader s ≡ some a
    → deduct_fee trader fee s ≡ take_fee fee a s
unfolding deduct_fee
deduct_fee-take_fee trader fee s a e = rw (e, deduct_fee)

-- Of an account that is stored under its own trader and whose balance is not negative, a fee that
-- is not negative takes the whole fee, or the whole balance where that is less; the balance stays
-- from zero up, the rest of the account and the positions are left alone.
pub deduct_fee_lem :
    (trader : String) (fee : LegacyDec) (s : State) (a : Account)
    → get_account trader s ≡ some a
    → a.trader ≡ trader
    → zero_dec ≤ℤ a.balance
    → zero_dec ≤ℤ fee
    → (get_account trader (deduct_fee trader fee s) ≡ some (after_fee fee a))
      × (zero_dec ≤ℤ (after_fee fee a).balance)
      × ((deduct_fee trader fee s).positions ≡ s.positions)
unfolding after_fee
deduct_fee_lem trader fee s a e n h f =
    let v = take_fee-Leaves trader fee s a e n h f in
    rw (deduct_fee-take_fee trader fee s a e)
      (v.account_eq, ground (arith, -ℤ_parts a.balance (min_dec a.balance fee)), v.positions_eq)
