-- ===== src/Riverpool/Withdrawals/Redeemed.antt =====
-- x/riverpool/keeper/withdrawal.go: the shares that a claim redeems, and where they cannot be computed.
use perp_dex.Base.{ℕ, ◌≡◌, refl, true, false, ◌⊎◌, inl, inr, Bool-cases, arith, ◌||◌}
use perp_dex.Base.Int.{◌<ℤ◌, eq_of_parts}
use perp_dex.Base.Outcome.{done, panicked}
use perp_dex.Decimal.{LegacyDec, zero_dec, gt, is_zero, is_negative}
use perp_dex.Riverpool.Types.{Pool, Withdrawal}
use perp_dex.Riverpool.Store.{PoolStore, PoolEnv}
use perp_dex.Riverpool.Withdrawals.{shares_to_redeem, remaining_shares, limit_of, waiting_value}

none_remains : (x : LegacyDec) → (is_zero x || is_negative x) ≡ true → zero_dec <ℤ x → ⊥
none_remains x e h = ground arith

some_remain : (x : LegacyDec) → (is_zero x || is_negative x) ≡ false → zero_dec <ℤ x
some_remain x e = ground arith

no_limit : (x : LegacyDec) → is_zero x ≡ true → x <ℤ zero_dec → ⊥
no_limit x e h = ground arith

zero_of : (x : LegacyDec) → is_zero x ≡ true → x ≡ zero_dec
zero_of x e = ground (arith, eq_of_parts x zero_dec)

not_zero : (x : LegacyDec) → is_zero x ≡ false → x ≡ zero_dec → ⊥
not_zero x e h = ground arith

below_zero : (v l : LegacyDec) → gt v l ≡ true → is_zero v ≡ true → l <ℤ zero_dec
below_zero v l g z = ground arith

not_above : (v l : LegacyDec) → gt v l ≡ false → l <ℤ zero_dec → v ≡ zero_dec → ⊥
not_above v l g h e = ground arith

-- The tests before the quotient of `calculateProRataRedemption` let a zero through: something
-- remains, the daily limit is negative, and nothing that waits has a value.
abbrev pub DividesByZero : PoolEnv → ℕ → Pool → Withdrawal → PoolStore → Type 0
DividesByZero env now p w s =
    (zero_dec <ℤ remaining_shares w)
    × ((limit_of env p <ℤ zero_dec) × (waiting_value env now p s ≡ zero_dec))

module _ (env : PoolEnv) where
  -- Which shares are redeemed, and where none are because of the panic.
  abbrev pub Redeems : ℕ → Pool → Withdrawal → PoolStore → Type 0
  Redeems now p w s =
      (DividesByZero env now p w s × (shares_to_redeem env now p w s ≡ panicked))
      ⊎ ((shares : LegacyDec) × (¬ DividesByZero env now p w s)
          × (shares_to_redeem env now p w s ≡ done shares))

  pub shares_to_redeem_cases :
      (now : ℕ) (p : Pool) (w : Withdrawal) (s : PoolStore) → Redeems now p w s
  unfolding shares_to_redeem
  shares_to_redeem_cases now p w s =
      let remaining = remaining_shares w in
      let limit = limit_of env p in
      let value = waiting_value env now p s in
      elim (Bool-cases (is_zero remaining || is_negative remaining)) [
        | inl e ↦ inr (zero_dec, (λ h. none_remains remaining e h.0), rw e refl)
        | inr e ↦ elim (Bool-cases (is_zero limit)) [
          | inl e' ↦ inr (remaining, (λ h. no_limit limit e' h.1.0), rw (e, e') refl)
          | inr e' ↦ elim (Bool-cases (gt value limit)) [
            | inl g ↦ elim (Bool-cases (is_zero value)) [
              | inl z ↦ inl (
                (some_remain remaining e, (below_zero value limit g z, zero_of value z)),
                rw (e, e', g, z) refl,
              )
              | inr z ↦ inr (
                env.mul remaining (env.quo limit value),
                (λ h. not_zero value z h.1.1),
                rw (e, e', g, z) refl,
              )
            ]
            | inr g ↦
                inr (remaining, (λ h. not_above value limit g h.1.0 h.1.1), rw (e, e', g) refl)
          ]
        ]
      ]
