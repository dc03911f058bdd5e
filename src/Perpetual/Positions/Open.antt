-- ===== src/Perpetual/Positions/Open.antt =====
-- Opening a position, or adding to one, moves the net position by the size.
use perp_dex.Base.{
  ◌≡◌, refl, sym, subst, ◌∙◌, true, false, String, Option, none, some, inl, inr, arith, Bool-cases,
}
use perp_dex.Base.Int.{◌+ℤ◌, ◌<ℤ◌, int_laws, +ℤ_parts}
use perp_dex.Decimal.{LegacyDec, zero_dec, is_zero, Rounding}
use perp_dex.Perpetual.Types.{
  PositionSide, same_side, Market, Position, Account, new_position, add_size, can_afford,
}
use perp_dex.Perpetual.Store.{
  Error, State, get_position, get_account, get_or_create_account, or_fail, or_panic,
}
use perp_dex.Perpetual.Margin.{calculate_initial_margin, check_afford, check_initial_margin}
use perp_dex.Perpetual.Positions.{
  open_added, lock_and_save, open_new, open_more, open_existing, open_checked, open_in_market,
  open_position,
}
use perp_dex.Perpetual.Positions.Calls.{Holds, Holds-map, Holds-bind, Holds-or_fail}
use perp_dex.Perpetual.Positions.Signed.{
  signed_size, net_of, IsKept, net, HasAccount, get_set_position, Added, signed_size_add,
  same_side_eq, is_negative_of_pos,
}

module _ (trader market_id : String) (r : Rounding) (Q : Error × State → Type 0) where
  net-lock_and_save :
      (required : LegacyDec) (a : Account) (p : Position) (s : State)
      → p.trader ≡ trader
      → p.market_id ≡ market_id
      → net trader market_id (lock_and_save r required a p s) ≡ signed_size p.side p.size
  unfolding lock_and_save
  net-lock_and_save required a p s e f = rw (get_set_position trader market_id p _ e f)

  -- A position that the trade adds to, or none.
  abbrev pub Joins : PositionSide → Option Position → Type 0
  Joins side none = Unit
  Joins side (some p) = same_side p.side side ≡ true

  add_size-Added :
      (size price : LegacyDec) (p : Position)
      → is_zero (p.size +ℤ size) ≡ false
      → Holds (Added size p) Q (or_panic (add_size r size price p))
  unfolding Holds add_size or_panic
  add_size-Added size price p e =
      rw e (record { same_trader = refl; same_market = refl; same_side_eq = refl; size_eq = refl })

  open_more-Holds :
      (side : PositionSide) (size price required : LegacyDec) (a : Account) (p : Position)
      (s : State)
      → zero_dec <ℤ size
      → IsKept trader market_id (some p)
      → same_side p.side side ≡ true
      → Holds
          (λ x. net trader market_id x.1 ≡ signed_size p.side p.size +ℤ signed_size side size)
          Q
          (open_more r size price required a p s)
  unfolding open_more open_added
  open_more-Holds side size price required a p s pos (own, here, full, _) j =
      Holds-map (Added size p) _ Q (open_added r required a s) (or_panic (add_size r size price p))
        (λ p' h.
          net-lock_and_save required a (record p' { margin = p'.margin +ℤ required }) s
            (h.same_trader ∙ own) (h.same_market ∙ here)
          ∙ rw (h.same_side_eq, h.size_eq)
              (signed_size_add p.side p.size size ∙ rw (same_side_eq p.side side j) refl))
        (add_size-Added size price p (ground (arith, +ℤ_parts p.size size)))

  open_existing-Holds :
      (side : PositionSide) (size price : LegacyDec) (a : Account) (s : State) (o : Option Position)
      → zero_dec <ℤ size
      → IsKept trader market_id o
      → Joins side o
      → Holds
          (λ x. net trader market_id x.1 ≡ net_of o +ℤ signed_size side size)
          Q
          (open_existing r trader market_id side size price a s o)
  unfolding Holds open_existing open_new new_position
  open_existing-Holds side size price a s none pos k j =
      net-lock_and_save (calculate_initial_margin r size price) a
        (new_position r trader market_id side size price (calculate_initial_margin r size price)) s
        refl refl
      ∙ omega int_laws
  open_existing-Holds side size price a s (some p) pos k j =
      rw j (open_more-Holds side size price _ a p s pos k j)

  check_afford-Holds :
      (size price : LegacyDec) (s : State) (a : Account)
      → ((e : Error) → Q (e, s))
      → Holds (λ s'. s' ≡ s) Q (check_afford r size price s a)
  unfolding Holds check_afford
  check_afford-Holds size price s a q =
      elim (Bool-cases (can_afford (calculate_initial_margin r size price) a)) [
        | inl e ↦ rw e refl
        | inr e ↦ rw e (q _)
      ]

  check_initial_margin-Holds :
      (size price : LegacyDec) (s : State)
      → ((e : Error) → Q (e, s))
      → Holds (λ s'. s' ≡ s) Q (check_initial_margin r trader size price s)
  unfolding check_initial_margin
  check_initial_margin-Holds size price s q =
      Holds-bind _ _ Q (check_afford r size price s) (or_fail _ s (get_account trader s))
        (λ a _. check_afford-Holds size price s a q)
        (Holds-or_fail Q _ s (get_account trader s) (q _))

  open_checked-Holds :
      (side : PositionSide) (size price : LegacyDec) (s : State)
      → zero_dec <ℤ size
      → HasAccount trader market_id s
      → IsKept trader market_id (get_position trader market_id s)
      → Joins side (get_position trader market_id s)
      → Holds
          (λ x. net trader market_id x.1 ≡ net trader market_id s +ℤ signed_size side size)
          Q
          (open_checked r trader market_id side size price s)
  unfolding open_checked get_or_create_account
  open_checked-Holds side size price s pos (a, found, own) k j =
      rw (found, get_or_create_account)
        (open_existing-Holds side size price a s (get_position trader market_id s) pos k j)

  open_in_market-Holds :
      (side : PositionSide) (size price : LegacyDec) (s : State) (m : Market)
      → zero_dec <ℤ size
      → ((e : Error) → Q (e, s))
      → HasAccount trader market_id s
      → IsKept trader market_id (get_position trader market_id s)
      → Joins side (get_position trader market_id s)
      → Holds
          (λ x. net trader market_id x.1 ≡ net trader market_id s +ℤ signed_size side size)
          Q
          (open_in_market r trader market_id side size price s m)
  unfolding Holds open_in_market
  open_in_market-Holds side size price s m pos q acc k j = elim (Bool-cases m.is_active) [
    | inr e ↦ rw e (q _)
    | inl e ↦
        rw (e, is_negative_of_pos size pos)
          (Holds-bind (λ s'. s' ≡ s) _ Q (open_checked r trader market_id side size price)
            (check_initial_margin r trader size price s)
            (λ s' h.
              subst
                (λ x.
                  Holds
                    (λ y.
                      net trader market_id y.1 ≡ net trader market_id s +ℤ signed_size side size)
                    Q (open_checked r trader market_id side size price x))
                (sym h) (open_checked-Holds side size price s pos acc k j))
            (check_initial_margin-Holds size price s q))
  ]

  pub open_position-Holds :
      (side : PositionSide) (size price : LegacyDec) (s : State)
      → zero_dec <ℤ size
      → ((e : Error) → Q (e, s))
      → HasAccount trader market_id s
      → IsKept trader market_id (get_position trader market_id s)
      → Joins side (get_position trader market_id s)
      → Holds
          (λ x. net trader market_id x.1 ≡ net trader market_id s +ℤ signed_size side size)
          Q
          (open_position r trader market_id side size price s)
  unfolding open_position
  open_position-Holds side size price s pos q acc k j =
      Holds-bind _ _ Q (open_in_market r trader market_id side size price s) (or_fail _ s _)
        (λ m _. open_in_market-Holds side size price s m pos q acc k j)
        (Holds-or_fail Q _ s _ (q _))
