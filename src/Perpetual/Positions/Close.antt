-- ===== src/Perpetual/Positions/Close.antt =====
-- Reducing, closing and flipping a position.
use perp_dex.Base.{◌≡◌, subst, ◌∙◌, String, none, some, inl, inr, arith, Bool-cases}
use perp_dex.Base.Int.{◌+ℤ◌, ◌-ℤ◌, ◌<ℤ◌, -ℤ_parts}
use perp_dex.Base.Dict.{lookup-insert_self}
use perp_dex.Base.Outcome.{done, ◌>>=◌}
use perp_dex.Decimal.{LegacyDec, zero_dec, is_zero, gt, Rounding}
use perp_dex.Perpetual.Types.{
  PositionSide, Position, Account, PriceInfo, reduce_size, unlock_margin,
}
use perp_dex.Perpetual.Store.{
  Error, State, Call, get_position, get_account, set_account, or_fail, or_panic,
}
use perp_dex.Perpetual.Positions.{
  reduce_paid, reduce_at, reduce_found, released_margin, save_or_delete, pay_out, close_paid,
  close_found, open_position,
}
use perp_dex.Perpetual.Positions.Calls.{Holds, Holds-map, Holds-bind, Holds-or_fail}
use perp_dex.Perpetual.Positions.Signed.{
  signed_size, IsKept, net, HasAccount, get_set_position, get_delete_position, nonzero_of_pos,
  Opposes, signed_size_sub, flipped,
}
use perp_dex.Perpetual.Positions.Open.{open_position-Holds}

module _ (trader market_id : String) (r : Rounding) (Q : Error × State → Type 0) where
  net-save_or_delete :
      (p : Position) (s : State)
      → p.trader ≡ trader
      → p.market_id ≡ market_id
      → net trader market_id (save_or_delete r trader market_id p s) ≡ signed_size p.side p.size
  unfolding save_or_delete
  net-save_or_delete p s e f = elim (Bool-cases (is_zero p.size)) [
    | inl z ↦
        rw z
          (rw (get_delete_position trader market_id s) (ground (arith, -ℤ_parts zero_dec p.size)))
    | inr z ↦ rw z (rw (get_set_position trader market_id p s e f))
  ]

  released-Holds :
      (size : LegacyDec) (p : Position)
      → zero_dec <ℤ p.size
      → Holds (λ _. Unit) Q (or_panic (released_margin r size p))
  unfolding Holds released_margin or_panic
  released-Holds size p full = rw (nonzero_of_pos p.size full) tt

  account-Holds :
      (s : State)
      → HasAccount trader market_id s
      → Holds (λ a. a.trader ≡ trader) Q (or_panic (get_account trader s))
  unfolding Holds or_panic
  account-Holds s (a, found, own) = rw found own

  get_set_account :
      (a : Account) (s : State) → a.trader ≡ trader → get_account trader (set_account a s) ≡ some a
  get_set_account a s e = rw (← e) (lookup-insert_self a.trader a s.accounts)

  reduce_at-Holds :
      (side : PositionSide) (size : LegacyDec) (s : State) (p : Position) (price : PriceInfo)
      → HasAccount trader market_id s
      → IsKept trader market_id (some p)
      → Opposes side p
      → Holds
          (λ x. net trader market_id x.1 ≡ signed_size p.side p.size +ℤ signed_size side size)
          Q
          (reduce_at r trader market_id size s p price)
  unfolding reduce_at reduce_paid reduce_size
  reduce_at-Holds side size s p price acc (own, here, full, _) o =
      Holds-bind (λ _. Unit) _ Q
        (λ released. or_panic (get_account trader s) >>= λ a.
          done (reduce_paid r trader market_id size s p price released a))
        (or_panic (released_margin r size p))
        (λ released _.
          Holds-map (λ a. a.trader ≡ trader) _ Q
            (λ a. reduce_paid r trader market_id size s p price released a)
            (or_panic (get_account trader s))
            (λ a _.
              net-save_or_delete (record p { size = p.size -ℤ size; margin = p.margin -ℤ released })
                _ own here
              ∙ signed_size_sub side p size o)
            (account-Holds s acc))
        (released-Holds size p full)

  pub close_found-Holds :
      (price : LegacyDec) (s : State) (p : Position)
      → HasAccount trader market_id s
      → Holds
          (λ x. (get_position trader market_id x.1 ≡ none) × HasAccount trader market_id x.1)
          Q
          (close_found r trader market_id price s p)
  unfolding close_found close_paid pay_out unlock_margin
  close_found-Holds price s p acc =
      Holds-map (λ a. a.trader ≡ trader) _ Q (close_paid r trader market_id price s p)
        (or_panic (get_account trader s))
        (λ a own. (get_delete_position trader market_id s, (_, get_set_account _ s own, own)))
        (account-Holds s acc)

  pub reduce_found-Holds :
      (side : PositionSide) (size : LegacyDec) (s : State) (p : Position)
      → ((e : Error) → Q (e, s))
      → HasAccount trader market_id s
      → IsKept trader market_id (some p)
      → Opposes side p
      → Holds
          (λ x. net trader market_id x.1 ≡ signed_size p.side p.size +ℤ signed_size side size)
          Q
          (reduce_found r trader market_id size s p)
  unfolding Holds reduce_found
  reduce_found-Holds side size s p q acc k o = elim (Bool-cases (gt size p.size)) [
    | inl e ↦ rw e (q _)
    | inr e ↦ rw e (
        Holds-bind _ _ Q (reduce_at r trader market_id size s p) (or_fail _ s _)
          (λ price _. reduce_at-Holds side size s p price acc k o) (Holds-or_fail Q _ s _ (q _)))
  ]

  -- A call on a position that stands.
  pub found-Holds :
      {A : Type 0} (R : A → Type 0) (e : Error) (s : State) (p : Position) (g : Position → Call A)
      → get_position trader market_id s ≡ some p
      → Holds R Q (g p)
      → Holds R Q (or_fail e s (get_position trader market_id s) >>= g)
  unfolding or_fail
  found-Holds R e s p g found h = rw found h

  -- The trade of a size that is larger than the position.
  pub flip-Holds :
      (side : PositionSide) (size price : LegacyDec) (s' : State) (p : Position)
      → zero_dec <ℤ size -ℤ p.size
      → ((e : Error) → Q (e, s'))
      → get_position trader market_id s' ≡ none
      → HasAccount trader market_id s'
      → Opposes side p
      → Holds
          (λ x. net trader market_id x.1 ≡ signed_size p.side p.size +ℤ signed_size side size)
          Q
          (open_position r trader market_id side (size -ℤ p.size) price s')
  flip-Holds side size price s' p pos q gone acc o =
      subst
        (λ n.
          Holds (λ x. net trader market_id x.1 ≡ n) Q
            (open_position r trader market_id side (size -ℤ p.size) price s'))
        (rw gone (flipped side p size o))
        (open_position-Holds trader market_id r Q side (size -ℤ p.size) price s' pos q acc
          (rw gone tt) (rw gone tt))
