-- ===== src/Perpetual/Positions/Net.antt =====
-- How a trade moves a trader's net position.
use perp_dex.Base.{
  ◌≡◌, refl, sym, ap, subst, ◌∙◌, Bool, true, false, not, String, Option, none, some, ◌⊎◌, inl, inr,
  arith, Bool-cases,
}
use perp_dex.Base.Int.{◌+ℤ◌, ◌-ℤ◌, ◌<ℤ◌, -ℤ_parts}
use perp_dex.Base.Dict.{lookup}
use perp_dex.Base.Outcome.{done, ◌>>=◌}
use perp_dex.Decimal.{LegacyDec, zero_dec, lte, Rounding}
use perp_dex.Perpetual.Types.{PositionSide, is_long, is_short, same_side, Position}
use perp_dex.Perpetual.Store.{Error, State, position_key, get_position}
use perp_dex.Perpetual.Positions.{
  take_fee, deduct_fee, reduce_found, reduce_position, close_found, close_position, open_position,
  trade_side, trade_against, update_existing, update_position_from_trade,
}
use perp_dex.Perpetual.Positions.Calls.{Holds, Holds-map, Holds-bind}
use perp_dex.Perpetual.Positions.Signed.{signed_size, net_of, IsKept, net, HasAccount, sides_oppose}
use perp_dex.Perpetual.Positions.Open.{Joins, open_position-Holds}
use perp_dex.Perpetual.Positions.Close.{
  close_found-Holds, reduce_found-Holds, found-Holds, flip-Holds,
}

trade_side-sided : (buys : Bool) → is_long (trade_side buys) ≡ not (is_short (trade_side buys))
unfolding trade_side
trade_side-sided true = refl
trade_side-sided false = refl

deduct_fee-positions :
    (trader : String) (fee : LegacyDec) (s : State)
    → (deduct_fee trader fee s).positions ≡ s.positions
unfolding deduct_fee take_fee
deduct_fee-positions trader fee s = ground arith

-- What an error leaves: the net position that there was, or none.
abbrev pub StaysOrCloses : String → String → State → Error × State → Type 0
StaysOrCloses trader market_id s x =
    (net trader market_id x.1 ≡ net trader market_id s) ⊎ (net trader market_id x.1 ≡ zero_dec)

module _ (r : Rounding) (trader market_id : String) (s : State) where
  abbrev Q : Error × State → Type 0
  Q = StaysOrCloses trader market_id s

  stays : (e : Error) → Q (e, s)
  stays e = inl refl

  reduce-Holds :
      (side : PositionSide) (size : LegacyDec) (p : Position)
      → get_position trader market_id s ≡ some p
      → HasAccount trader market_id s
      → IsKept trader market_id (some p)
      → is_short side ≡ not (is_short p.side)
      → Holds
          (λ s'. net trader market_id s' ≡ signed_size p.side p.size +ℤ signed_size side size)
          Q
          (reduce_position r trader market_id size s >>= λ x. done x.1)
  unfolding reduce_position
  reduce-Holds side size p found acc k o =
      Holds-map _ _ Q (λ (x : LegacyDec × State). x.1) (reduce_position r trader market_id size s)
        (λ x h. h)
        (found-Holds trader market_id r Q _ _ s p (reduce_found r trader market_id size s) found
          (reduce_found-Holds trader market_id r Q side size s p stays acc k o))

  -- The position is closed, and the rest of the trade opens one on the other side.
  flips-Holds :
      (side : PositionSide) (size price : LegacyDec) (p : Position)
      → get_position trader market_id s ≡ some p
      → HasAccount trader market_id s
      → zero_dec <ℤ size -ℤ p.size
      → is_short side ≡ not (is_short p.side)
      → Holds
          (λ s'. net trader market_id s' ≡ signed_size p.side p.size +ℤ signed_size side size)
          Q
          (close_position r trader market_id price s >>= λ x.
            open_position r trader market_id side (size -ℤ p.size) price x.1 >>= λ y. done y.1)
  unfolding close_position
  flips-Holds side size price p found acc pos o =
      Holds-bind _ _ Q
        (λ (x : LegacyDec × State).
          open_position r trader market_id side (size -ℤ p.size) price x.1 >>= λ y. done y.1)
        (close_position r trader market_id price s)
        (λ x h.
          Holds-map _ _ Q (λ (y : Option Position × State). y.1)
            (open_position r trader market_id side (size -ℤ p.size) price x.1) (λ y e. e)
            (flip-Holds trader market_id r Q side size price x.1 p pos (λ e. inr (rw h.0 refl)) h.0
              h.1 o))
        (found-Holds trader market_id r Q _ _ s p (close_found r trader market_id price s) found
          (close_found-Holds trader market_id r Q price s p acc))

  trade_against-Holds :
      (side : PositionSide) (size price : LegacyDec) (p : Position)
      → get_position trader market_id s ≡ some p
      → HasAccount trader market_id s
      → IsKept trader market_id (some p)
      → is_short side ≡ not (is_short p.side)
      → Holds
          (λ s'. net trader market_id s' ≡ signed_size p.side p.size +ℤ signed_size side size)
          Q
          (trade_against r trader market_id side size price p s)
  unfolding trade_against
  trade_against-Holds side size price p found acc k o = elim (Bool-cases (lte size p.size)) [
    | inl e ↦ rw e (reduce-Holds side size p found acc k o)
    | inr e ↦
        rw e (flips-Holds side size price p found acc (ground (arith, -ℤ_parts size p.size)) o)
  ]

  opened-Holds :
      (side : PositionSide) (size price : LegacyDec) (o : Option Position)
      → get_position trader market_id s ≡ o
      → zero_dec <ℤ size
      → HasAccount trader market_id s
      → IsKept trader market_id o
      → Joins trader market_id r Q side o
      → Holds
          (λ s'. net trader market_id s' ≡ net_of o +ℤ signed_size side size)
          Q
          (open_position r trader market_id side size price s >>= λ x. done x.1)
  opened-Holds side size price o found pos acc k j =
      Holds-map _ _ Q (λ (x : Option Position × State). x.1)
        (open_position r trader market_id side size price s)
        (λ x h. h ∙ ap (λ n. net_of n +ℤ signed_size side size) found)
        (open_position-Holds trader market_id r Q side size price s pos stays acc
          (subst (λ n. IsKept trader market_id n) (sym found) k)
          (subst (λ n. Joins trader market_id r Q side n) (sym found) j))

  update_existing-Holds :
      (side : PositionSide) (size price : LegacyDec) (o : Option Position)
      → get_position trader market_id s ≡ o
      → zero_dec <ℤ size
      → is_long side ≡ not (is_short side)
      → HasAccount trader market_id s
      → IsKept trader market_id o
      → Holds
          (λ s'. net trader market_id s' ≡ net_of o +ℤ signed_size side size)
          Q
          (update_existing r trader market_id side size price s o)
  unfolding update_existing
  update_existing-Holds side size price none found pos sided acc k =
      opened-Holds side size price none found pos acc tt tt
  update_existing-Holds side size price (some p) found pos sided acc k =
      elim (Bool-cases (same_side p.side side)) [
        | inl e ↦ rw e (opened-Holds side size price (some p) found pos acc k e)
        | inr e ↦ rw e (
            trade_against-Holds side size price p found acc k
              (sides_oppose p.side side k.3 sided e))
      ]

  net-deduct_fee :
      (fee : LegacyDec) (s' : State)
      → net trader market_id (deduct_fee trader fee s') ≡ net trader market_id s'
  net-deduct_fee fee s' =
      ap (λ ps. net_of (lookup (position_key trader market_id) ps))
        (deduct_fee-positions trader fee s')

  -- A trade of a positive size, by a trader whose account stands under the trader's name and whose
  -- position, if there is one, is long or short, not empty, and of its trader and market, does not
  -- panic. Where it succeeds the net position of the trader in the market has moved by the size, up
  -- for a buy and down for a sell, whether that opened, increased, reduced, closed or flipped the
  -- position; an error leaves the net position as it was, or leaves none.
  pub update_position_from_trade_lem :
      (buys : Bool) (size price fee : LegacyDec)
      → zero_dec <ℤ size
      → HasAccount trader market_id s
      → IsKept trader market_id (get_position trader market_id s)
      → Holds
          (λ s'.
            net trader market_id s' ≡ net trader market_id s +ℤ signed_size (trade_side buys) size)
          (StaysOrCloses trader market_id s)
          (update_position_from_trade r trader market_id buys size price fee s)
  unfolding update_position_from_trade
  update_position_from_trade_lem buys size price fee pos acc k =
      Holds-map _ _ Q (λ s'. deduct_fee trader fee s')
        (update_existing r trader market_id (trade_side buys) size price s
          (get_position trader market_id s))
        (λ s' h. net-deduct_fee fee s' ∙ h)
        (update_existing-Holds (trade_side buys) size price (get_position trader market_id s) refl
          pos (trade_side-sided buys) acc k)
