-- ===== src/Orderbook/Trailing/Ratchet.antt =====
-- A trailing stop with a fixed trail: after any run of mark prices its stop stands at the trail from
-- the best price so far, so it never moves back.
use perp_dex.Base.{
  ◌≡◌, refl, ◌∙◌, true, false, List, [], ◌∷◌, arith, ◌↔◌, if◌then◌else◌, All, Bool-cases, inl, inr,
}
use perp_dex.Base.Int.{◌+ℤ◌, ◌-ℤ◌, ◌≤ℤ◌, ◌<ℤ◌, int_laws}
use perp_dex.Decimal.{LegacyDec, zero_dec, gt, gte, lt, lte, is_zero, Rounding}
use perp_dex.Orderbook.Types.{is_sell}
use perp_dex.Orderbook.Conditional.{is_open}
use perp_dex.Orderbook.Trailing.{TrailingStopOrder, update, get_trail_distance}

-- The mark prices of a run, one update for each.
pub update_all : Rounding → List LegacyDec → TrailingStopOrder → TrailingStopOrder
update_all r [] o = o
update_all r (p ∷ ps) o = update_all r ps (update r p o).0

-- The highest and the lowest of a price and a run of prices.
pub peak : LegacyDec → List LegacyDec → LegacyDec
peak h [] = h
peak h (p ∷ ps) = peak (if gt p h then p else h) ps

pub trough : LegacyDec → List LegacyDec → LegacyDec
trough l [] = l
trough l (p ∷ ps) = trough (if lt p l then p else l) ps

lt→ltb_ℤ : (a b : LegacyDec) → a <ℤ b → gt b a ≡ true
lt→ltb_ℤ a b h = ground arith

gt→lt : (a b : LegacyDec) → gt a b ≡ true → b <ℤ a
gt→lt a b h = ground arith

lte_iff : (a b : LegacyDec) → (lte a b ≡ true) ↔ (a ≤ℤ b)
lte_iff a b = ground arith

nonzero_of_pos : (a : LegacyDec) → zero_dec <ℤ a → is_zero a ≡ false
nonzero_of_pos a h = ground arith

-- A stop of a long position, open and activated, at its trail below the high water mark.
pub record TrailsHigh (o : TrailingStopOrder) : Type 0 where
  pub sells : is_sell o.side ≡ true
  pub opened : is_open o.status ≡ true
  pub activated : o.is_activated ≡ true
  pub fixed : zero_dec <ℤ o.trail_amount
  pub at_trail : o.current_stop_price ≡ o.high_water_mark -ℤ o.trail_amount

-- A stop of a short position, at its trail above the low water mark.
pub record TrailsLow (o : TrailingStopOrder) : Type 0 where
  pub buys : is_sell o.side ≡ false
  pub opened : is_open o.status ≡ true
  pub activated : o.is_activated ≡ true
  pub fixed : zero_dec <ℤ o.trail_amount
  pub low_positive : zero_dec <ℤ o.low_water_mark
  pub at_trail : o.current_stop_price ≡ o.low_water_mark +ℤ o.trail_amount

module _ (r : Rounding) (p : LegacyDec) (o : TrailingStopOrder) where
  update_above :
      TrailsHigh o
      → gt p o.high_water_mark ≡ true
      → update r p o ≡ (
        record o { high_water_mark = p; current_stop_price = p -ℤ o.trail_amount },
        lte p (p -ℤ o.trail_amount),
      )
  unfolding update get_trail_distance
  update_above h e =
      simp (h.opened, h.activated, h.sells, e, lt→ltb_ℤ zero_dec o.trail_amount h.fixed)

  update_at :
      TrailsHigh o → gt p o.high_water_mark ≡ false → update r p o ≡ (o, lte p o.current_stop_price)
  unfolding update
  update_at h e = simp (h.opened, h.activated, h.sells, e)

  update_below :
      TrailsLow o
      → lt p o.low_water_mark ≡ true
      → update r p o ≡ (
        record o { low_water_mark = p; current_stop_price = p +ℤ o.trail_amount },
        gte p (p +ℤ o.trail_amount),
      )
  unfolding update get_trail_distance
  update_below h e =
      simp (h.opened, h.activated, h.buys, e, lt→ltb_ℤ zero_dec o.trail_amount h.fixed)

  update_low_at :
      TrailsLow o → lt p o.low_water_mark ≡ false → update r p o ≡ (o, gte p o.current_stop_price)
  unfolding update
  update_low_at h e =
      simp (h.opened, h.activated, h.buys, e, nonzero_of_pos o.low_water_mark h.low_positive)

  -- One update of an open, activated stop of a long position, which stands at a fixed trail below its
  -- high water mark, keeps it so: the high water mark is the higher price, the trail stays, the stop
  -- does not fall, and it triggers exactly when the price is down at it.
  pub update-TrailsHigh :
      TrailsHigh o
      → let (o', fired) = update r p o in
        TrailsHigh o'
        × (o'.high_water_mark ≡ (if gt p o.high_water_mark then p else o.high_water_mark))
        × (o'.trail_amount ≡ o.trail_amount)
        × (o.current_stop_price ≤ℤ o'.current_stop_price)
        × ((fired ≡ true) ↔ (p ≤ℤ o'.current_stop_price))
  update-TrailsHigh h = elim (Bool-cases (gt p o.high_water_mark)) [
    | inl e ↦
        rw (update_above h e, e)
          (
            record {
              sells = h.sells;
              opened = h.opened;
              activated = h.activated;
              fixed = h.fixed;
              at_trail = refl;
            },
            refl,
            refl,
            rw h.at_trail (omega (int_laws, gt→lt p o.high_water_mark e)),
            lte_iff p (p -ℤ o.trail_amount),
          )
    | inr e ↦ rw (update_at h e, e) (h, refl, refl, omega arith, lte_iff p o.current_stop_price)
  ]

  -- One update, at a positive price, of an open, activated stop of a short position, which stands at
  -- a fixed trail above its positive low water mark, keeps it so: the low water mark is the lower
  -- price, the trail stays, the stop does not rise, and it triggers exactly when the price is up at
  -- it.
  pub update-TrailsLow :
      TrailsLow o
      → zero_dec <ℤ p
      → let (o', fired) = update r p o in
        TrailsLow o'
        × (o'.low_water_mark ≡ (if lt p o.low_water_mark then p else o.low_water_mark))
        × (o'.trail_amount ≡ o.trail_amount)
        × (o'.current_stop_price ≤ℤ o.current_stop_price)
        × ((fired ≡ true) ↔ (o'.current_stop_price ≤ℤ p))
  update-TrailsLow h pos = elim (Bool-cases (lt p o.low_water_mark)) [
    | inl e ↦
        rw (update_below h e, e)
          (
            record {
              buys = h.buys;
              opened = h.opened;
              activated = h.activated;
              fixed = h.fixed;
              low_positive = pos;
              at_trail = refl;
            },
            refl,
            refl,
            rw h.at_trail (omega (int_laws, gt→lt o.low_water_mark p e)),
            lte_iff (p +ℤ o.trail_amount) p,
          )
    | inr e ↦ rw (update_low_at h e, e) (h, refl, refl, omega arith, lte_iff o.current_stop_price p)
  ]

-- After any run of mark prices an open, activated stop of a long position, which stood at a fixed
-- trail below its high water mark, stands at that trail below the highest of the mark that it had
-- and the prices of the run.
pub update_all-stop :
    (r : Rounding) (ps : List LegacyDec) (o : TrailingStopOrder)
    → TrailsHigh o
    → (update_all r ps o).current_stop_price ≡ peak o.high_water_mark ps -ℤ o.trail_amount
unfolding update_all peak
update_all-stop r [] o h = h.at_trail
update_all-stop r (p ∷ ps) o h =
    let (h', high, trail, _, _) = update-TrailsHigh r p o h in
    update_all-stop r ps (update r p o).0 h' ∙ rw (high, trail)

-- After any run of positive mark prices an open, activated stop of a short position, which stood at
-- a fixed trail above its positive low water mark, stands at that trail above the lowest of the mark
-- that it had and the prices of the run.
pub update_all-stop_low :
    (r : Rounding) (ps : List LegacyDec) (o : TrailingStopOrder)
    → TrailsLow o
    → All (λ p. zero_dec <ℤ p) ps
    → (update_all r ps o).current_stop_price ≡ trough o.low_water_mark ps +ℤ o.trail_amount
unfolding update_all trough
update_all-stop_low r [] o h pos = h.at_trail
update_all-stop_low r (p ∷ ps) o h (pos, rest) =
    let (h', low, trail, _, _) = update-TrailsLow r p o h pos in
    update_all-stop_low r ps (update r p o).0 h' rest ∙ rw (low, trail)
