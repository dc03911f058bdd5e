-- ===== src/Orderbook/Types/Fill.antt =====
-- What `Order.Fill` keeps, on both of its branches.
use perp_dex.Base.{◌≡◌, refl, not, ◌⊎◌, inl, inr, arith}
use perp_dex.Base.Int.{◌+ℤ◌, ◌-ℤ◌, ◌≤ℤ◌, ◌<ℤ◌, ≤ℤ-or-<ℤ, int_laws, +ℤ_parts, -ℤ_parts}
use perp_dex.Decimal.{LegacyDec, zero_dec}
use perp_dex.Orderbook.Result.{ok, err, fill_exceeds_remaining}
use perp_dex.Orderbook.Types.{Order, fill, filled_by, remaining_qty, is_active, is_filled}

-- An order is filled by no less than nothing and no more than its quantity.
pub record IsWellFormed (o : Order) : Type 0 where
  pub filled_nonneg : zero_dec ≤ℤ o.filled_qty
  pub filled_le : o.filled_qty ≤ℤ o.quantity

-- All that a fill leaves alone: everything but the filled quantity and the status.
pub record SameTerms (o o' : Order) : Type 0 where
  pub same_id : o'.order_id ≡ o.order_id
  pub same_trader : o'.trader ≡ o.trader
  pub same_market : o'.market_id ≡ o.market_id
  pub same_side : o'.side ≡ o.side
  pub same_type : o'.order_type ≡ o.order_type
  pub same_price : o'.price ≡ o.price
  pub same_quantity : o'.quantity ≡ o.quantity

pub SameTerms-refl : (o : Order) → SameTerms o o
SameTerms-refl o = record {
  same_id = refl;
  same_trader = refl;
  same_market = refl;
  same_side = refl;
  same_type = refl;
  same_price = refl;
  same_quantity = refl;
}

pub filled_by-SameTerms : (q : LegacyDec) (o : Order) → SameTerms o (filled_by q o)
unfolding filled_by
filled_by-SameTerms q o = record {
  same_id = refl;
  same_trader = refl;
  same_market = refl;
  same_side = refl;
  same_type = refl;
  same_price = refl;
  same_quantity = refl;
}

pub filled_by-filled_qty :
    (q : LegacyDec) (o : Order) → (filled_by q o).filled_qty ≡ o.filled_qty +ℤ q
unfolding filled_by
filled_by-filled_qty q o = refl

pub filled_by-quantity : (q : LegacyDec) (o : Order) → (filled_by q o).quantity ≡ o.quantity
unfolding filled_by
filled_by-quantity q o = refl

-- `Fill` succeeds exactly up to the remaining quantity.
pub fill_within : (q : LegacyDec) (o : Order) → q ≤ℤ remaining_qty o → fill q o ≡ ok (filled_by q o)
unfolding fill
fill_within q o h = ground arith

pub fill_beyond :
    (q : LegacyDec) (o : Order) → remaining_qty o <ℤ q → fill q o ≡ err fill_exceeds_remaining
unfolding fill
fill_beyond q o h = ground arith

pub filled_by-IsWellFormed :
    (q : LegacyDec) (o : Order)
    → zero_dec ≤ℤ q
    → q ≤ℤ remaining_qty o
    → IsWellFormed o
    → IsWellFormed (filled_by q o)
unfolding filled_by
filled_by-IsWellFormed q o n h w = record {
  filled_nonneg = omega (arith, +ℤ_parts o.filled_qty q, w.filled_nonneg);
  filled_le = omega (arith, +ℤ_parts o.filled_qty q, -ℤ_parts o.quantity o.filled_qty, w.filled_le);
}

pub filled_by-remaining_qty :
    (q : LegacyDec) (o : Order) → remaining_qty (filled_by q o) ≡ remaining_qty o -ℤ q
unfolding filled_by
filled_by-remaining_qty q o = omega int_laws

pub filled_by-is_active :
    (q : LegacyDec) (o : Order)
    → zero_dec <ℤ q
    → IsWellFormed o
    → is_active (filled_by q o) ≡ not (is_filled (filled_by q o))
unfolding filled_by
filled_by-is_active q o p w = ground (arith, +ℤ_parts o.filled_qty q)

-- A well-formed order that is filled by a positive quantity within what remains stays well formed,
-- has that much less remaining, and is active exactly until it is filled; a quantity beyond what
-- remains is refused.
pub fill_lem :
    (q : LegacyDec) (o : Order)
    → zero_dec <ℤ q
    → IsWellFormed o
    → ((q ≤ℤ remaining_qty o)
        × (fill q o ≡ ok (filled_by q o))
        × IsWellFormed (filled_by q o)
        × SameTerms o (filled_by q o)
        × (remaining_qty (filled_by q o) ≡ remaining_qty o -ℤ q)
        × (is_active (filled_by q o) ≡ not (is_filled (filled_by q o))))
      ⊎ ((remaining_qty o <ℤ q) × (fill q o ≡ err fill_exceeds_remaining))
fill_lem q o p w = elim (≤ℤ-or-<ℤ q (remaining_qty o)) [
  | inl h ↦ inl (
    h,
    fill_within q o h,
    filled_by-IsWellFormed q o (omega arith) h w,
    filled_by-SameTerms q o,
    filled_by-remaining_qty q o,
    filled_by-is_active q o p w,
  )
  | inr h ↦ inr (h, fill_beyond q o h)
]
