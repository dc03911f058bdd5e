-- ===== src/Perpetual/Positions/Signed.antt =====
-- A trader's position in a market as a signed size.
use perp_dex.Base.{
  ◌≡◌, refl, true, false, not, String, Option, none, some, inl, inr, arith, same_self, Bool-cases,
  if◌then◌else◌, ◌||◌,
}
use perp_dex.Base.Int.{◌+ℤ◌, ◌-ℤ◌, ◌<ℤ◌, int_laws}
use perp_dex.Base.Dict.{lookup, erase, lookup-insert_self, lookup-erase}
use perp_dex.Decimal.{LegacyDec, zero_dec, neg, is_zero, is_negative}
use perp_dex.Perpetual.Types.{PositionSide, is_long, is_short, same_side, Position, Account}
use perp_dex.Perpetual.Store.{State, position_key, get_position, set_position, get_account}

-- Long positions count up, short positions count down.
abbrev pub signed_size : PositionSide → LegacyDec → LegacyDec
signed_size side size = if is_short side then neg size else size

abbrev pub net_of : Option Position → LegacyDec
net_of none = zero_dec
net_of (some p) = signed_size p.side p.size

-- A stored position is of the trader and the market of its key, long or short, and not empty.
abbrev pub IsKept : String → String → Option Position → Type 0
IsKept trader market_id none = Unit
IsKept trader market_id (some p) =
    (p.trader ≡ trader)
    × (p.market_id ≡ market_id)
    × (zero_dec <ℤ p.size)
    × (is_long p.side ≡ not (is_short p.side))

module _ (trader market_id : String) where
  abbrev pub net : State → LegacyDec
  net s = net_of (get_position trader market_id s)

  pub get_set_position :
      (p : Position) (s : State)
      → p.trader ≡ trader
      → p.market_id ≡ market_id
      → get_position trader market_id (set_position p s) ≡ some p
  get_set_position p s e f =
      rw (← e, ← f) (lookup-insert_self (position_key p.trader p.market_id) p s.positions)

  pub get_delete_position :
      (s : State)
      → lookup (position_key trader market_id) (erase (position_key trader market_id) s.positions)
        ≡ none
  get_delete_position s = rw (lookup-erase, same_self (position_key trader market_id))

  -- The state with an account of the trader, stored under its own name.
  abbrev pub HasAccount : State → Type 0
  HasAccount s = (a : Account) × (get_account trader s ≡ some a) × (a.trader ≡ trader)

-- What `AddSize` makes of a position that is not empty.
pub record Added (size : LegacyDec) (p p' : Position) : Type 0 where
  pub same_trader : p'.trader ≡ p.trader
  pub same_market : p'.market_id ≡ p.market_id
  pub same_side_eq : p'.side ≡ p.side
  pub size_eq : p'.size ≡ p.size +ℤ size

pub signed_size_add :
    (side : PositionSide) (a b : LegacyDec)
    → signed_size side (a +ℤ b) ≡ signed_size side a +ℤ signed_size side b
signed_size_add side a b = elim (Bool-cases (is_short side)) [
  | inl e ↦ rw e (omega int_laws)
  | inr e ↦ rw e refl
]

pub nonzero_of_pos : (a : LegacyDec) → zero_dec <ℤ a → is_zero a ≡ false
nonzero_of_pos a h = ground arith

pub same_side_eq : (c d : PositionSide) → same_side c d ≡ true → is_short c ≡ is_short d
same_side_eq c d e = ground arith

pub is_negative_of_pos : (a : LegacyDec) → zero_dec <ℤ a → (is_zero a || is_negative a) ≡ false
is_negative_of_pos a h = ground arith

-- A trade against a position takes its size off the net position.
abbrev pub Opposes : PositionSide → Position → Type 0
Opposes side p = is_short side ≡ not (is_short p.side)

-- A position less a trade of the other side.
pub signed_size_sub :
    (side : PositionSide) (p : Position) (size : LegacyDec)
    → Opposes side p
    → signed_size p.side (p.size -ℤ size) ≡ signed_size p.side p.size +ℤ signed_size side size
signed_size_sub side p size o = elim (Bool-cases (is_short p.side)) [
  | inl e ↦ rw (o, e) (omega int_laws)
  | inr e ↦ rw (o, e) (omega int_laws)
]

pub flipped :
    (side : PositionSide) (p : Position) (size : LegacyDec)
    → Opposes side p
    → zero_dec +ℤ signed_size side (size -ℤ p.size)
      ≡ signed_size p.side p.size +ℤ signed_size side size
flipped side p size o = elim (Bool-cases (is_short p.side)) [
  | inl e ↦ rw (o, e) (omega int_laws)
  | inr e ↦ rw (o, e) (omega int_laws)
]

-- Two sides that differ, of which each is long or short, are opposite.
pub sides_oppose :
    (c d : PositionSide)
    → is_long c ≡ not (is_short c)
    → is_long d ≡ not (is_short d)
    → same_side c d ≡ false
    → is_short d ≡ not (is_short c)
sides_oppose c d h k e = ground arith
