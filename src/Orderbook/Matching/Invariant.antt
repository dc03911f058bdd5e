-- ===== src/Orderbook/Matching/Invariant.antt =====
-- What the loops of `Match` keep: the quantities of the taker, of the result and of the trades
-- agree, every trade is at a price that the taker accepts, and every stored order stays well formed.
use perp_dex.Base.{
  ◌≡◌, ◌∙◌, true, String, List, [], ◌∷◌, ◌++◌, some, arith, All, All-append, inl, inr, subst,
}
use perp_dex.Base.Int.{◌+ℤ◌, ◌≤ℤ◌, ◌<ℤ◌, int_laws}
use perp_dex.Base.Dict.{Dict, lookup, insert, lookup-insert_cases}
use perp_dex.Decimal.{LegacyDec, zero_dec}
use perp_dex.Orderbook.Types.{Order, is_active, remaining_qty, filled_by}
use perp_dex.Orderbook.Types.Fill.{
  IsWellFormed, SameTerms, filled_by-SameTerms, filled_by-IsWellFormed, filled_by-remaining_qty,
  filled_by-filled_qty, filled_by-is_active,
}
use perp_dex.Orderbook.Store.{Env, Market, Trade, new_trade}
use perp_dex.Orderbook.Matching.{Run, is_price_compatible, next_trade, settle}

-- A stored order is well formed, and has something left to fill while it is active.
pub record IsOpen (o : Order) : Type 0 where
  pub well_formed : IsWellFormed o
  pub unfilled : is_active o ≡ true → o.filled_qty <ℤ o.quantity

-- Every order of a store is such an order.
abbrev pub IsSound : Dict Order → Type 0
IsSound d = (id : String) (o : Order) → lookup id d ≡ some o → IsOpen o

pub insert-IsSound :
    (k : String) (o : Order) (d : Dict Order) → IsSound d → IsOpen o → IsSound (insert k o d)
insert-IsSound k o d sound opened id o' h = elim (lookup-insert_cases k id o d h) [
  | inl e ↦ subst IsOpen e opened
  | inr e ↦ sound id o' e
]

-- The quantities of a list of trades, added up.
unfoldable pub sum_qty : List Trade → LegacyDec
sum_qty [] = zero_dec
sum_qty (t ∷ ts) = t.quantity +ℤ sum_qty ts

pub sum_qty-append :
    (ts : List Trade) (t : Trade) → sum_qty (ts ++ t ∷ []) ≡ sum_qty ts +ℤ t.quantity
unfolding sum_qty
sum_qty-append [] t = omega int_laws
sum_qty-append (u ∷ ts) t = rw (sum_qty-append ts t) (omega int_laws)

-- A trade that the order `o` may take part in as the taker.
pub record IsFair (o : Order) (t : Trade) : Type 0 where
  pub positive : zero_dec <ℤ t.quantity
  pub compatible : is_price_compatible o t.price ≡ true

-- The state of `Match` for the order `o`, wherever its loops stand.
pub record Inv {P : Type 0} (o : Order) (s : Run P) : Type 0 where
  pub terms : SameTerms o s.taker
  pub taker_open : IsOpen s.taker
  pub remaining_eq : s.result.remaining_qty ≡ remaining_qty s.taker
  pub filled_eq : s.taker.filled_qty ≡ o.filled_qty +ℤ s.result.filled_qty
  pub traded_eq : sum_qty s.result.trades ≡ s.result.filled_qty
  pub fair : All (IsFair o) s.result.trades
  pub sound : IsSound s.store.orders

SameTerms-trans : (a b c : Order) → SameTerms a b → SameTerms b c → SameTerms a c
SameTerms-trans a b c h k = record {
  same_id = k.same_id ∙ h.same_id;
  same_trader = k.same_trader ∙ h.same_trader;
  same_market = k.same_market ∙ h.same_market;
  same_side = k.same_side ∙ h.same_side;
  same_type = k.same_type ∙ h.same_type;
  same_price = k.same_price ∙ h.same_price;
  same_quantity = k.same_quantity ∙ h.same_quantity;
}

filled_by-IsOpen :
    (q : LegacyDec) (o : Order)
    → zero_dec <ℤ q
    → q ≤ℤ remaining_qty o
    → IsWellFormed o
    → IsOpen (filled_by q o)
filled_by-IsOpen q o p h w = record {
  well_formed = filled_by-IsWellFormed q o (omega arith) h w;
  unfilled = λ a. ground (arith, filled_by-is_active q o p w);
}

pub is_price_compatible-SameTerms :
    (o o' : Order) (p : LegacyDec)
    → SameTerms o o'
    → is_price_compatible o' p ≡ is_price_compatible o p
unfolding is_price_compatible
is_price_compatible-SameTerms o o' p h = rw (h.same_type, h.same_side, h.same_price)

module _ {P : Type 0} (env : Env P) (o : Order) where
  -- A trade by a quantity that both orders have left keeps the invariant.
  pub settle-Inv :
      (id : String) (s : Run P) (maker : Order) (q : LegacyDec) (market : Market)
      → Inv o s
      → IsOpen maker
      → is_price_compatible o s.price ≡ true
      → zero_dec <ℤ q
      → q ≤ℤ remaining_qty s.taker
      → q ≤ℤ remaining_qty maker
      → Inv o (
          settle env id s
            (filled_by q s.taker)
            (filled_by q maker)
            (next_trade env s maker q market))
  unfolding settle next_trade new_trade
  settle-Inv id s maker q market v open_maker fits p ht hm = record {
    terms = SameTerms-trans o s.taker (filled_by q s.taker) v.terms (filled_by-SameTerms q s.taker);
    taker_open = filled_by-IsOpen q s.taker p ht v.taker_open.well_formed;
    remaining_eq = rw (filled_by-remaining_qty q s.taker, v.remaining_eq);
    filled_eq = rw (filled_by-filled_qty q s.taker, v.filled_eq) (omega int_laws);
    traded_eq = rw (sum_qty-append, v.traded_eq);
    fair =
        All-append (IsFair o) s.result.trades _ v.fair
          (record { positive = p; compatible = fits }, tt);
    sound =
        insert-IsSound _ (filled_by q maker) s.store.orders v.sound
          (filled_by-IsOpen q maker p hm open_maker.well_formed);
  }
