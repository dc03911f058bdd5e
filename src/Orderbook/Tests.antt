-- ===== src/Orderbook/Tests.antt =====
-- Concrete orders, stores and an environment, on which the theorems of the order book are run.
mod Engine
mod Book
mod Orders
use perp_dex.Base.{
  ℕ, suc, ◌*◌, ◌/◌, ◌^◌, ◌≡◌, refl, ◌∙◌, true, false, Bool, String, List, [], ◌∷◌, some, All, arith,
  same, same_iff, same_self, Bool-cases, inl, inr,
}
use perp_dex.Base.Int.{pos, pos_part}
use perp_dex.Base.Dict.{Dict, lookup, insert, erase}
use perp_dex.Decimal.{LegacyDec, zero_dec, new_dec, new_dec_with_prec, lte}
use perp_dex.Orderbook.Types.{Order, OrderType, OrderStatus, Side}
use perp_dex.Orderbook.Types.Fill.{IsWellFormed}
use perp_dex.Orderbook.Level.{PriceLevel}
use perp_dex.Orderbook.Book.{OrderBook}
use perp_dex.Orderbook.Store.{Env, Market, State}
use perp_dex.Orderbook.Matching.Invariant.{IsOpen, IsSound, insert-IsSound}
use perp_dex.Orderbook.Matching.Loops.{HasMarket}

abbrev pub btc : Market
btc = record {
  market_id = "BTC-USDC";
  taker_fee_rate = new_dec_with_prec 5 4;
  maker_fee_rate = new_dec_with_prec 2 4;
  initial_margin = new_dec_with_prec 5 2;
}

-- An iterator that gives each key once.
abbrev pub walk : Dict Order → Dict Order
walk [] = []
walk ((k, o) ∷ d) = (k, o) ∷ erase k (walk d)

-- A perpetual module that counts its position updates, and passes the margin of quantities of no
-- more than ten.
abbrev pub env : Env ℕ
env = record {
  perpetual = record {
    get_market = λ p id. some btc;
    update_position = λ p trader id side qty price fee. suc p;
    check_margin_requirement = λ p trader id side qty price. (p, lte qty (new_dec 10));
  };
  rounding = record {
    mul = λ a b. pos (pos_part a * pos_part b / 10 ^ 18);
    quo = λ a b. pos (pos_part a * 10 ^ 18 / pos_part b);
  };
  order_name = λ n. "order";
  trade_name = λ n. "trade";
  walk = walk;
}

abbrev pub order : String → Side → LegacyDec → LegacyDec → Order
order id side price quantity = record {
  order_id = id;
  trader = "alice";
  market_id = "BTC-USDC";
  side = side;
  order_type = OrderType.limit;
  price = price;
  quantity = quantity;
  filled_qty = zero_dec;
  status = OrderStatus.opened;
}

-- Three sell orders of one each at 100, and a buyer of three.
abbrev pub first_maker : Order
first_maker = order "a" Side.sell (new_dec 100) (new_dec 1)

abbrev pub second_maker : Order
second_maker = order "b" Side.sell (new_dec 100) (new_dec 1)

abbrev pub third_maker : Order
third_maker = order "c" Side.sell (new_dec 100) (new_dec 1)

abbrev pub taker : Order
taker = order "t" Side.buy (new_dec 101) (new_dec 3)

abbrev pub asks : PriceLevel
asks = record { price = new_dec 100; quantity = new_dec 3; order_ids = "a" ∷ "b" ∷ "c" ∷ [] }

abbrev pub book : OrderBook
book = record { market_id = "BTC-USDC"; bids = []; asks = asks ∷ [] }

abbrev pub stored : Dict Order
stored = insert "a" first_maker (insert "b" second_maker (insert "c" third_maker []))

abbrev pub state : State ℕ
state = record {
  orders = stored;
  order_books = ("BTC-USDC", book) ∷ [];
  trades = [];
  trade_counter = 0;
  order_counter = 0;
  perp = 0;
}

pub known : (o : Order) → HasMarket env o
known o perp = (btc, refl)

pub order-IsOpen :
    (id : String) (side : Side) (price : LegacyDec) → IsOpen (order id side price (new_dec 1))
order-IsOpen id side price = record {
  well_formed = record { filled_nonneg = omega arith; filled_le = omega arith };
  unfilled = λ _. omega arith;
}

pub taker-IsOpen : IsOpen taker
taker-IsOpen = record {
  well_formed = record { filled_nonneg = omega arith; filled_le = omega arith };
  unfilled = λ _. omega arith;
}

empty-IsSound : IsSound []
unfolding lookup
empty-IsSound id o h = cc

pub stored-IsSound : IsSound stored
stored-IsSound =
    insert-IsSound "a" first_maker _
      (insert-IsSound "b" second_maker _
        (insert-IsSound "c" third_maker [] empty-IsSound (order-IsOpen "c" Side.sell (new_dec 100)))
        (order-IsOpen "b" Side.sell (new_dec 100)))
      (order-IsOpen "a" Side.sell (new_dec 100))

-- What is found under the other keys is found without the first entry too.
erase-entries :
    (k : String) (o : Order) (d es : Dict Order)
    → All (λ e. lookup e.0 d ≡ some e.1) es
    → All (λ e. lookup e.0 ((k, o) ∷ d) ≡ some e.1) (erase k es)
unfolding erase lookup
erase-entries k o d [] hs = tt
erase-entries k o d ((j, p) ∷ es) (h, hs) = elim (Bool-cases (same j k)) [
  | inl e ↦ rw (e, erase) (erase-entries k o d es hs)
  | inr e ↦ rw (e, erase) (ground (arith, same_iff j k, same_iff k j), erase-entries k o d es hs)
]

pub walk-entries : (d : Dict Order) → All (λ e. lookup e.0 d ≡ some e.1) (walk d)
unfolding lookup
walk-entries [] = tt
walk-entries ((k, o) ∷ d) = (rw (same_self k) refl, erase-entries k o d (walk d) (walk-entries d))
