-- ===== src/Orderbook/Result.antt =====
-- The errors of the order book module, and how a method that may give one of them ends.

pub data Error : Type 0 where
  fill_exceeds_remaining order_not_found order_not_active unauthorized : Error
  ioc_no_fill fok_not_filled post_only_would_take : Error

pub data Result (A : Type 0) : Type 0 where
  ok : A → Result A
  err : Error → Result A
