-- ===== src/Orderbook.antt =====
-- The order book module, x/orderbook.
pub mod Result
pub mod Types
pub mod Level
pub mod Book
pub mod V2
pub mod Store
pub mod Matching
pub mod Engine
pub mod Conditional
pub mod Trailing
pub mod Oco
pub mod TimeInForce
mod Tests
