-- ===== src/Riverpool.antt =====
-- x/riverpool: liquidity pools, their shares and withdrawals, and the guard on their drawdown.
pub mod Types
pub mod Store
pub mod Deposits
pub mod Nav
pub mod Withdrawals
pub mod Blocks
pub mod Revenue
pub mod Calls
mod Tests
