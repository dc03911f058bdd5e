-- ===== src/Perpetual.antt =====
-- x/perpetual: markets, accounts, margin and positions.
pub mod Types
pub mod Store
pub mod Margin
pub mod Positions
pub mod Rates
pub mod Funding
mod Tests
mod FundingTests
