-- ===== src/Clearinghouse.antt =====
-- x/clearinghouse: the insurance fund.
pub mod Insurance
pub mod Funds
mod Tests
