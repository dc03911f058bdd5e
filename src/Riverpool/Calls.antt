-- ===== src/Riverpool/Calls.antt =====
-- x/riverpool/keeper: what holds through every call of the module.
pub mod Marked
pub mod Users
pub mod Block
pub mod Run
