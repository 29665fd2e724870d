-- ===== src/Keeps.antt =====
-- The invariant of the contract over each method: those that control it, those that move funds, and
-- those that exchange with other contracts.
pub mod Controls
pub mod Funds
pub mod Exchanges
