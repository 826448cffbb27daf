-- ===== src/Krc20Payout.antt =====
-- The KRC-20 payout crate (payout-krc20/src).
pub mod Rebate
pub mod Credit
