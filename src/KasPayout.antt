-- ===== src/KasPayout.antt =====
-- The KAS payout: the tables of crates/katpool-db/src/repo/payout.rs and the payout-kas crate
-- (payout-kas/src) that drives them.
pub mod Rows
pub mod Repo
pub mod Cycle
pub mod Confirm
pub mod Execute
pub mod ConfirmCycle
pub mod Engine
