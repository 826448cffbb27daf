-- ===== src/Accountant.antt =====
-- The accountant (accountant/src): the fee model and the allocation of a coinbase reward.
pub mod Fee
pub mod Allocation
pub mod Ledger
pub mod Engine
pub mod Blocks
pub mod Maturity
pub mod Consumer
