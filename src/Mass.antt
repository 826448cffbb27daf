-- ===== src/Mass.antt =====
-- The katpool-storagemass crate (crates/katpool-storagemass/src): the masses of a transaction, the
-- network fee policy, the greedy payout planner and the treasury consolidation planner.
pub mod Types
pub mod Fee
pub mod Evaluator
pub mod Planner
pub mod Consolidation
