-- ===== src/Tests.antt =====
-- Runs of the model on small inputs, and the theorems at them.
mod FixedPoint
mod Payouts
mod Consolidation
mod Cycles
mod Fees
mod Rebates
mod Rewards
mod Shares
mod Admissions
mod Events
mod Credits
