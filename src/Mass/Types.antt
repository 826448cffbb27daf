-- ===== src/Mass/Types.antt =====
-- The planners' inputs and outputs (types.rs, evaluator.rs, and what tx_build.rs builds of
-- kaspa_consensus_core's transaction types). Transaction ids, scripts and recipient labels are only
-- compared for equality, so each is a number. A sum of u64 amounts is not reduced: all amounts are
-- below the coin supply.
use katpool.Base.{ℕ, ◌==◌, Bool, ◌&&◌, List, leb, max, sum_by}

pub record Outpoint : Type 0 where
  pub transaction_id : ℕ
  pub index : ℕ

abbrev pub outpoint_eq : Outpoint → Outpoint → Bool
outpoint_eq a b = a.transaction_id == b.transaction_id && a.index == b.index

pub record UtxoEntry : Type 0 where
  pub amount : ℕ
  pub script_public_key : ℕ
  pub block_daa_score : ℕ
  pub is_coinbase : Bool

pub record TreasuryUtxo : Type 0 where
  pub outpoint : Outpoint
  pub entry : UtxoEntry

-- `PLANNING_VIRTUAL_TXID_BYTES`, 31 zero bytes and a one, read as a number
abbrev pub planning_virtual_txid : ℕ
planning_virtual_txid = 1

unfoldable pub is_planning_virtual : TreasuryUtxo → Bool
is_planning_virtual u = u.outpoint.transaction_id == planning_virtual_txid

pub record PayoutRecipient : Type 0 where
  pub id : ℕ
  pub amount_sompi : ℕ
  pub script_public_key : ℕ

pub record TxMass : Type 0 where
  pub compute_mass : ℕ
  pub storage_mass : ℕ
  pub transient_mass : ℕ

unfoldable pub effective : TxMass → ℕ
effective m = max (max m.compute_mass m.storage_mass) m.transient_mass

unfoldable pub fits_independently : TxMass → ℕ → Bool
fits_independently m limit =
    leb m.compute_mass limit && leb m.storage_mass limit && leb m.transient_mass limit

pub record PlannedBatch : Type 0 where
  pub inputs : List TreasuryUtxo
  pub payouts : List PayoutRecipient
  pub change_amount_sompi : ℕ
  pub mass : TxMass

pub record PlanBatchesResult : Type 0 where
  pub batches : List PlannedBatch
  pub deferred_below_floor : List PayoutRecipient
  pub unpaid : List PayoutRecipient

-- `inputs.iter().map(|u| u.entry.amount).sum()`, and the same of payouts
abbrev pub input_sum : List TreasuryUtxo → ℕ
input_sum = sum_by (λ u. u.entry.amount)

abbrev pub payout_sum : List PayoutRecipient → ℕ
payout_sum = sum_by (λ p. p.amount_sompi)
