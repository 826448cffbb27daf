-- ===== src/KasPayout/Execute.antt =====
-- Broadcasting a cycle (`broadcast_cycle` and `sign_batch_with_exact_fee` of
-- payout-kas/src/execute.rs). The key and the script engine behind `sign_batch`, the node's answers
-- and the address parser are parameters. What the function does to the tables and to the network is
-- the list of its effects in their order, so that a crash is a prefix of it.
pub mod Intent
use katpool.Base.{
  ℕ, ◌+◌, ◌-◌, ◌==◌, Bool, true, false, not, ◌&&◌, ◌||◌, if◌then◌else◌, ltb, Option, none, some,
  List, [], ◌∷◌, ◌++◌, map, retain, any, find?, is_empty, Result, ok, err, ◌>>=◌, ok_or, map_err,
  length,
}
use katpool.Base.Float.{Float}
use katpool.Mass.Types.{
  UtxoEntry, TreasuryUtxo, PayoutRecipient, PlannedBatch, PlanBatchesResult, input_sum, payout_sum,
}
use katpool.Mass.Fee.{FeeRate, from_feerate, reserves_fee, fee_for, is_change_dust}
use katpool.Mass.Evaluator.{Consensus, Transaction, MassEvaluationError, evaluate_populated}
use katpool.Mass.Planner.{plan_batches}
use katpool.KasPayout.Rows.{PayoutCycle, Payout}
use katpool.KasPayout.Repo.{
  mark_cycle_broadcasting, mark_payout_submitted, in_flight_spend_tx_hashes,
}
use katpool.KasPayout.Cycle.{CycleState, pending}
use katpool.KasPayout.Confirm.{is_spendable}

pub data ExecuteError : Type 0 where
  db_error : ExecuteError
  kaspad_error : ExecuteError
  sign_error : ExecuteError
  mass_error : MassEvaluationError → ExecuteError
  recipient_address : ℕ → ExecuteError
  unknown_recipient : ℕ → ExecuteError

pub data ExecutionMode : Type 0 where
  live : ExecutionMode
  dry_run : ExecutionMode

abbrev pub is_dry_run : ExecutionMode → Bool
is_dry_run live = false
is_dry_run dry_run = true

pub record SignedBatch : Type 0 where
  pub signed_txid : ℕ
  pub signed_tx : Transaction
  pub signed_entries : List UtxoEntry

pub record ExecutionReport : Type 0 where
  pub planned_batches : ℕ
  pub spendable_utxos : ℕ
  pub submitted_txids : List ℕ
  pub submitted_payouts : ℕ
  pub deferred_below_floor : ℕ
  pub unpaid : ℕ
  pub submit_errors : List ℕ

-- What reaches the tables and the node: the cycle is marked, the rows with some ids are marked submitted
-- with a txid in one database transaction, the transaction that was signed for a batch's payouts is sent.
pub data Effect : Type 0 where
  mark_broadcasting : ℕ → Effect
  record_intent : List ℕ → ℕ → Effect
  submit_transaction : List PayoutRecipient → ℕ → Effect

-- The tables, and what the node was sent: the payouts of each signed batch, with its txid.
pub record Wire : Type 0 where
  pub wire_cycles : List PayoutCycle
  pub wire_rows : List Payout
  pub sent : List (List PayoutRecipient × ℕ)

unfoldable pub mark_all_submitted : List ℕ → ℕ → List Payout → List Payout
unfolding mark_payout_submitted
mark_all_submitted [] tx_hash rows = rows
mark_all_submitted (id ∷ ids) tx_hash rows =
    mark_all_submitted ids tx_hash (mark_payout_submitted id tx_hash rows)

unfoldable pub run_effect : Effect → Wire → Wire
unfolding mark_cycle_broadcasting mark_all_submitted
run_effect (mark_broadcasting cycle_id) w = record {
  wire_cycles = mark_cycle_broadcasting cycle_id w.wire_cycles;
  wire_rows = w.wire_rows;
  sent = w.sent;
}
run_effect (record_intent ids tx_hash) w = record {
  wire_cycles = w.wire_cycles;
  wire_rows = mark_all_submitted ids tx_hash w.wire_rows;
  sent = w.sent;
}
run_effect (submit_transaction payouts tx_hash) w = record {
  wire_cycles = w.wire_cycles;
  wire_rows = w.wire_rows;
  sent = w.sent ++ (payouts, tx_hash) ∷ [];
}

unfoldable pub run_effects : List Effect → Wire → Wire
unfolding run_effect
run_effects [] w = w
run_effects (e ∷ es) w = run_effects es (run_effect e w)

-- The node's answers, in this pass.
pub record Node (fl : Float) : Type 0 where
  pub virtual_daa_score : Result ExecuteError ℕ
  pub treasury_utxos : Result ExecuteError (List TreasuryUtxo)
  pub fee_estimate_sompi_per_gram : Option fl.F
  pub accepts : ℕ → Bool

module _ (fl : Float) (consensus : Consensus) (treasury_script : ℕ)
    (sign_batch : PlannedBatch → Result ExecuteError SignedBatch) where
  -- the change that is left for the exact fee; a dust change is dropped
  abbrev pub exact_change : PlannedBatch → ℕ → Option ℕ
  exact_change batch fee =
      let change = input_sum batch.inputs - payout_sum batch.payouts - fee in
      if ltb (input_sum batch.inputs) (payout_sum batch.payouts + fee)
      then none
      else if not (change == 0) && is_change_dust consensus.output_size change treasury_script
      then some 0
      else some change

  abbrev pub with_exact_change : PlannedBatch → ℕ → PlannedBatch
  with_exact_change batch change = record {
    inputs = batch.inputs;
    payouts = batch.payouts;
    change_amount_sompi = change;
    mass = batch.mass;
  }

  unfoldable pub sign_batch_with_exact_fee :
      FeeRate fl → PlannedBatch → Result ExecuteError SignedBatch
  unfolding is_change_dust
  sign_batch_with_exact_fee rate batch = do
    provisional ← sign_batch batch
    (if not (reserves_fee fl rate) then ok provisional else (do
      mass ←
          map_err mass_error
            (evaluate_populated consensus provisional.signed_tx provisional.signed_entries)
      elim (exact_change batch (fee_for fl rate mass)) [
        | none ↦ ok provisional
        | some change ↦
            if change == batch.change_amount_sompi
            then ok provisional
            else sign_batch (with_exact_change batch change)
      ]))

  -- the rows of a batch, by the recipients' ids
  unfoldable pub batch_payout_ids :
      List Payout → List PayoutRecipient → Result ExecuteError (List ℕ)
  batch_payout_ids rows [] = ok []
  batch_payout_ids rows (r ∷ rs) = do
    row ← ok_or (find? (λ p. p.id == r.id) rows) (unknown_recipient r.id)
    ids ← batch_payout_ids rows rs
    ok (row.id ∷ ids)

  abbrev pub report_batch :
      ExecutionMode → (ℕ → Bool) → List ℕ → ℕ → ExecutionReport → ExecutionReport
  report_batch mode accepts ids txid r =
      let taken = is_dry_run mode || accepts txid in
      record {
        planned_batches = r.planned_batches;
        spendable_utxos = r.spendable_utxos;
        submitted_txids = if taken then r.submitted_txids ++ txid ∷ [] else r.submitted_txids;
        submitted_payouts =
            if is_dry_run mode then r.submitted_payouts else r.submitted_payouts + length ids;
        deferred_below_floor = r.deferred_below_floor;
        unpaid = r.unpaid;
        submit_errors = if taken then r.submit_errors else r.submit_errors ++ txid ∷ [];
      }

  -- the `for` loop over the batches: the effects so far, and the report or the error that stops it
  unfoldable pub broadcast_batches :
      FeeRate fl
      → ExecutionMode
      → (ℕ → Bool)
      → List Payout
      → List PlannedBatch
      → ExecutionReport
      → List Effect × Result ExecuteError ExecutionReport
  unfolding batch_payout_ids sign_batch_with_exact_fee
  broadcast_batches rate mode accepts rows [] report = ([], ok report)
  broadcast_batches rate mode accepts rows (b ∷ bs) report =
      elim (batch_payout_ids rows b.payouts) [
        | err e ↦ ([], err e)
        | ok ids ↦ elim (sign_batch_with_exact_fee rate b) [
          | err e ↦ ([], err e)
          | ok signed ↦
              let txid = signed.signed_txid in
              let rest =
                broadcast_batches rate mode accepts rows bs
                  (report_batch mode accepts ids txid report) in
              (
                (if is_dry_run mode
                      then []
                      else record_intent ids txid ∷ submit_transaction b.payouts txid ∷ [])
                    ++ rest.0,
                rest.1,
              )
        ]
      ]

  -- the recipients, each with the script of its wallet's address
  unfoldable pub recipients_of :
      (ℕ → Option ℕ) → List Payout → Result ExecuteError (List PayoutRecipient)
  recipients_of script_of [] = ok []
  recipients_of script_of (p ∷ ps) = do
    script ← ok_or (script_of p.wallet_id) (recipient_address p.wallet_id)
    rest ← recipients_of script_of ps
    ok (record { id = p.id; amount_sompi = p.amount_sompi; script_public_key = script } ∷ rest)

  -- mature coins that no unsettled payout's confirmation depends on
  unfoldable pub spendable_coins : ℕ → List ℕ → List TreasuryUtxo → List TreasuryUtxo
  unfolding is_spendable
  spendable_coins virtual_daa protected coins =
      retain (λ u. not (any (λ h. h == u.outpoint.transaction_id) protected))
        (retain (λ u. is_spendable u.entry.block_daa_score u.entry.is_coinbase virtual_daa) coins)

  -- a failed estimate falls back to the relay minimum
  abbrev pub fee_rate_of : Option fl.F → FeeRate fl
  fee_rate_of none = from_feerate fl fl.zero_f
  fee_rate_of (some feerate) = from_feerate fl feerate

  abbrev pub nothing_reported : ExecutionReport
  nothing_reported = record {
    planned_batches = 0;
    spendable_utxos = 0;
    submitted_txids = [];
    submitted_payouts = 0;
    deferred_below_floor = 0;
    unpaid = 0;
    submit_errors = [];
  }

  -- the plan for the coins, its report, and the batches' effects behind the cycle's mark
  unfoldable pub broadcast_plan :
      Node fl
      → ExecutionMode
      → CycleState
      → List PayoutRecipient
      → List TreasuryUtxo
      → List Effect × Result ExecuteError ExecutionReport
  unfolding broadcast_batches pending plan_batches
  broadcast_plan node mode cycle recipients coins =
      let rate = fee_rate_of node.fee_estimate_sompi_per_gram in
      let plan = plan_batches fl consensus treasury_script rate coins recipients in
      let report : ExecutionReport = record {
        planned_batches = length plan.batches;
        spendable_utxos = length coins;
        submitted_txids = [];
        submitted_payouts = 0;
        deferred_below_floor = length plan.deferred_below_floor;
        unpaid = length plan.unpaid;
        submit_errors = [];
      } in
      let sent = broadcast_batches rate mode node.accepts (pending cycle) plan.batches report in
      (
        (if is_dry_run mode || is_empty plan.batches
              then []
              else mark_broadcasting cycle.cycle.cycle_id ∷ [])
            ++ sent.0,
        sent.1,
      )

  -- the recipients and the coins; `rows` is the payout table, which names the protected change coins
  unfoldable pub gather :
      Node fl
      → (ℕ → Option ℕ)
      → List Payout
      → CycleState
      → Result ExecuteError (List PayoutRecipient × List TreasuryUtxo)
  unfolding pending recipients_of spendable_coins in_flight_spend_tx_hashes
  gather node script_of rows cycle = do
    recipients ← recipients_of script_of (pending cycle)
    virtual_daa ← node.virtual_daa_score
    coins ← node.treasury_utxos
    ok (recipients, spendable_coins virtual_daa (in_flight_spend_tx_hashes rows) coins)

  unfoldable pub broadcast_gathered :
      Node fl
      → CycleState
      → ExecutionMode
      → Result ExecuteError (List PayoutRecipient × List TreasuryUtxo)
      → List Effect × Result ExecuteError ExecutionReport
  unfolding broadcast_plan
  broadcast_gathered node cycle mode (err e) = ([], err e)
  broadcast_gathered node cycle mode (ok (recipients, coins)) =
      broadcast_plan node mode cycle recipients coins

  unfoldable pub broadcast_cycle :
      Node fl
      → (ℕ → Option ℕ)
      → List Payout
      → CycleState
      → ExecutionMode
      → List Effect × Result ExecuteError ExecutionReport
  unfolding pending gather broadcast_gathered
  broadcast_cycle node script_of rows cycle mode =
      if is_empty (pending cycle)
      then ([], ok nothing_reported)
      else broadcast_gathered node cycle mode (gather node script_of rows cycle)
