-- ===== src/Mass/Planner.antt =====
-- The greedy payout planner (crates/katpool-storagemass/src/planner.rs). Where the source keeps the
-- indices of the recipients that it has selected, the model keeps the recipients: each index comes
-- from enumerating the list that it is looked up in. The `while` loop runs on fuel, one round for
-- each payable recipient.
pub mod Batch
pub mod Removal
pub mod Invariant
pub mod Partition
pub mod Starvation
use katpool.Base.{
  ℕ, zero, suc, ◌+◌, ◌-◌, ◌*◌, ◌^◌, Bool, true, false, not, ◌&&◌, ◌||◌, if◌then◌else◌, ltb, leb,
  ◌==◌, List, [], ◌∷◌, ◌++◌, length, take, retain, any, is_empty, Option, none, some, max,
}
use katpool.Base.Bag.{sort_by}
use katpool.Base.Float.{Float}
use katpool.Base.Loop.{iterate}
use katpool.Base.Word.{add_sat_u64}
use katpool.Mass.Types.{
  outpoint_eq, TreasuryUtxo, planning_virtual_txid, PayoutRecipient, TxMass, PlannedBatch,
  PlanBatchesResult, input_sum, payout_sum,
}
use katpool.Mass.Fee.{FeeRate, reserves_fee, fee_for, is_change_dust}
use katpool.Mass.Evaluator.{Consensus, evaluate_shape, min_payout_output_sompi}

abbrev pub max_outputs_per_input : ℕ
max_outputs_per_input = 10

abbrev pub clears_floor : PayoutRecipient → Bool
clears_floor r = leb min_payout_output_sompi r.amount_sompi

-- payable and deferred
unfoldable pub partition_by_floor :
    List PayoutRecipient → List PayoutRecipient × List PayoutRecipient
partition_by_floor rs = (retain clears_floor rs, retain (λ r. not (clears_floor r)) rs)

unfoldable pub sort_utxos_desc : List TreasuryUtxo → List TreasuryUtxo
sort_utxos_desc = sort_by (λ a b. leb b.entry.amount a.entry.amount)

unfoldable pub sort_recipients_desc : List PayoutRecipient → List PayoutRecipient
sort_recipients_desc = sort_by (λ a b. leb b.amount_sompi a.amount_sompi)

unfoldable pub planning_change_utxo : ℕ → ℕ → ℕ → TreasuryUtxo
planning_change_utxo batch_index amount change_script = record {
  outpoint = record { transaction_id = planning_virtual_txid; index = batch_index };
  entry = record {
    amount = amount;
    script_public_key = change_script;
    block_daa_score = 0;
    is_coinbase = false;
  };
}

unfoldable pub remove_consumed : List TreasuryUtxo → List TreasuryUtxo → List TreasuryUtxo
remove_consumed utxos consumed =
    retain (λ u. not (any (λ c. outpoint_eq c.outpoint u.outpoint) consumed)) utxos

unfoldable pub remove_paid : List PayoutRecipient → List PayoutRecipient → List PayoutRecipient
remove_paid recipients paid = retain (λ r. not (any (λ p. p.id == r.id) paid)) recipients

-- the variables of the `while` loop
pub record Planning : Type 0 where
  pub utxos : List TreasuryUtxo
  pub payable : List PayoutRecipient
  pub batches : List PlannedBatch

module _ (fl : Float) (consensus : Consensus) (change_script : ℕ) (rate : FeeRate fl) where
  abbrev pub reserved_fee : TxMass → ℕ
  reserved_fee m = if reserves_fee fl rate then fee_for fl rate m else 0

  -- one round of the greedy loop: the recipient is taken or passed over
  unfoldable pub consider :
      List TreasuryUtxo → PayoutRecipient → List PayoutRecipient → List PayoutRecipient
  consider inputs rec selected =
      let candidate_sum = add_sat_u64 (payout_sum selected) rec.amount_sompi in
      let candidate = selected ++ rec ∷ [] in
      if ltb (input_sum inputs) candidate_sum
      then selected
      else elim (evaluate_shape consensus inputs candidate change_script
          (input_sum inputs - candidate_sum)) [
            | none ↦ selected
            | some mass ↦
                if leb (add_sat_u64 candidate_sum (reserved_fee mass)) (input_sum inputs)
                then candidate
                else selected
          ]

  unfoldable pub grow :
      List TreasuryUtxo → ℕ → List PayoutRecipient → List PayoutRecipient → List PayoutRecipient
  unfolding consider
  grow inputs max_outputs [] selected = selected
  grow inputs max_outputs (rec ∷ rest) selected =
      let more = grow inputs max_outputs rest (consider inputs rec selected) in
      if leb max_outputs (length selected) then selected else more

  unfoldable pub greedy_recipients_for_inputs :
      List TreasuryUtxo → List PayoutRecipient → Option (List PayoutRecipient)
  unfolding grow
  greedy_recipients_for_inputs inputs recipients =
      let selected = grow inputs (max (length inputs * max_outputs_per_input) 1) recipients [] in
      if is_empty selected then none else some selected

  abbrev pub drops_change : ℕ → Bool
  drops_change change_amount =
      reserves_fee fl rate
      && (change_amount == 0 || is_change_dust consensus.output_size change_amount change_script)

  abbrev pub with_change :
      List TreasuryUtxo → List PayoutRecipient → ℕ → TxMass → Option PlannedBatch
  with_change inputs payouts change mass =
      some
        (record { inputs = inputs; payouts = payouts; change_amount_sompi = change; mass = mass })

  -- the fee of the measured shape comes out of the change, and a zero or dust change is dropped
  unfoldable pub settle_change :
      List TreasuryUtxo → List PayoutRecipient → TxMass → Option PlannedBatch
  settle_change inputs selected gross_mass =
      let fee = reserved_fee gross_mass in
      let change = input_sum inputs - payout_sum selected - fee in
      if ltb (input_sum inputs) (add_sat_u64 (payout_sum selected) fee)
      then none
      else if drops_change change
      then elim (evaluate_shape consensus inputs selected change_script 0) [
        | none ↦ none
        | some mass ↦ with_change inputs selected 0 mass
      ]
      else with_change inputs selected change gross_mass

  -- the batch for a funding set and its selected recipients; `none` widens the funding set
  unfoldable pub close_batch : List TreasuryUtxo → List PayoutRecipient → Option PlannedBatch
  unfolding settle_change
  close_batch inputs selected =
      if is_empty selected
      then none
      else if ltb (input_sum inputs) (payout_sum selected)
      then none
      else elim (evaluate_shape consensus inputs selected change_script
          (input_sum inputs - payout_sum selected)) [
            | none ↦ none
            | some gross_mass ↦ settle_change inputs selected gross_mass
          ]

  abbrev pub or_widen : Option PlannedBatch → Option PlannedBatch → Option PlannedBatch
  or_widen (some batch) wider = some batch
  or_widen none wider = wider

  -- `rounds` funding sets are left to try, from `input_count` coins on
  unfoldable pub try_from : List TreasuryUtxo → List PayoutRecipient → ℕ → ℕ → Option PlannedBatch
  unfolding greedy_recipients_for_inputs close_batch
  try_from utxos recipients zero input_count = none
  try_from utxos recipients (suc rounds) input_count =
      let wider = try_from utxos recipients rounds (suc input_count) in
      elim (greedy_recipients_for_inputs (take input_count utxos) recipients) [
        | none ↦ none
        | some selected ↦ or_widen (close_batch (take input_count utxos) selected) wider
      ]

  unfoldable pub build_one_batch : List TreasuryUtxo → List PayoutRecipient → Option PlannedBatch
  unfolding try_from
  build_one_batch utxos recipients = try_from utxos recipients (length utxos) 1

  unfoldable pub reinject_change : ℕ → ℕ → List TreasuryUtxo → List TreasuryUtxo
  unfolding planning_change_utxo sort_utxos_desc
  reinject_change batch_index change utxos =
      if ltb 0 change && ltb batch_index (2 ^ 32)
      then sort_utxos_desc (utxos ++ planning_change_utxo batch_index change change_script ∷ [])
      else utxos

  -- the loop's body for a planned batch
  unfoldable pub after_batch : Planning → PlannedBatch → Planning
  unfolding remove_consumed remove_paid reinject_change
  after_batch s batch = record {
    utxos =
        reinject_change (length s.batches) batch.change_amount_sompi
          (remove_consumed s.utxos batch.inputs);
    payable = remove_paid s.payable batch.payouts;
    batches = s.batches ++ batch ∷ [];
  }

  unfoldable pub plan_step : Planning → Option Planning
  unfolding build_one_batch after_batch
  plan_step s =
      if is_empty s.payable || is_empty s.utxos
      then none
      else elim (build_one_batch s.utxos s.payable) [
        | none ↦ none
        | some batch ↦ some (after_batch s batch)
      ]

  unfoldable pub plan_start : List TreasuryUtxo → List PayoutRecipient → Planning
  unfolding partition_by_floor sort_utxos_desc sort_recipients_desc
  plan_start utxos recipients = record {
    utxos = sort_utxos_desc utxos;
    payable = sort_recipients_desc (partition_by_floor recipients).0;
    batches = [];
  }

  unfoldable pub plan_loop : Planning → Planning
  unfolding iterate plan_step
  plan_loop s = iterate (length s.payable) plan_step s

  unfoldable pub plan_batches : List TreasuryUtxo → List PayoutRecipient → PlanBatchesResult
  unfolding plan_start plan_loop
  plan_batches utxos recipients =
      let final = plan_loop (plan_start utxos recipients) in
      record {
        batches = final.batches;
        deferred_below_floor = (partition_by_floor recipients).1;
        unpaid = final.payable;
      }
