-- ===== src/Mass/Consolidation.antt =====
-- The treasury consolidation planner (crates/katpool-storagemass/src/consolidation.rs). The binary
-- search runs on fuel, one round for each length in the first range; the chunks of a slice on fuel,
-- one round for each coin.
pub mod Search
pub mod Batches
use katpool.Base.{
  ℕ, zero, suc, ◌+◌, ◌-◌, ◌/◌, Bool, true, false, not, ◌&&◌, ◌||◌, if◌then◌else◌, ltb, leb, ◌==◌,
  List, [], ◌∷◌, ◌++◌, length, take, drop, retain, Option, none, some, min,
}
use katpool.Base.Bag.{sort_by}
use katpool.Base.Float.{Float}
use katpool.Mass.Types.{TreasuryUtxo, is_planning_virtual, TxMass, PlannedBatch, input_sum}
use katpool.Mass.Fee.{FeeRate, reserves_fee, fee_for}
use katpool.Mass.Evaluator.{Consensus, evaluate_self_send}

abbrev pub min_consolidation_inputs : ℕ
min_consolidation_inputs = 2

unfoldable pub sort_utxos_asc : List TreasuryUtxo → List TreasuryUtxo
sort_utxos_asc = sort_by (λ a b. leb a.entry.amount b.entry.amount)

-- `slice::chunks`
unfoldable pub chunks {ℓ} : {A : Type ℓ} → ℕ → ℕ → List A → List (List A)
chunks zero cap xs = []
chunks (suc fuel) cap [] = []
chunks (suc fuel) cap (x ∷ xs) = take cap (x ∷ xs) ∷ chunks fuel cap (drop cap (x ∷ xs))

module _ (consensus : Consensus) (treasury_script : ℕ) where
  unfoldable pub fits_prefix : List TreasuryUtxo → ℕ → Option TxMass
  fits_prefix utxos n =
      if leb n (length utxos)
      then evaluate_self_send consensus (take n utxos) treasury_script (input_sum (take n utxos))
      else none

  -- the `while lo < hi` loop
  unfoldable pub search_prefix : List TreasuryUtxo → ℕ → ℕ → ℕ → ℕ
  search_prefix utxos zero lo hi = lo
  search_prefix utxos (suc fuel) lo hi =
      let mid = lo + (hi - lo + 1) / 2 in
      elim (ltb lo hi) [
        | false ↦ lo
        | true ↦ elim (fits_prefix utxos mid) [
          | none ↦ search_prefix utxos fuel lo (mid - 1)
          | some mass ↦ search_prefix utxos fuel mid hi
        ]
      ]

  unfoldable pub max_inputs_that_fit : List TreasuryUtxo → ℕ → ℕ
  unfolding search_prefix
  max_inputs_that_fit utxos max_inputs_per_tx =
      let hi_bound = min max_inputs_per_tx (length utxos) in
      if hi_bound == 0 then 0 else elim (fits_prefix utxos 1) [
        | none ↦ 0
        | some mass ↦ search_prefix utxos hi_bound 1 hi_bound
      ]

module _ (fl : Float) (consensus : Consensus) (treasury_script : ℕ) (rate : FeeRate fl) where
  -- the body of the `for` loop once its two `break`s are passed
  unfoldable pub merge_chunk : List TreasuryUtxo → List PlannedBatch → List PlannedBatch
  merge_chunk chunk batches =
      elim (evaluate_self_send consensus chunk treasury_script (input_sum chunk)) [
        | none ↦ batches
        | some mass ↦
            if reserves_fee fl rate && leb (input_sum chunk) (fee_for fl rate mass)
            then batches
            else batches
              ++ record {
                inputs = chunk;
                payouts = [];
                change_amount_sompi = input_sum chunk;
                mass = mass;
              }
                ∷ []
      ]

  unfoldable pub merge_chunks : ℕ → List (List TreasuryUtxo) → List PlannedBatch → List PlannedBatch
  unfolding merge_chunk
  merge_chunks max_txs [] batches = batches
  merge_chunks max_txs (chunk ∷ rest) batches =
      let merged = merge_chunks max_txs rest (merge_chunk chunk batches) in
      if leb max_txs (length batches)
      then batches
      else if ltb (length chunk) min_consolidation_inputs
      then batches
      else merged

  unfoldable pub plan_consolidation : List TreasuryUtxo → ℕ → ℕ → List PlannedBatch
  unfolding merge_chunks chunks sort_utxos_asc max_inputs_that_fit is_planning_virtual
  plan_consolidation all_utxos max_inputs_per_tx max_txs =
      let utxos = retain (λ u. not (is_planning_virtual u)) all_utxos in
      let sorted = sort_utxos_asc utxos in
      let cap = max_inputs_that_fit consensus treasury_script sorted max_inputs_per_tx in
      if max_txs == 0
        || ltb max_inputs_per_tx min_consolidation_inputs
        || ltb (length utxos) min_consolidation_inputs
      then []
      else if ltb cap min_consolidation_inputs
      then []
      else merge_chunks max_txs (chunks (length sorted) cap sorted) []
