-- ===== src/Mass/Evaluator.antt =====
-- The transaction that a shape stands for (tx_build.rs) and the evaluation of its masses
-- (evaluator.rs). The masses themselves are kaspa_consensus_core's: a parameter.
use katpool.Base.{
  ℕ, true, if◌then◌else◌, ltb, ◌==◌, ◌≡◌, List, [], ◌∷◌, ◌++◌, map, length, Option, none, arith,
  some, Result, ok, err, ◌>>=◌, ok_or,
}
use katpool.Mass.Types.{
  Outpoint, UtxoEntry, TreasuryUtxo, PayoutRecipient, TxMass, fits_independently,
}

pub record TxInput : Type 0 where
  pub previous_outpoint : Outpoint
  pub signature_script_len : ℕ
  pub sig_op_count : ℕ

pub record TxOutput : Type 0 where
  pub value : ℕ
  pub output_script : ℕ

pub record Transaction : Type 0 where
  pub tx_inputs : List TxInput
  pub tx_outputs : List TxOutput

-- kaspa's mass calculator and output size, and the block mass limit of its mainnet parameters.
pub record Consensus : Type 0 where
  pub compute_mass_of : Transaction → ℕ
  pub transient_mass_of : Transaction → ℕ
  pub storage_mass_of : Transaction → List UtxoEntry → Option ℕ
  pub output_size : ℕ → ℕ → ℕ
  pub block_mass_limit : ℕ

abbrev pub max_standard_tx_mass : ℕ
max_standard_tx_mass = 100_000

abbrev pub min_payout_output_sompi : ℕ
min_payout_output_sompi = 1_900_000

abbrev pub signed_p2pk_sig_script_len : ℕ
signed_p2pk_sig_script_len = 66

unfoldable pub build_populated :
    List TreasuryUtxo → List PayoutRecipient → ℕ → ℕ → Transaction × List UtxoEntry
build_populated inputs payouts change_script change_amount =
    let paid : List TxOutput =
      map (λ p. record { value = p.amount_sompi; output_script = p.script_public_key }) payouts in
    let change : List TxOutput =
      record { value = change_amount; output_script = change_script } ∷ [] in
    (
      record {
        tx_inputs =
            map
              (λ u. record {
                previous_outpoint = u.outpoint;
                signature_script_len = signed_p2pk_sig_script_len;
                sig_op_count = 1;
              })
              inputs;
        tx_outputs = if ltb 0 change_amount then paid ++ change else paid;
      },
      map (λ u. u.entry) inputs,
    )

pub data MassEvaluationError : Type 0 where
  input_count_mismatch : ℕ → ℕ → MassEvaluationError
  storage_mass_incomputable : MassEvaluationError

module _ (consensus : Consensus) where
  open consensus use {compute_mass_of, transient_mass_of, storage_mass_of, block_mass_limit}

  unfoldable pub evaluate_populated :
      Transaction → List UtxoEntry → Result MassEvaluationError TxMass
  evaluate_populated tx entries =
      if length tx.tx_inputs == length entries
      then (do
        storage ← ok_or (storage_mass_of tx entries) storage_mass_incomputable
        ok (record {
          compute_mass = compute_mass_of tx;
          storage_mass = storage;
          transient_mass = transient_mass_of tx;
        }))
      else err (input_count_mismatch (length tx.tx_inputs) (length entries))

  -- `.ok()?` and then the mass if it fits the limit
  abbrev pub fitting : ℕ → Result MassEvaluationError TxMass → Option TxMass
  fitting limit (err e) = none
  fitting limit (ok m) = if fits_independently m limit then some m else none

  -- the planner's, against the block limit
  unfoldable pub evaluate_shape : List TreasuryUtxo → List PayoutRecipient → ℕ → ℕ → Option TxMass
  unfolding build_populated evaluate_populated
  evaluate_shape inputs payouts change_script change_amount =
      let (tx, entries) = build_populated inputs payouts change_script change_amount in
      fitting block_mass_limit (evaluate_populated tx entries)

  -- consolidation's, against the mempool's limit
  unfoldable pub evaluate_self_send : List TreasuryUtxo → ℕ → ℕ → Option TxMass
  unfolding build_populated evaluate_populated
  evaluate_self_send inputs treasury_script change_amount =
      let (tx, entries) = build_populated inputs [] treasury_script change_amount in
      fitting max_standard_tx_mass (evaluate_populated tx entries)

  fitting-fits :
      (limit : ℕ) (r : Result MassEvaluationError TxMass) {m : TxMass}
      → fitting limit r ≡ some m
      → fits_independently m limit ≡ true
  fitting-fits limit (err e) h = cc
  fitting-fits limit (ok m') h = ground arith

  pub evaluate_shape-fits :
      (inputs : List TreasuryUtxo) (payouts : List PayoutRecipient) (script change : ℕ) {m : TxMass}
      → evaluate_shape inputs payouts script change ≡ some m
      → fits_independently m block_mass_limit ≡ true
  unfolding evaluate_shape
  evaluate_shape-fits inputs payouts script change h =
      let (tx, entries) = build_populated inputs payouts script change in
      fitting-fits block_mass_limit (evaluate_populated tx entries) h

  pub evaluate_self_send-fits :
      (inputs : List TreasuryUtxo) (script change : ℕ) {m : TxMass}
      → evaluate_self_send inputs script change ≡ some m
      → fits_independently m max_standard_tx_mass ≡ true
  unfolding evaluate_self_send
  evaluate_self_send-fits inputs script change h =
      let (tx, entries) = build_populated inputs [] script change in
      fitting-fits max_standard_tx_mass (evaluate_populated tx entries) h
