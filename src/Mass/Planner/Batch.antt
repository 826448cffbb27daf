-- ===== src/Mass/Planner/Batch.antt =====
-- What one batch of the planner is worth (crates/katpool-storagemass/src/planner.rs).
use mathlib.Core.List.{append-nil, append_assoc}
use katpool.Base.{
  ℕ, zero, suc, ◌+◌, ◌-◌, ◌*◌, max, if◌then◌else◌, ◌≤◌, ◌<◌, ◌≡◌, ◌≢◌, refl, sym, ◌∙◌, ◌⊎◌, inl,
  inr, true, false, List, [], ◌∷◌, ◌++◌, arith, is_empty, take, Option, none, some, Option-cases,
  Bool-cases, leb, ltb, length, sum_by-take, subst,
}
use katpool.Base.Float.{Float}
use katpool.Base.Picked.{Picked, none_left, take_it, pass_it, Picked-nil}
use katpool.Base.Word.{u64_max, add_sat_u64}
use katpool.Mass.Types.{
  TreasuryUtxo, PayoutRecipient, PlannedBatch, TxMass, fits_independently, input_sum, payout_sum,
}
use katpool.Mass.Fee.{FeeRate, reserves_fee, is_change_dust}
use katpool.Mass.Evaluator.{Consensus, evaluate_shape, evaluate_shape-fits}
use katpool.Mass.Planner.{
  max_outputs_per_input, or_widen, with_change, drops_change, consider, grow, settle_change,
  greedy_recipients_for_inputs, close_batch, try_from, build_one_batch, reserved_fee,
}

module _ (fl : Float) (consensus : Consensus) (script : ℕ) (rate : FeeRate fl) where
  -- A batch is sound: it pays somebody, each of its masses fits a block, the inputs cover the payouts,
  -- the change and at least the fee that its pre-fee shape calls for, nothing is withheld when no fee
  -- is reserved, and a change output that is kept under a live fee policy is no dust.
  pub record IsSound (b : PlannedBatch) : Type 0 where
    pub gross_mass : TxMass
    pub measured :
        evaluate_shape consensus b.inputs b.payouts script
          (input_sum b.inputs - payout_sum b.payouts)
        ≡ some gross_mass
    pub pays : is_empty b.payouts ≡ false
    pub fits : fits_independently b.mass consensus.block_mass_limit ≡ true
    pub covers :
        payout_sum b.payouts
          + b.change_amount_sompi
          + reserved_fee fl consensus script rate gross_mass
        ≤ input_sum b.inputs
    pub exact :
        reserves_fee fl rate ≡ false
        → payout_sum b.payouts + b.change_amount_sompi ≡ input_sum b.inputs
    pub no_dust :
        reserves_fee fl rate ≡ true
        → b.change_amount_sompi ≢ 0
        → is_change_dust consensus.output_size b.change_amount_sompi script ≡ false

  -- What is returned for a funding set and its selected recipients.
  abbrev pub Closes : List TreasuryUtxo → List PayoutRecipient → Option PlannedBatch → Type 0
  Closes inputs selected none = Unit
  Closes inputs selected (some b) = IsSound b × (b.inputs ≡ inputs) × (b.payouts ≡ selected)

  module _ (inputs : List TreasuryUtxo) (selected : List PayoutRecipient) where
    abbrev gross_shape : Option TxMass
    gross_shape =
        evaluate_shape consensus inputs selected script (input_sum inputs - payout_sum selected)

    -- A change of nothing, or one that is kept.
    settled :
        (g m : TxMass) (change : ℕ)
        → gross_shape ≡ some g
        → is_empty selected ≡ false
        → fits_independently m consensus.block_mass_limit ≡ true
        → payout_sum selected + change + reserved_fee fl consensus script rate g ≤ input_sum inputs
        → (reserves_fee fl rate ≡ false → payout_sum selected + change ≡ input_sum inputs)
        → (reserves_fee fl rate ≡ true
            → change ≢ 0
            → is_change_dust consensus.output_size change script ≡ false)
        → Closes inputs selected (with_change fl consensus script rate inputs selected change m)
    settled g m change e paid fits covers exact no_dust = (
      record {
        gross_mass = g;
        measured = e;
        pays = paid;
        fits = fits;
        covers = covers;
        exact = exact;
        no_dust = no_dust;
      },
      refl,
      refl,
    )

    settle_change-Closes :
        (g : TxMass)
        → input_sum inputs < u64_max
        → is_empty selected ≡ false
        → payout_sum selected ≤ input_sum inputs
        → gross_shape ≡ some g
        → Closes inputs selected (settle_change fl consensus script rate inputs selected g)
    unfolding settle_change
    settle_change-Closes g small paid le e =
        let fee = reserved_fee fl consensus script rate g in
        let change = input_sum inputs - payout_sum selected - fee in
        elim (Bool-cases (ltb (input_sum inputs) (add_sat_u64 (payout_sum selected) fee))) [
          | inl short ↦ rw (short, settle_change) tt
          | inr enough ↦ elim (Bool-cases (drops_change fl consensus script rate change)) [
            | inl drops ↦ elim (Option-cases (evaluate_shape consensus inputs selected script 0)) [
              | inl e' ↦ rw (enough, drops, e', settle_change) tt
              | inr (m, e') ↦
                  rw (enough, drops, e', settle_change)
                    (settled g m 0 e paid
                      (evaluate_shape-fits consensus inputs selected script 0 e') (ground arith)
                      (ground arith) (λ _ k. absurd (k refl)))
            ]
            | inr keeps ↦
                rw (enough, keeps, settle_change)
                  (settled g g change e paid
                    (evaluate_shape-fits consensus inputs selected script _ e) (ground arith)
                    (ground arith) (ground arith))
          ]
        ]

    pub close_batch-Closes :
        input_sum inputs < u64_max
        → Closes inputs selected (close_batch fl consensus script rate inputs selected)
    unfolding close_batch
    close_batch-Closes small = elim (Bool-cases (is_empty selected)) [
      | inl nobody ↦ rw (nobody, close_batch) tt
      | inr paid ↦ elim (Bool-cases (ltb (input_sum inputs) (payout_sum selected))) [
        | inl short ↦ rw (paid, short, close_batch) tt
        | inr enough ↦ elim (Option-cases gross_shape) [
          | inl e ↦ rw (paid, enough, e, close_batch) tt
          | inr (g, e) ↦
              rw (paid, enough, e, close_batch) (settle_change-Closes g small paid (ground arith) e)
        ]
      ]
    ]

  consider-cases :
      (inputs : List TreasuryUtxo) (rec : PayoutRecipient) (selected : List PayoutRecipient)
      → (consider fl consensus script rate inputs rec selected ≡ selected)
        ⊎ (consider fl consensus script rate inputs rec selected ≡ selected ++ rec ∷ [])
  unfolding consider
  consider-cases inputs rec selected = ground arith

  grow-Picked :
      (inputs : List TreasuryUtxo) (max_outputs : ℕ) (rest selected : List PayoutRecipient)
      → (ps : List PayoutRecipient) × Picked ps rest
        × (grow fl consensus script rate inputs max_outputs rest selected ≡ selected ++ ps)
  unfolding grow
  grow-Picked inputs m [] selected = ([], none_left, sym (append-nil selected))
  grow-Picked inputs m (rec ∷ rest) selected = elim (Bool-cases (leb m (length selected))) [
    | inl full ↦ ([], Picked-nil (rec ∷ rest), rw (full, grow) (sym (append-nil selected)))
    | inr room ↦ elim (consider-cases inputs rec selected) [
      | inl passed ↦
          let (ps, k, e) = grow-Picked inputs m rest selected in
          (ps, pass_it k, rw (room, passed, grow) e)
      | inr taken ↦
          let (ps, k, e) = grow-Picked inputs m rest (selected ++ rec ∷ []) in
          (rec ∷ ps, take_it k, rw (room, taken, grow) (e ∙ append_assoc selected (rec ∷ []) ps))
    ]
  ]

  selected-eq :
      (xs : List PayoutRecipient) {ps : List PayoutRecipient}
      → (if is_empty xs then none else some xs) ≡ some ps
      → ps ≡ xs
  selected-eq [] h = ground arith
  selected-eq (x ∷ xs) h = ground arith

  greedy-Picked :
      (inputs : List TreasuryUtxo) (recipients : List PayoutRecipient) {ps : List PayoutRecipient}
      → greedy_recipients_for_inputs fl consensus script rate inputs recipients ≡ some ps
      → Picked ps recipients
  unfolding greedy_recipients_for_inputs
  greedy-Picked inputs recipients {ps} h =
      let n = max (length inputs * max_outputs_per_input) 1 in
      let (qs, k, e) = grow-Picked inputs n recipients [] in
      subst (λ xs. Picked xs recipients) (sym (selected-eq _ h ∙ e)) k

  -- What a funding set of the first coins gives.
  abbrev pub Funds : List TreasuryUtxo → List PayoutRecipient → Option PlannedBatch → Type 0
  Funds utxos recipients none = Unit
  Funds utxos recipients (some b) =
      IsSound b × Picked b.payouts recipients × (n : ℕ) × (b.inputs ≡ take (suc n) utxos)

  Closes-Funds :
      (utxos : List TreasuryUtxo) (recipients selected : List PayoutRecipient) (n : ℕ)
      → Picked selected recipients
      → (r : Option PlannedBatch) → Closes (take (suc n) utxos) selected r
      → Funds utxos recipients r
  Closes-Funds utxos recipients selected n k none h = tt
  Closes-Funds utxos recipients selected n k (some b) (sound, i, p) =
      (sound, subst (λ xs. Picked xs recipients) (sym p) k, n, i)

  or_widen-Funds :
      (utxos : List TreasuryUtxo) (recipients : List PayoutRecipient)
      (r wider : Option PlannedBatch)
      → Funds utxos recipients r
      → Funds utxos recipients wider
      → Funds utxos recipients (or_widen fl consensus script rate r wider)
  or_widen-Funds utxos recipients none wider h k = k
  or_widen-Funds utxos recipients (some b) wider h k = h

  module _ (utxos : List TreasuryUtxo) (recipients : List PayoutRecipient)
      (small : input_sum utxos < u64_max) where
    try_from-Funds :
        (rounds n : ℕ)
        → Funds utxos recipients (try_from fl consensus script rate utxos recipients rounds (suc n))
    unfolding try_from
    try_from-Funds zero n = tt
    try_from-Funds (suc rounds) n =
        elim (Option-cases
          (greedy_recipients_for_inputs fl consensus script rate (take (suc n) utxos) recipients)) [
            | inl e ↦ rw (e, try_from) tt
            | inr (selected, e) ↦
                rw (e, try_from)
                  (or_widen-Funds utxos recipients _ _
                    (Closes-Funds utxos recipients selected n
                      (greedy-Picked (take (suc n) utxos) recipients e) _
                      (close_batch-Closes (take (suc n) utxos) selected
                        (omega (arith, sum_by-take (λ u. u.entry.amount) (suc n) utxos))))
                    (try_from-Funds rounds (suc n)))
          ]

    -- A planned batch is sound, pays recipients of the list in its order and spends the first coins.
    pub build_one_batch-Funds :
        Funds utxos recipients (build_one_batch fl consensus script rate utxos recipients)
    unfolding build_one_batch
    build_one_batch-Funds = try_from-Funds (length utxos) 0
