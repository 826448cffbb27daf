-- ===== src/Mass/Consolidation/Batches.antt =====
-- What the consolidation planner hands out (`plan_consolidation` of
-- crates/katpool-storagemass/src/consolidation.rs).
use katpool.Base.{
  ℕ, zero, suc, ◌+◌, ◌≤◌, ◌<◌, ◌≡◌, refl, ap, length-append, inl, inr, true, not, ◌&&◌, ◌||◌, ltb,
  leb, ◌==◌, List, [], ◌∷◌, ◌++◌, length, take, drop, retain, ◌⊎◌, sum_by, sum_by-append, All,
  All-map, All-append, arith, Option-cases, Bool-cases,
}
use katpool.Base.Bag.{sort_by-SameItems}
use katpool.Base.Float.{Float}
use katpool.Mass.Types.{
  TreasuryUtxo, PlannedBatch, is_planning_virtual, fits_independently, input_sum,
}
use katpool.Mass.Fee.{FeeRate, reserves_fee, fee_for}
use katpool.Mass.Evaluator.{
  Consensus, evaluate_self_send, evaluate_self_send-fits, max_standard_tx_mass,
}
use katpool.Mass.Consolidation.{
  min_consolidation_inputs, sort_utxos_asc, chunks, max_inputs_that_fit, merge_chunk, merge_chunks,
  plan_consolidation,
}
use katpool.Mass.Consolidation.Search.{max_inputs_that_fit-IsCeiling}

le_trans : {a b c : ℕ} → a ≤ b → b ≤ c → a ≤ c
le_trans h k = omega arith

-- The coins that the batches spend.
abbrev pub all_inputs : List PlannedBatch → List TreasuryUtxo
all_inputs [] = []
all_inputs (b ∷ bs) = b.inputs ++ all_inputs bs

all_inputs-append :
    (f : TreasuryUtxo → ℕ) (bs cs : List PlannedBatch)
    → sum_by f (all_inputs (bs ++ cs)) ≡ sum_by f (all_inputs bs) + sum_by f (all_inputs cs)
all_inputs-append f [] cs = omega arith
all_inputs-append f (b ∷ bs) cs =
    let e = all_inputs-append f bs cs in
    let a = sum_by-append f b.inputs (all_inputs (bs ++ cs)) in
    let c = sum_by-append f b.inputs (all_inputs bs) in omega arith

module _ {ℓ} {A : Type ℓ} where
  length-take-le : (n : ℕ) (xs : List A) → length (take n xs) ≤ n
  length-take-le zero xs = omega arith
  length-take-le (suc n) [] = omega arith
  length-take-le (suc n) (x ∷ xs) = omega (arith, length-take-le n xs)

  chunks-All : (fuel cap : ℕ) (xs : List A) → All (λ c. length c ≤ cap) (chunks fuel cap xs)
  unfolding chunks
  chunks-All zero cap xs = tt
  chunks-All (suc fuel) cap [] = tt
  chunks-All (suc fuel) cap (x ∷ xs) =
      (length-take-le cap (x ∷ xs), chunks-All fuel cap (drop cap (x ∷ xs)))

  abbrev all_of : List (List A) → (A → ℕ) → ℕ
  all_of cs f = sum_by (sum_by f) cs

  sum_by-take-drop :
      (f : A → ℕ) (n : ℕ) (xs : List A) → sum_by f (take n xs) + sum_by f (drop n xs) ≡ sum_by f xs
  sum_by-take-drop f zero xs = omega arith
  sum_by-take-drop f (suc n) [] = omega arith
  sum_by-take-drop f (suc n) (x ∷ xs) = omega (arith, sum_by-take-drop f n xs)

  chunks-sum :
      (f : A → ℕ) (fuel cap : ℕ) (xs : List A) → all_of (chunks fuel cap xs) f ≤ sum_by f xs
  unfolding chunks
  chunks-sum f zero cap xs = omega arith
  chunks-sum f (suc fuel) cap [] = omega arith
  chunks-sum f (suc fuel) cap (x ∷ xs) =
      let k = chunks-sum f fuel cap (drop cap (x ∷ xs)) in
      let a = sum_by-take-drop f cap (x ∷ xs) in omega arith

module _ (fl : Float) (consensus : Consensus) (script : ℕ) (rate : FeeRate fl) where
  -- A consolidation of at most `cap` coins: a self-send of at least two coins that the mempool relays,
  -- whose one output is their sum and outlives the network fee.
  pub record IsMerge (cap : ℕ) (b : PlannedBatch) : Type 0 where
    pub size : min_consolidation_inputs ≤ length b.inputs
    pub capped : length b.inputs ≤ cap
    pub no_payouts : b.payouts ≡ []
    pub whole : b.change_amount_sompi ≡ input_sum b.inputs
    pub relayed : fits_independently b.mass max_standard_tx_mass ≡ true
    pub outlives : reserves_fee fl rate ≡ true → fee_for fl rate b.mass < b.change_amount_sompi

  merge_chunk-cases :
      (cap : ℕ) (chunk : List TreasuryUtxo) (batches : List PlannedBatch)
      → min_consolidation_inputs ≤ length chunk
      → length chunk ≤ cap
      → (merge_chunk fl consensus script rate chunk batches ≡ batches)
        ⊎ ((b : PlannedBatch) × IsMerge cap b
            × (b.inputs ≡ chunk)
            × (merge_chunk fl consensus script rate chunk batches ≡ batches ++ b ∷ []))
  unfolding merge_chunk
  merge_chunk-cases cap chunk batches two le =
      elim (Option-cases (evaluate_self_send consensus chunk script (input_sum chunk))) [
        | inl e ↦ rw (e, merge_chunk) (inl refl)
        | inr (m, e) ↦
            elim (Bool-cases (reserves_fee fl rate && leb (input_sum chunk) (fee_for fl rate m))) [
              | inl eaten ↦ rw (e, eaten, merge_chunk) (inl refl)
              | inr kept ↦
                  rw (e, kept, merge_chunk)
                    (inr (
                      _,
                      record {
                        size = two;
                        capped = le;
                        no_payouts = refl;
                        whole = refl;
                        relayed = evaluate_self_send-fits consensus chunk script _ e;
                        outlives = ground arith;
                      },
                      refl,
                      refl,
                    ))
            ]
      ]

  -- The batches so far, and the chunks still to merge.
  record Merged (cap max_txs : ℕ) (room : (TreasuryUtxo → ℕ) → ℕ) (bs : List PlannedBatch)
      : Type 0 where
    merges : All (IsMerge cap) bs
    few : length bs ≤ max_txs
    once : (f : TreasuryUtxo → ℕ) → sum_by f (all_inputs bs) ≤ room f

  merge_chunk-Merged :
      (cap max_txs : ℕ) (room : (TreasuryUtxo → ℕ) → ℕ) (chunk : List TreasuryUtxo)
      (bs : List PlannedBatch)
      → min_consolidation_inputs ≤ length chunk
      → length chunk ≤ cap
      → length bs < max_txs
      → Merged cap max_txs room bs
      → Merged cap max_txs
          (λ f. room f + sum_by f chunk)
          (merge_chunk fl consensus script rate chunk bs)
  merge_chunk-Merged cap max_txs room chunk bs two le lt h =
      elim (merge_chunk-cases cap chunk bs two le) [
        | inl e ↦
            rw (e) record { merges = h.merges; few = h.few; once = λ f. omega (arith, h.once f) }
        | inr (b, m, i, e) ↦ rw (e) record {
          merges = All-append (IsMerge cap) bs (b ∷ []) h.merges (m, tt);
          few = let k = length-append bs (b ∷ []) in omega arith;
          once = λ f.
              let k = all_inputs-append f bs (b ∷ []) in
              let j = sum_by-append f b.inputs [] in
              let g = ap (sum_by f) i in omega (arith, h.once f);
        }
      ]

  merge_chunks-Merged :
      (cap max_txs : ℕ) (room : (TreasuryUtxo → ℕ) → ℕ) (cs : List (List TreasuryUtxo))
      (bs : List PlannedBatch)
      → All (λ c. length c ≤ cap) cs
      → Merged cap max_txs room bs
      → Merged cap max_txs
          (λ f. room f + all_of cs f)
          (merge_chunks fl consensus script rate max_txs cs bs)
  unfolding merge_chunks
  merge_chunks-Merged cap max_txs room [] bs k h = record {
    merges = h.merges;
    few = h.few;
    once = λ f. omega (arith, h.once f);
  }
  merge_chunks-Merged cap max_txs room (c ∷ cs) bs k h =
      let stop : Merged cap max_txs (λ f. room f + all_of (c ∷ cs) f) bs = record {
        merges = h.merges;
        few = h.few;
        once = λ f. omega (arith, h.once f);
      } in
      elim (Bool-cases (leb max_txs (length bs))) [
        | inl full ↦ rw (full, merge_chunks) stop
        | inr more ↦ elim (Bool-cases (ltb (length c) min_consolidation_inputs)) [
          | inl small ↦ rw (more, small, merge_chunks) stop
          | inr two ↦
              let r =
                merge_chunks-Merged cap max_txs (λ f. room f + sum_by f c) cs
                  (merge_chunk fl consensus script rate c bs) k.1
                  (merge_chunk-Merged cap max_txs room c bs (ground arith) k.0 (ground arith) h) in
              rw (more, two, merge_chunks)
                record { merges = r.merges; few = r.few; once = λ f. omega (arith, r.once f) }
        ]
      ]

  abbrev real_coins : List TreasuryUtxo → List TreasuryUtxo
  real_coins = retain (λ u. not (is_planning_virtual u))

  nothing-Merged : (cap max_txs : ℕ) (room : (TreasuryUtxo → ℕ) → ℕ) → Merged cap max_txs room []
  nothing-Merged cap max_txs room = record {
    merges = tt;
    few = omega arith;
    once = λ f. omega arith;
  }

  ceiling-within :
      (utxos : List TreasuryUtxo) (max_inputs : ℕ)
      → max_inputs_that_fit consensus script utxos max_inputs ≤ max_inputs
  ceiling-within utxos max_inputs =
      elim (max_inputs_that_fit-IsCeiling consensus script utxos max_inputs) [
        | inl e ↦ omega arith
        | inr c ↦ omega (arith, c.within)
      ]

  all_chunks-Merged :
      (utxos : List TreasuryUtxo) (max_inputs max_txs : ℕ)
      → let sorted = sort_utxos_asc (real_coins utxos) in
        let cap = max_inputs_that_fit consensus script sorted max_inputs in
        Merged max_inputs max_txs
          (λ f. sum_by f (real_coins utxos))
          (merge_chunks fl consensus script rate max_txs (chunks (length sorted) cap sorted) [])
  unfolding sort_utxos_asc
  all_chunks-Merged utxos max_inputs max_txs =
      let sorted = sort_utxos_asc (real_coins utxos) in
      let cap = max_inputs_that_fit consensus script sorted max_inputs in
      let le = ceiling-within sorted max_inputs in
      let short =
        All-map (λ c k. le_trans k le) (chunks (length sorted) cap sorted)
          (chunks-All (length sorted) cap sorted) in
      let r =
        merge_chunks-Merged max_inputs max_txs (λ f. 0) (chunks (length sorted) cap sorted) [] short
          (nothing-Merged max_inputs max_txs (λ f. 0)) in
      record {
        merges = r.merges;
        few = r.few;
        once = λ f.
            let a = chunks-sum f (length sorted) cap sorted in
            let e =
              sort_by-SameItems (λ a b. leb a.entry.amount b.entry.amount) (real_coins utxos) f in
            omega (arith, r.once f);
      }

  plan_consolidation-Merged :
      (utxos : List TreasuryUtxo) (max_inputs max_txs : ℕ)
      → Merged max_inputs max_txs
          (λ f. sum_by f (real_coins utxos))
          (plan_consolidation fl consensus script rate utxos max_inputs max_txs)
  unfolding plan_consolidation
  plan_consolidation-Merged utxos max_inputs max_txs =
      let two = min_consolidation_inputs in
      let nothing = nothing-Merged max_inputs max_txs (λ f. sum_by f (real_coins utxos)) in
      elim (Bool-cases
        (max_txs == 0 || ltb max_inputs two || ltb (length (real_coins utxos)) two)) [
          | inl e ↦ rw (e, plan_consolidation) nothing
          | inr e ↦
              elim (Bool-cases (
                ltb
                  (max_inputs_that_fit consensus script (sort_utxos_asc (real_coins utxos))
                    max_inputs)
                  two)) [
                    | inl e' ↦ rw (e, e', plan_consolidation) nothing
                    | inr e' ↦
                        rw (e, e', plan_consolidation) (all_chunks-Merged utxos max_inputs max_txs)
                  ]
        ]

  -- A plan has at most `max_txs` transactions. Each merges between two coins and the cap into one
  -- coin of their sum, is light enough for the mempool, pays no one else, and under a fee policy
  -- carries more than its fee.
  pub plan_consolidation-IsMerge :
      (utxos : List TreasuryUtxo) (max_inputs max_txs : ℕ)
      → let plan = plan_consolidation fl consensus script rate utxos max_inputs max_txs in
        All (IsMerge max_inputs) plan × (length plan ≤ max_txs)
  plan_consolidation-IsMerge utxos max_inputs max_txs =
      let m = plan_consolidation-Merged utxos max_inputs max_txs in (m.merges, m.few)

  -- No coin is merged twice and no planning-virtual coin at all: whatever is counted, the plan's
  -- inputs have it no more often than the coins that are not virtual.
  pub plan_consolidation-spends-once :
      (utxos : List TreasuryUtxo) (max_inputs max_txs : ℕ) (f : TreasuryUtxo → ℕ)
      → sum_by f (all_inputs (plan_consolidation fl consensus script rate utxos max_inputs max_txs))
        ≤ sum_by f (retain (λ u. not (is_planning_virtual u)) utxos)
  plan_consolidation-spends-once utxos max_inputs max_txs =
      (plan_consolidation-Merged utxos max_inputs max_txs).once
