-- ===== src/Mass/Planner/Invariant.antt =====
-- What the planner's loop keeps (crates/katpool-storagemass/src/planner.rs): the coins left and the
-- payouts planned never exceed the treasury, and every planned batch is sound.
use katpool.Base.{
  ℕ, suc, ◌+◌, ◌≤◌, ◌<◌, ◌≡◌, subst, inl, inr, List, [], ◌∷◌, ◌++◌, arith, is_empty, take, none,
  some, Option-cases, Bool-cases, leb, ltb, length, length-pos, length-sum_by, sum_by,
  sum_by-append, All, All-append, ◌||◌, ◌&&◌, ◌^◌,
}
use katpool.Base.Float.{Float}
use katpool.Base.Bag.{sort_by-SameItems}
use katpool.Base.Loop.{iterate_inv, iterate_exits}
use katpool.Base.Picked.{Picked}
use katpool.Base.Word.{u64_max}
use katpool.Mass.Types.{TreasuryUtxo, PayoutRecipient, PlannedBatch, input_sum, payout_sum}
use katpool.Mass.Fee.{FeeRate}
use katpool.Mass.Evaluator.{Consensus}
use katpool.Mass.Planner.{
  planning_change_utxo, sort_utxos_desc, remove_consumed, remove_paid, build_one_batch, Planning,
  reinject_change, after_batch, plan_step, plan_start, plan_loop, plan_batches,
}
use katpool.Mass.Planner.Batch.{IsSound, Funds, build_one_batch-Funds}
use katpool.Mass.Planner.Removal.{remove_consumed-sum, remove_paid-sum}

-- Everything that the batches pay out.
abbrev pub total_paid : List PlannedBatch → ℕ
total_paid = sum_by (λ b. payout_sum b.payouts)

module _ (fl : Float) (consensus : Consensus) (script : ℕ) (rate : FeeRate fl) where
  reinject_change-sum :
      (i change : ℕ) (utxos : List TreasuryUtxo)
      → input_sum (reinject_change fl consensus script rate i change utxos)
        ≤ input_sum utxos + change
  unfolding reinject_change sort_utxos_desc planning_change_utxo
  reinject_change-sum i change utxos =
      let more = utxos ++ planning_change_utxo i change script ∷ [] in
      let e =
        sort_by-SameItems (λ a b. leb b.entry.amount a.entry.amount) more (λ u. u.entry.amount) in
      let k =
        sum_by-append (λ u. u.entry.amount) utxos (planning_change_utxo i change script ∷ []) in
      elim (Bool-cases (ltb 0 change && ltb i (2 ^ 32))) [
        | inl b ↦ rw (b, reinject_change) (omega arith)
        | inr b ↦ rw (b, reinject_change) (omega arith)
      ]

  -- The batch that a round plans.
  abbrev pub Round : Planning → Planning → Type 0
  Round s t =
      (b : PlannedBatch) × IsSound fl consensus script rate b
      × Picked b.payouts s.payable
      × ((n : ℕ) × (b.inputs ≡ take (suc n) s.utxos))
      × (t ≡ after_batch fl consensus script rate s b)

  pub plan_step-Round :
      (s : Planning) {t : Planning}
      → input_sum s.utxos < u64_max
      → plan_step fl consensus script rate s ≡ some t
      → Round s t
  unfolding plan_step
  plan_step-Round s {t} small h = elim (Bool-cases (is_empty s.payable || is_empty s.utxos)) [
    | inl e ↦ absurd (ground (arith, h))
    | inr e ↦ elim (Option-cases (build_one_batch fl consensus script rate s.utxos s.payable)) [
      | inl e' ↦ absurd (ground (arith, h))
      | inr (b, e') ↦
          let (sound, k, n, i) =
            subst (Funds fl consensus script rate s.utxos s.payable) e'
              (build_one_batch-Funds fl consensus script rate s.utxos s.payable small) in
          (b, sound, k, (n, i), ground (arith, h))
    ]
  ]

  -- The funds that the loop starts with are never exceeded.
  pub record Kept (treasury : ℕ) (s : Planning) : Type 0 where
    pub funds : total_paid s.batches + input_sum s.utxos ≤ treasury
    pub sound : All (IsSound fl consensus script rate) s.batches

  Round-funds :
      (s t : Planning)
      → Round s t
      → total_paid t.batches + input_sum t.utxos ≤ total_paid s.batches + input_sum s.utxos
  unfolding after_batch
  Round-funds s t (b, sound, k, (n, i), e) =
      let paid = sum_by-append (λ b. payout_sum b.payouts) s.batches (b ∷ []) in
      let back =
        reinject_change-sum (length s.batches) b.change_amount_sompi
          (remove_consumed s.utxos b.inputs) in
      let gone : input_sum (remove_consumed s.utxos b.inputs) + input_sum b.inputs
          ≤ input_sum s.utxos =
        rw (i) (remove_consumed-sum (λ u. u.entry.amount) (suc n) s.utxos) in
      let covers = sound.covers in rw (e) (omega arith)

  pub plan_step-Kept :
      (treasury : ℕ)
      → treasury < u64_max
      → (s t : Planning) → Kept treasury s
      → plan_step fl consensus script rate s ≡ some t
      → Kept treasury t
  unfolding after_batch
  plan_step-Kept treasury small s t h e =
      let r = plan_step-Round s (omega (arith, h.funds)) e in
      let f = Round-funds s t r in
      record {
        funds = omega (arith, h.funds);
        sound =
            rw (r.4) (
              All-append (IsSound fl consensus script rate) s.batches (r.0 ∷ []) h.sound (r.1, tt));
      }

  -- Each round pays off a payable recipient.
  Round-shrinks : (s t : Planning) → Round s t → length t.payable < length s.payable
  unfolding after_batch
  Round-shrinks s t (b, sound, k, i, e) =
      let gone = remove_paid-sum (λ _. 1) k in
      let some_paid = length-pos b.payouts sound.pays in
      let a = length-sum_by s.payable in
      let c = length-sum_by (remove_paid s.payable b.payouts) in
      let d = length-sum_by b.payouts in rw (e) (omega arith)

  plan_step-shrinks :
      (treasury : ℕ)
      → treasury < u64_max
      → (s t : Planning) → Kept treasury s
      → plan_step fl consensus script rate s ≡ some t
      → Kept treasury t × (length t.payable < length s.payable)
  plan_step-shrinks treasury small s t h e = (
    plan_step-Kept treasury small s t h e,
    Round-shrinks s t (plan_step-Round s (omega (arith, h.funds)) e),
  )

  pub plan_start-Kept :
      (utxos : List TreasuryUtxo) (recipients : List PayoutRecipient)
      → Kept (input_sum utxos) (plan_start fl consensus script rate utxos recipients)
  unfolding plan_start sort_utxos_desc
  plan_start-Kept utxos recipients =
      let e =
        sort_by-SameItems (λ a b. leb b.entry.amount a.entry.amount) utxos (λ u. u.entry.amount) in
      record { funds = omega arith; sound = tt }

  plan_loop-Kept :
      (treasury : ℕ)
      → treasury < u64_max
      → (s : Planning) → Kept treasury s
      → Kept treasury (plan_loop fl consensus script rate s)
  unfolding plan_loop
  plan_loop-Kept treasury small s h =
      iterate_inv (plan_step fl consensus script rate) (Kept treasury)
        (plan_step-Kept treasury small) (length s.payable) s h

  module _ (utxos : List TreasuryUtxo) (recipients : List PayoutRecipient)
      (small : input_sum utxos < u64_max) where
    -- For a treasury below the u64 limit, each planned batch is sound: it pays somebody, fits the
    -- block's limit in each of the three masses, and its coins cover its payouts, its change and the
    -- network fee that its measured shape calls for; without a fee policy they are exactly spent, and
    -- under one no change output that is kept is dust.
    pub plan_batches-IsSound :
        All
          (IsSound fl consensus script rate)
          (plan_batches fl consensus script rate utxos recipients).batches
    unfolding plan_batches
    plan_batches-IsSound =
        (plan_loop-Kept (input_sum utxos) small _ (plan_start-Kept utxos recipients)).sound

    -- For a treasury below the u64 limit, the batches together pay out no more than the treasury
    -- holds, although the change of one batch is an input of the next.
    pub plan_batches-within-treasury :
        total_paid (plan_batches fl consensus script rate utxos recipients).batches
        ≤ input_sum utxos
    unfolding plan_batches
    plan_batches-within-treasury =
        let k =
          (plan_loop-Kept (input_sum utxos) small _ (plan_start-Kept utxos recipients)).funds in
        omega arith

    -- For a treasury below the u64 limit, as many rounds as there are payable recipients are enough:
    -- where the loop's fuel ends, its next step would exit.
    pub plan_loop-stops :
        plan_step fl consensus script rate (
          plan_loop fl consensus script rate (plan_start fl consensus script rate utxos recipients))
        ≡ none
    unfolding plan_loop
    plan_loop-stops =
        iterate_exits (plan_step fl consensus script rate) (Kept (input_sum utxos))
          (λ s. length s.payable) (plan_step-shrinks (input_sum utxos) small) _ _ (omega arith)
          (plan_start-Kept utxos recipients)
