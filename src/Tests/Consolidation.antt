-- ===== src/Tests/Consolidation.antt =====
-- The consolidation planner on three coins.
use katpool.Base.{
  ◌↔◌, ℕ, suc, zero, ◌*◌, ◌≤◌, ◌≡◌, ◌⊎◌, refl, not, List, [], ◌∷◌, length, sum_by, retain, min, leb,
  false, none, some, All, arith,
}
use katpool.Base.Bag.{sort_by}
use katpool.Mass.Types.{TreasuryUtxo, is_planning_virtual, fits_independently, effective}
use katpool.Mass.Fee.{reserves_fee, from_feerate, fee_for}
use katpool.Mass.Evaluator.{Consensus, evaluate_self_send}
use katpool.Mass.Consolidation.{fits_prefix, max_inputs_that_fit, plan_consolidation}
use katpool.Mass.Consolidation.Search.{
  IsCeiling, NoneFit, Fits, max_inputs_that_fit-IsCeiling, max_inputs_that_fit-greatest,
}
use katpool.Mass.Consolidation.Batches.{
  IsMerge, all_inputs, plan_consolidation-IsMerge, plan_consolidation-spends-once,
}
use katpool.Tests.FixedPoint.{fixed_point}
use katpool.Tests.Payouts.{toy_consensus, coin, live_rate}

abbrev three_coins : List TreasuryUtxo
three_coins = coin 21 500_000_000 ∷ coin 22 400_000_000 ∷ coin 23 700_000_000 ∷ []

-- Every input weighs as much as a third of what the mempool relays.
abbrev heavy_consensus : Consensus
heavy_consensus = record {
  compute_mass_of = λ tx. length tx.tx_inputs * 40_000;
  transient_mass_of = λ tx. 0;
  storage_mass_of = λ tx entries. some 0;
  output_size = λ value script. 52;
  block_mass_limit = 500_000;
}

plan_consolidation-IsMerge_example :
    let plan = plan_consolidation fixed_point toy_consensus 7 live_rate three_coins 2 5 in
    All (IsMerge fixed_point toy_consensus 7 live_rate 2) plan × (length plan ≤ 5)
plan_consolidation-IsMerge_example =
    plan_consolidation-IsMerge fixed_point toy_consensus 7 live_rate three_coins 2 5

plan_consolidation-spends-once_example :
    sum_by
      (λ u. u.entry.amount)
      (all_inputs (plan_consolidation fixed_point toy_consensus 7 live_rate three_coins 2 5))
    ≤ sum_by (λ u. u.entry.amount) (retain (λ u. not (is_planning_virtual u)) three_coins)
plan_consolidation-spends-once_example =
    plan_consolidation-spends-once fixed_point toy_consensus 7 live_rate three_coins 2 5
      (λ u. u.entry.amount)

max_inputs_that_fit-IsCeiling_example :
    ((max_inputs_that_fit heavy_consensus 7 three_coins 9 ≡ 0)
      × NoneFit heavy_consensus 7 three_coins (min 9 (length three_coins)))
    ⊎ IsCeiling heavy_consensus 7 three_coins
        (min 9 (length three_coins))
        (max_inputs_that_fit heavy_consensus 7 three_coins 9)
max_inputs_that_fit-IsCeiling_example =
    max_inputs_that_fit-IsCeiling heavy_consensus 7 three_coins 9

too_long : (k : ℕ) → leb (suc (suc (suc (suc k)))) 3 ≡ false
too_long k = ground arith

abbrev Heavier : Type 0
Heavier =
    (k : ℕ)
    → fits_prefix heavy_consensus 7 three_coins k ≡ none
    → fits_prefix heavy_consensus 7 three_coins (suc k) ≡ none

heavier : Heavier
unfolding fits_prefix evaluate_self_send fits_independently
heavier zero h = cc
heavier (suc zero) h = cc
heavier (suc (suc zero)) h = refl
heavier (suc (suc (suc k))) h = rw (too_long k) refl

three_coins_ceiling : max_inputs_that_fit heavy_consensus 7 three_coins 9 ≡ 2
unfolding max_inputs_that_fit fits_prefix evaluate_self_send fits_independently
three_coins_ceiling = refl

max_inputs_that_fit-greatest_example :
    Fits heavy_consensus 7 three_coins 2 ↔ (2 ≤ max_inputs_that_fit heavy_consensus 7 three_coins 9)
max_inputs_that_fit-greatest_example =
    max_inputs_that_fit-greatest heavy_consensus 7 three_coins 9 2 heavier (omega arith)
      (omega arith)

-- Two coins are merged, the smallest first, and the third is left.
three_coins_plan :
    let plan = plan_consolidation fixed_point toy_consensus 7 live_rate three_coins 2 5 in
    (length plan ≡ 1) × (sum_by (λ u. u.entry.amount) (all_inputs plan) ≡ 900_000_000)
unfolding plan_consolidation sort_by fits_prefix evaluate_self_send fits_independently reserves_fee
    from_feerate fee_for effective
three_coins_plan = (refl, refl)
