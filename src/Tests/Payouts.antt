-- ===== src/Tests/Payouts.antt =====
-- The payout planner on two coins and three recipients.
use katpool.Base.{
  ℕ, ◌+◌, ◌*◌, ◌≤◌, ◌<◌, ◌≡◌, refl, false, List, [], ◌∷◌, ◌++◌, length, none, some, All, arith,
}
use katpool.Base.Bag.{SameItems, sort_by}
use katpool.Base.Word.{u64_max}
use katpool.Mass.Types.{TreasuryUtxo, PayoutRecipient, input_sum, fits_independently, effective}
use katpool.Mass.Fee.{FeeRate, from_feerate, reserves_fee, fee_for, is_change_dust}
use katpool.Mass.Evaluator.{Consensus, evaluate_shape}
use katpool.Mass.Planner.{plan_step, plan_start, plan_loop, plan_batches}
use katpool.Mass.Planner.Batch.{IsSound}
use katpool.Mass.Planner.Invariant.{
  total_paid, plan_batches-IsSound, plan_batches-within-treasury, plan_loop-stops,
}
use katpool.Mass.Planner.Removal.{DistinctIds}
use katpool.Mass.Planner.Partition.{all_payouts, plan_batches-partitions}
use katpool.Mass.Planner.Starvation.{Beyond, plan_batches-starves}
use katpool.Tests.FixedPoint.{fixed_point}

-- A mass of a thousand for each input and output, and a storage mass that is always computable.
abbrev pub toy_consensus : Consensus
toy_consensus = record {
  compute_mass_of = λ tx. (length tx.tx_inputs + length tx.tx_outputs) * 1000;
  transient_mass_of = λ tx. length tx.tx_outputs * 400;
  storage_mass_of = λ tx entries. some (length entries * 10);
  output_size = λ value script. 52;
  block_mass_limit = 500_000;
}

abbrev pub coin : ℕ → ℕ → TreasuryUtxo
coin id amount = record {
  outpoint = record { transaction_id = id; index = 0 };
  entry = record {
    amount = amount;
    script_public_key = 7;
    block_daa_score = 100;
    is_coinbase = false;
  };
}

abbrev pub owed : ℕ → ℕ → PayoutRecipient
owed id amount = record { id = id; amount_sompi = amount; script_public_key = id + 50 }

abbrev pub two_coins : List TreasuryUtxo
two_coins = coin 11 3_000_000_000 ∷ coin 12 9_000_000_000 ∷ []

abbrev three_owed : List PayoutRecipient
three_owed = owed 1 1_000_000_000 ∷ owed 2 1_000 ∷ owed 3 5_000_000_000 ∷ []

abbrev one_big : List PayoutRecipient
one_big = owed 4 11_000_000_000 ∷ []

abbrev pub live_rate : FeeRate fixed_point
live_rate = from_feerate fixed_point 2_000_000

two_coins_fit : input_sum two_coins < u64_max
two_coins_fit = omega arith

three_owed_distinct : DistinctIds three_owed
three_owed_distinct i = ground arith

plan_batches-IsSound_example :
    All
      (IsSound fixed_point toy_consensus 7 live_rate)
      (plan_batches fixed_point toy_consensus 7 live_rate two_coins three_owed).batches
plan_batches-IsSound_example =
    plan_batches-IsSound fixed_point toy_consensus 7 live_rate two_coins three_owed two_coins_fit

plan_batches-within-treasury_example :
    total_paid (plan_batches fixed_point toy_consensus 7 live_rate two_coins three_owed).batches
    ≤ input_sum two_coins
plan_batches-within-treasury_example =
    plan_batches-within-treasury fixed_point toy_consensus 7 live_rate two_coins three_owed
      two_coins_fit

plan_loop-stops_example :
    plan_step fixed_point toy_consensus 7 live_rate (
      plan_loop fixed_point toy_consensus 7 live_rate
        (plan_start fixed_point toy_consensus 7 live_rate two_coins three_owed))
    ≡ none
plan_loop-stops_example =
    plan_loop-stops fixed_point toy_consensus 7 live_rate two_coins three_owed two_coins_fit

plan_batches-partitions_example :
    let r = plan_batches fixed_point toy_consensus 7 live_rate two_coins three_owed in
    SameItems (all_payouts r.batches ++ r.unpaid ++ r.deferred_below_floor) three_owed
plan_batches-partitions_example =
    plan_batches-partitions fixed_point toy_consensus 7 live_rate two_coins three_owed two_coins_fit
      three_owed_distinct

one_big-Beyond : All (Beyond two_coins) one_big
one_big-Beyond = (((omega arith, omega arith), ((omega arith, omega arith), tt)), tt)

-- Both coins together would cover the amount.
plan_batches-starves_example :
    (plan_batches fixed_point toy_consensus 7 live_rate two_coins one_big).batches ≡ []
plan_batches-starves_example =
    plan_batches-starves fixed_point toy_consensus 7 live_rate two_coins one_big one_big-Beyond

-- One batch pays the two payable recipients from the larger coin, and the small one is deferred.
three_owed_plan :
    (length (plan_batches fixed_point toy_consensus 7 live_rate two_coins three_owed).batches ≡ 1)
    × (total_paid (plan_batches fixed_point toy_consensus 7 live_rate two_coins three_owed).batches
        ≡ 6_000_000_000)
    × (length
          (plan_batches fixed_point toy_consensus 7 live_rate two_coins
            three_owed).deferred_below_floor
        ≡ 1)
unfolding plan_batches sort_by evaluate_shape fits_independently reserves_fee from_feerate fee_for
    effective is_change_dust
three_owed_plan = (refl, refl, refl)
