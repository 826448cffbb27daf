-- ===== src/Tests/Fees.antt =====
-- The fees at small amounts.
use katpool.Base.{
  ◌*◌, ◌/◌, ◌≤◌, ◌<◌, ◌≡◌, refl, true, [], ◌∷◌, ok, arith, Option, none, some, if◌then◌else◌, ◌==◌,
  ℕ, ◌+◌,
}
use katpool.Base.Int.{pos, ◌+ℤ◌}
use katpool.Base.Word.{i64_max, clamp_i64}
use katpool.Accountant.Fee.{
  max_topline_bps, WalletTier, standard, elite, FeeConfig, Allocation, rebate_bps, new,
  compute_allocation,
}
use katpool.Accountant.Fee.Laws.{Outcome, compute_allocation-Outcome}
use katpool.Accountant.Fee.Env.{value, parse_bps, from_lookup, from_lookup-bounded}
use katpool.Accountant.Allocation.{
  ShareWindow, pro_rate, prorated_sum, divide_reward, allocate_portions,
}
use katpool.Accountant.Allocation.Conservation.{allocated_sum, allocate_reward-conserves}
use katpool.Mass.Types.{TxMass}
use katpool.Mass.Fee.{min_relay_tx_fee_sompi_per_kg, from_feerate, reserves_fee, fee_for}
use katpool.Mass.Fee.Laws.{from_feerate-clears-relay}
use katpool.Tests.FixedPoint.{fixed_point}

abbrev three_quarters : FeeConfig
three_quarters = record { topline_bps = 75 }

new_75 : new 75 ≡ ok three_quarters
unfolding new
new_75 = refl

compute_allocation-Outcome_example :
    Outcome three_quarters
      (pos 500_000_000)
      elite
      (compute_allocation three_quarters (pos 500_000_000) elite)
compute_allocation-Outcome_example =
    compute_allocation-Outcome 75 three_quarters (pos 500_000_000) elite new_75

from_lookup_75 : from_lookup (value (0x37 ∷ 0x35 ∷ [])) ≡ ok three_quarters
unfolding from_lookup parse_bps new
from_lookup_75 = refl

from_lookup-bounded_example :
    (new three_quarters.topline_bps ≡ ok three_quarters)
    × (three_quarters.topline_bps ≤ max_topline_bps)
from_lookup-bounded_example =
    from_lookup-bounded (value (0x37 ∷ 0x35 ∷ [])) three_quarters from_lookup_75

abbrev small_tx : TxMass
small_tx = record { compute_mass = 2_036; storage_mass = 900; transient_mass = 1_500 }

from_feerate-clears-relay_example :
    (reserves_fee fixed_point (from_feerate fixed_point 0) ≡ true)
    × (0 < fee_for fixed_point (from_feerate fixed_point 0) small_tx)
    × (2_036 * min_relay_tx_fee_sompi_per_kg / 1000
        ≤ fee_for fixed_point (from_feerate fixed_point 0) small_tx)
from_feerate-clears-relay_example = from_feerate-clears-relay fixed_point 0 small_tx (omega arith)

abbrev window_of : ℕ → ℕ → ShareWindow fixed_point
window_of wallet weight = record { window_wallet = wallet; total_weight = weight * 1_000_000 }

abbrev elite_nine : ℕ → Option WalletTier
elite_nine address = if address == 9 then some elite else none

abbrev nine_share : Allocation
nine_share = record {
  gross_sompi = pos 333_334;
  pool_fee_sompi = pos 0;
  nacho_accrual_sompi = pos 2_500;
  net_payout_sompi = pos 330_834;
  applied_topline_bps = 75;
  applied_rebate_bps = 10_000;
  applied_tier = elite;
}

abbrev other_share : Allocation
other_share = record {
  gross_sompi = pos 666_666;
  pool_fee_sompi = pos 3_350;
  nacho_accrual_sompi = pos 1_649;
  net_payout_sompi = pos 661_667;
  applied_topline_bps = 75;
  applied_rebate_bps = 3_300;
  applied_tier = standard;
}

-- A third and two thirds of the reward; the residue of one goes to the smaller wallet id.
two_shares :
    allocate_portions three_quarters
      (λ w. some (w + 4))
      elite_nine
      (divide_reward fixed_point 1_000_000 3_000_000 (window_of 8 2 ∷ window_of 5 1 ∷ []))
    ≡ ok (other_share ∷ nine_share ∷ [])
unfolding allocate_portions divide_reward rebate_bps ◌+ℤ◌ clamp_i64
two_shares = refl

shares_in_range :
    prorated_sum fixed_point 1_000_000 3_000_000 (window_of 8 2 ∷ window_of 5 1 ∷ []) ≤ i64_max
unfolding pro_rate
shares_in_range = omega arith

allocate_reward-conserves_example : allocated_sum (other_share ∷ nine_share ∷ []) ≡ pos 1_000_000
allocate_reward-conserves_example =
    allocate_reward-conserves fixed_point 75 three_quarters (λ w. some (w + 4)) elite_nine 1_000_000
      3_000_000 (window_of 8 2) (window_of 5 1 ∷ []) new_75 (omega arith) shares_in_range two_shares
