-- ===== src/Mass/Fee.antt =====
-- The network fee policy (crates/katpool-storagemass/src/fee.rs). The fee rate is a float.
pub mod Laws
use katpool.Base.{ℕ, ◌+◌, ◌*◌, ◌/◌, Bool, false, ◌&&◌, ◌||◌, if◌then◌else◌, ltb, ◌==◌, max}
use katpool.Base.Float.{Float}
use katpool.Base.Word.{u64_max, add_sat_u64, mul_sat_u64}
use katpool.Mass.Types.{TxMass, effective}

abbrev pub min_relay_tx_fee_sompi_per_kg : ℕ
min_relay_tx_fee_sompi_per_kg = 100_000

abbrev pub dust_input_serialized_size : ℕ
dust_input_serialized_size = 148

module _ (fl : Float) where
  open fl use {F, zero_f, of_nat, to_nat, mul_f, ceil_f, min_f, lt_f, is_finite}

  pub record FeeRate : Type 0 where
    pub feerate_sompi_per_gram : F
    pub min_relay_sompi_per_kg : ℕ

  -- `FeeRate::ZERO`
  unfoldable pub zero_rate : FeeRate
  zero_rate = record { feerate_sompi_per_gram = zero_f; min_relay_sompi_per_kg = 0 }

  unfoldable pub from_feerate : F → FeeRate
  from_feerate rate = record {
    feerate_sompi_per_gram = if is_finite rate && lt_f zero_f rate then rate else zero_f;
    min_relay_sompi_per_kg = min_relay_tx_fee_sompi_per_kg;
  }

  unfoldable pub reserves_fee : FeeRate → Bool
  reserves_fee r = lt_f zero_f r.feerate_sompi_per_gram || ltb 0 r.min_relay_sompi_per_kg

  unfoldable pub minimum_relay_fee : FeeRate → ℕ → ℕ
  minimum_relay_fee r compute_mass =
      let fee = mul_sat_u64 compute_mass r.min_relay_sompi_per_kg / 1000 in
      if fee == 0 then r.min_relay_sompi_per_kg else fee

  unfoldable pub fee_for : FeeRate → TxMass → ℕ
  unfolding minimum_relay_fee
  fee_for r m =
      let scaled = mul_f r.feerate_sompi_per_gram (of_nat (effective m)) in
      let estimate =
        if is_finite scaled && lt_f zero_f scaled
        then to_nat (min_f (ceil_f scaled) (of_nat u64_max))
        else 0 in
      max estimate (minimum_relay_fee r m.compute_mass)

-- `output_size` is kaspa's `transaction_output_estimated_serialized_size` of an output with that
-- value and script. The arithmetic is on u128, which it cannot overflow.
unfoldable pub is_change_dust : (ℕ → ℕ → ℕ) → ℕ → ℕ → Bool
is_change_dust output_size value change_script =
    let serialized = add_sat_u64 (output_size value change_script) dust_input_serialized_size in
    ltb (value * 1000 / (3 * serialized)) min_relay_tx_fee_sompi_per_kg
