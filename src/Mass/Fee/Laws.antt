-- ===== src/Mass/Fee/Laws.antt =====
-- What a reserved fee is worth to the node (crates/katpool-storagemass/src/fee.rs).
use katpool.Base.{◌*◌, ◌/◌, ◌≤◌, ◌<◌, ◌≡◌, true, arith}
use katpool.Base.Float.{Float}
use katpool.Base.Word.{u64_max}
use katpool.Mass.Types.{TxMass}
use katpool.Mass.Fee.{from_feerate, reserves_fee, fee_for, min_relay_tx_fee_sompi_per_kg}

-- Whatever rate the node reports (negative, infinite and NaN included), a live policy reserves a
-- fee, and the fee of a transaction is positive and at least the relay fee of its compute mass, as
-- long as the product of that mass and the relay rate fits a u64.
pub from_feerate-clears-relay :
    (fl : Float) (rate : fl.F) (m : TxMass)
    → m.compute_mass * min_relay_tx_fee_sompi_per_kg ≤ u64_max
    → let r = from_feerate fl rate in
      (reserves_fee fl r ≡ true)
      × (0 < fee_for fl r m)
      × (m.compute_mass * min_relay_tx_fee_sompi_per_kg / 1000 ≤ fee_for fl r m)
unfolding from_feerate reserves_fee fee_for
from_feerate-clears-relay fl rate m h = ground arith
