-- ===== src/Accountant/Fee.antt =====
-- The pool's fee model (accountant/src/config.rs): the validated topline fee, and the integer
-- split of one wallet's gross share into pool fee, NACHO accrual and net payout. An i64 amount is
-- an integer whose range is looked at where the source looks at it.
pub mod Laws
pub mod Env
use katpool.Base.{
  ℕ, ◌+◌, ◌*◌, ◌/◌, Bool, if◌then◌else◌, ltb, Result, ok, err, ◌>>=◌, ◌>>◌, ok_or, guard,
}
use katpool.Base.Int.{ℤ, pos, negsuc, ◌+ℤ◌, ◌-ℤ◌, eqb_ℤ}
use katpool.Base.Word.{checked_mul_i64}

abbrev pub max_topline_bps : ℕ
max_topline_bps = 1_000

abbrev pub standard_rebate_bps : ℕ
standard_rebate_bps = 3_300

abbrev pub elite_rebate_bps : ℕ
elite_rebate_bps = 10_000

abbrev pub default_topline_bps : ℕ
default_topline_bps = 75

pub data WalletTier : Type 0 where
  standard elite : WalletTier

pub record FeeConfig : Type 0 where
  pub topline_bps : ℕ

pub data ConfigError : Type 0 where
  exceeds_max not_unicode not_u16 : ConfigError

-- `FeeConfig::new`
unfoldable pub new : ℕ → Result ConfigError FeeConfig
new bps = if ltb max_topline_bps bps then err exceeds_max else ok (record { topline_bps = bps })

unfoldable pub rebate_bps : WalletTier → ℕ
rebate_bps standard = standard_rebate_bps
rebate_bps elite = elite_rebate_bps

pub record Allocation : Type 0 where
  pub gross_sompi : ℤ
  pub pool_fee_sompi : ℤ
  pub nacho_accrual_sompi : ℤ
  pub net_payout_sompi : ℤ
  pub applied_topline_bps : ℕ
  pub applied_rebate_bps : ℕ
  pub applied_tier : WalletTier

unfoldable pub is_balanced : Allocation → Bool
is_balanced a =
    eqb_ℤ a.gross_sompi (a.pool_fee_sompi +ℤ a.nacho_accrual_sompi +ℤ a.net_payout_sompi)

pub data Stage : Type 0 where
  fee_share nacho_accrual : Stage

pub data AllocationError : Type 0 where
  negative_gross : ℤ → AllocationError
  overflow : Stage → AllocationError
  unbalanced : Allocation → AllocationError

-- The part of `compute_allocation` behind its first guard: the gross is not negative.
unfoldable pub split_gross : FeeConfig → ℕ → WalletTier → Result AllocationError Allocation
unfolding is_balanced ◌-ℤ◌
split_gross cfg gross tier = do
  fee_product ← ok_or (checked_mul_i64 gross cfg.topline_bps) (overflow fee_share)
  let share = fee_product / 10_000
  nacho_product ← ok_or (checked_mul_i64 share (rebate_bps tier)) (overflow nacho_accrual)
  let nacho = nacho_product / 10_000
  let allocation : Allocation = record {
    gross_sompi = pos gross;
    pool_fee_sompi = pos share -ℤ pos nacho;
    nacho_accrual_sompi = pos nacho;
    net_payout_sompi = pos gross -ℤ pos share;
    applied_topline_bps = cfg.topline_bps;
    applied_rebate_bps = rebate_bps tier;
    applied_tier = tier;
  }
  guard (is_balanced allocation) (unbalanced allocation)
  ok allocation

unfoldable pub compute_allocation : FeeConfig → ℤ → WalletTier → Result AllocationError Allocation
unfolding split_gross
compute_allocation cfg (negsuc n) tier = err (negative_gross (negsuc n))
compute_allocation cfg (pos gross) tier = split_gross cfg gross tier
