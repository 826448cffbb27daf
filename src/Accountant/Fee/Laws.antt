-- ===== src/Accountant/Fee/Laws.antt =====
-- What the fee model guarantees (accountant/src/config.rs).
use mathlib.Core.Path.{subst}
use katpool.Base.{ℕ, ◌-◌, ◌*◌, ◌/◌, ◌≤◌, ◌<◌, ◌≡◌, refl, true, arith, Result, ok, err}
use katpool.Base.Int.{ℤ, pos, negsuc, ◌+ℤ◌, ◌-ℤ◌, ◌≤ℤ◌}
use katpool.Base.Word.{i64_max}
use katpool.Accountant.Fee.{
  FeeConfig, WalletTier, standard, elite, Allocation, AllocationError, negative_gross, overflow,
  fee_share, new, split_gross, compute_allocation, is_balanced, rebate_bps, max_topline_bps,
}

-- The topline fee of a gross share, and the part of it that is rebated, in exact floor division.
abbrev pub topline_fee : FeeConfig → ℕ → ℕ
topline_fee cfg gross = gross * cfg.topline_bps / 10_000

abbrev pub rebate : FeeConfig → ℕ → WalletTier → ℕ
rebate cfg gross tier = topline_fee cfg gross * rebate_bps tier / 10_000

-- What `compute_allocation` returns for a gross share, on each of its branches.
abbrev pub Outcome : FeeConfig → ℤ → WalletTier → Result AllocationError Allocation → Type 0
Outcome cfg (negsuc n) tier r = r ≡ err (negative_gross (negsuc n))
Outcome cfg (pos gross) tier (err e) =
    (e ≡ overflow fee_share) × (i64_max < gross * cfg.topline_bps)
Outcome cfg (pos gross) tier (ok a) =
    (gross * cfg.topline_bps ≤ i64_max)
    × (a.gross_sompi ≡ pos gross)
    × (a.net_payout_sompi ≡ pos (gross - topline_fee cfg gross))
    × (a.nacho_accrual_sompi ≡ pos (rebate cfg gross tier))
    × (a.pool_fee_sompi ≡ pos (topline_fee cfg gross - rebate cfg gross tier))
    × (topline_fee cfg gross ≤ gross)
    × (rebate cfg gross tier ≤ topline_fee cfg gross)
    × (a.applied_topline_bps ≡ cfg.topline_bps)
    × (a.applied_rebate_bps ≡ rebate_bps tier)
    × (a.applied_tier ≡ tier)

rebate_bps-le : (tier : WalletTier) → rebate_bps tier ≤ 10_000
unfolding rebate_bps
rebate_bps-le standard = omega arith
rebate_bps-le elite = omega arith

product-le : (x bps : ℕ) → bps ≤ 10_000 → x * bps ≤ x * 10_000
product-le x bps h = grind arith

scale-le : (x bps : ℕ) → bps ≤ 10_000 → x * bps / 10_000 ≤ x
scale-le x bps h = omega (arith, product-le x bps h)

split_gross-Outcome :
    (cfg : FeeConfig) (gross : ℕ) (tier : WalletTier)
    → cfg.topline_bps ≤ max_topline_bps
    → Outcome cfg (pos gross) tier (split_gross cfg gross tier)
unfolding split_gross is_balanced ◌+ℤ◌ ◌-ℤ◌
split_gross-Outcome cfg gross tier h = ground (
  arith,
  scale-le gross cfg.topline_bps,
  scale-le (topline_fee cfg gross) (rebate_bps tier) (rebate_bps-le tier),
  product-le (topline_fee cfg gross) (rebate_bps tier) (rebate_bps-le tier),
)

-- Under a validated topline fee, `compute_allocation` refuses exactly the negative shares and those
-- whose product with the topline overflows an i64 (the second product never does, and the balance
-- guard never fires); otherwise it returns the floor split, whose fee is at most the share and
-- whose rebate is at most the fee.
pub compute_allocation-Outcome :
    (bps : ℕ) (cfg : FeeConfig) (gross : ℤ) (tier : WalletTier)
    → new bps ≡ ok cfg
    → Outcome cfg gross tier (compute_allocation cfg gross tier)
unfolding compute_allocation new
compute_allocation-Outcome bps cfg (negsuc n) tier h = refl
compute_allocation-Outcome bps cfg (pos gross) tier h =
    split_gross-Outcome cfg gross tier (ground arith)

elite_keeps_nothing :
    (cfg : FeeConfig) (gross : ℕ) (tier : WalletTier)
    → tier ≡ elite
    → topline_fee cfg gross - rebate cfg gross tier ≡ 0
unfolding rebate_bps
elite_keeps_nothing cfg gross standard e = cc
elite_keeps_nothing cfg gross elite e = omega arith

ok-balanced :
    (cfg : FeeConfig) (gross : ℤ) (tier : WalletTier) (a : Allocation)
    → Outcome cfg gross tier (ok a)
    → (a.gross_sompi ≡ gross)
      × (is_balanced a ≡ true)
      × (pos 0 ≤ℤ a.pool_fee_sompi)
      × (pos 0 ≤ℤ a.nacho_accrual_sompi)
      × (pos 0 ≤ℤ a.net_payout_sompi)
      × (tier ≡ elite → a.pool_fee_sompi ≡ pos 0)
unfolding is_balanced ◌+ℤ◌
ok-balanced cfg (negsuc n) tier a o = cc
ok-balanced cfg (pos g) tier a (_, whole, net, accrued, fee, le, le', _, _, _) = (
  whole,
  rw (whole, net, accrued, fee) (ground arith),
  rw fee (omega arith),
  rw accrued (omega arith),
  rw net (omega arith),
  λ e. rw (fee, elite_keeps_nothing cfg g tier e),
)

-- An allocation that is returned is balanced, with no part negative, and an elite wallet's pool fee
-- is zero.
pub compute_allocation-balanced :
    (bps : ℕ) (cfg : FeeConfig) (gross : ℤ) (tier : WalletTier) (a : Allocation)
    → new bps ≡ ok cfg
    → compute_allocation cfg gross tier ≡ ok a
    → (a.gross_sompi ≡ gross)
      × (is_balanced a ≡ true)
      × (pos 0 ≤ℤ a.pool_fee_sompi)
      × (pos 0 ≤ℤ a.nacho_accrual_sompi)
      × (pos 0 ≤ℤ a.net_payout_sompi)
      × (tier ≡ elite → a.pool_fee_sompi ≡ pos 0)
compute_allocation-balanced bps cfg gross tier a h e =
    ok-balanced cfg gross tier a
      (subst (Outcome cfg gross tier) e (compute_allocation-Outcome bps cfg gross tier h))
