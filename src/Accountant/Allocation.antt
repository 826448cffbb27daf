-- ===== src/Accountant/Allocation.antt =====
-- Dividing a matured coinbase reward among the wallets of its share window
-- (accountant/src/allocation.rs): the proportional shares, the residue, the split of each share.
pub mod Conservation
use katpool.Base.{
  ℕ, ◌+◌, ◌-◌, ◌==◌, Bool, true, false, ◌||◌, if◌then◌else◌, ltb, Option, none, some, List, [], ◌∷◌,
  map, sum_by, Result, ok, err, ◌>>=◌, ok_or, map_err,
}
use katpool.Base.Float.{Float}
use katpool.Base.Int.{ℤ, pos, ◌+ℤ◌}
use katpool.Base.Word.{add_sat_i64, sub_sat_i64}
use katpool.Accountant.Fee.{
  WalletTier, standard, FeeConfig, Allocation, AllocationError, compute_allocation,
}

-- a refused argument, or a constraint of the schema
pub data DbError : Type 0 where
  config constraint : DbError

-- The offending float of `invalid_window_weight` is left out, as it is only shown.
pub data AllocationEngineError : Type 0 where
  math : AllocationError → AllocationEngineError
  invalid_wallet_address : ℕ → AllocationEngineError
  db : DbError → AllocationEngineError
  unknown_reward : ℕ → AllocationEngineError
  invalid_window_weight : AllocationEngineError

-- One wallet's share of the reward. The reward is not negative.
pub record Portion : Type 0 where
  pub wallet_id : ℕ
  pub gross : ℤ

abbrev pub smallest_wallet : ℕ → List Portion → ℕ
smallest_wallet id [] = id
smallest_wallet id (p ∷ ps) = smallest_wallet (if ltb p.wallet_id id then p.wallet_id else id) ps

-- the residue goes to the first portion of the wallet
unfoldable pub award_residue : ℕ → ℤ → List Portion → List Portion
award_residue id residue [] = []
award_residue id residue (p ∷ ps) =
    if p.wallet_id == id
    then record { wallet_id = p.wallet_id; gross = add_sat_i64 p.gross residue } ∷ ps
    else p ∷ award_residue id residue ps

module _ (fl : Float) where
  open fl use {F, zero_f, of_nat, to_nat, mul_f, div_f, floor_f, le_f, eq_f}

  -- a row of `share_window`, as far as it is read
  pub record ShareWindow : Type 0 where
    pub window_wallet : ℕ
    pub total_weight : F

  unfoldable pub pro_rate : ℕ → F → F → ℕ
  pro_rate block_reward_sompi weight total_weight =
      let floored = floor_f (mul_f (of_nat block_reward_sompi) (div_f weight total_weight)) in
      if eq_f weight zero_f || le_f total_weight zero_f
      then 0
      else if le_f floored zero_f
      then 0
      else if le_f (of_nat block_reward_sompi) floored
      then block_reward_sompi
      else to_nat floored

  -- the wallets with their proportional shares
  unfoldable pub portions_of : ℕ → F → List ShareWindow → List Portion
  unfolding pro_rate
  portions_of reward total [] = []
  portions_of reward total (w ∷ ws) =
      record { wallet_id = w.window_wallet; gross = pos (pro_rate reward w.total_weight total) }
      ∷ portions_of reward total ws

  abbrev pub prorated_sum : ℕ → F → List ShareWindow → ℕ
  prorated_sum reward total = sum_by (λ w. pro_rate reward w.total_weight total)

  unfoldable pub divide_reward : ℕ → F → List ShareWindow → List Portion
  unfolding portions_of award_residue
  divide_reward reward total [] = []
  divide_reward reward total (w ∷ ws) =
      let residue = sub_sat_i64 (pos reward) (pos (prorated_sum reward total (w ∷ ws))) in
      award_residue (smallest_wallet w.window_wallet (portions_of reward total ws)) residue
        (portions_of reward total (w ∷ ws))

abbrev pub or_standard : Option WalletTier → WalletTier
or_standard none = standard
or_standard (some tier) = tier

-- the address of every wallet is looked up and its tier classified, with the standard tier when the
-- classifier fails
unfoldable pub classify_wallets :
    (ℕ → Option ℕ)
    → (ℕ → Option WalletTier)
    → List Portion
    → Result AllocationEngineError (List WalletTier)
classify_wallets address_of classify [] = ok []
classify_wallets address_of classify (p ∷ ps) = do
  address ← ok_or (address_of p.wallet_id) (invalid_wallet_address p.wallet_id)
  tiers ← classify_wallets address_of classify ps
  ok (or_standard (classify address) ∷ tiers)

-- the split of every share, in step with the tiers
unfoldable pub compute_allocations :
    FeeConfig → List Portion → List WalletTier → Result AllocationEngineError (List Allocation)
unfolding compute_allocation
compute_allocations fee (p ∷ ps) (tier ∷ tiers) = do
  first ← map_err math (compute_allocation fee p.gross tier)
  rest ← compute_allocations fee ps tiers
  ok (first ∷ rest)
compute_allocations fee (p ∷ ps) [] = ok []
compute_allocations fee [] tiers = ok []

unfoldable pub allocate_portions :
    FeeConfig
    → (ℕ → Option ℕ)
    → (ℕ → Option WalletTier)
    → List Portion
    → Result AllocationEngineError (List Allocation)
unfolding classify_wallets compute_allocations
allocate_portions fee address_of classify ps = do
  tiers ← classify_wallets address_of classify ps
  compute_allocations fee ps tiers
