-- ===== src/Accountant/Allocation/Conservation.antt =====
-- The reward is handed out exactly (accountant/src/allocation.rs).
use katpool.Base.{
  ℕ, ◌≤◌, ◌≡◌, ◌⊎◌, refl, ap, sym, ◌∙◌, inl, inr, true, ◌==◌, ◌||◌, if◌then◌else◌, ltb, ==_iff, suc,
  length, Option, List, [], ◌∷◌, All, any, ok, >>=-eq-ok, ok_inj, ok_or, map_err, map_err-ok,
  Bool-cases, arith,
}
use katpool.Base.Float.{Float}
use katpool.Base.Int.{ℤ, pos, ◌+ℤ◌, ◌-ℤ◌, int_laws, eq_of_parts}
use katpool.Base.Word.{i64_max, add_sat_i64, sub_sat_i64, clamp_i64_in_range}
use katpool.Accountant.Fee.{WalletTier, FeeConfig, Allocation, compute_allocation, new, is_balanced}
use katpool.Accountant.Fee.Laws.{compute_allocation-balanced}
use katpool.Accountant.Allocation.{
  math, invalid_wallet_address, classify_wallets, compute_allocations, Portion, smallest_wallet,
  award_residue, ShareWindow, pro_rate, portions_of, prorated_sum, divide_reward, allocate_portions,
}

abbrev pub gross_sum : List Portion → ℤ
gross_sum [] = pos 0
gross_sum (p ∷ ps) = p.gross +ℤ gross_sum ps

smallest-among :
    (m id : ℕ) (ps : List Portion)
    → smallest_wallet id ps ≡ m
    → (id ≡ m) ⊎ (any (λ p. p.wallet_id == m) ps ≡ true)
smallest-among m id [] h = inl h
smallest-among m id (p ∷ ps) h =
    elim (smallest-among m (if ltb p.wallet_id id then p.wallet_id else id) ps h) [
      | inl e ↦ ground arith
      | inr k ↦ inr (ground (arith, k))
    ]

award_residue-sum :
    (id : ℕ) (residue : ℤ) (ps : List Portion)
    → any (λ p. p.wallet_id == id) ps ≡ true
    → All (λ p. add_sat_i64 p.gross residue ≡ p.gross +ℤ residue) ps
    → gross_sum (award_residue id residue ps) ≡ gross_sum ps +ℤ residue
unfolding award_residue
award_residue-sum id residue [] h k = absurd (ground (arith, h))
award_residue-sum id residue (p ∷ ps) h k = elim (Bool-cases (p.wallet_id == id)) [
  | inl e ↦ rw (e, k.0) (omega int_laws)
  | inr e ↦ rw (e, award_residue-sum id residue ps (ground (arith, h, e)) k.1) (omega int_laws)
]

holder :
    (id first : ℕ) (ps : List Portion)
    → (first ≡ id) ⊎ (any (λ p. p.wallet_id == id) ps ≡ true)
    → ((first == id) || any (λ p. p.wallet_id == id) ps) ≡ true
holder id first ps (inl e) = ground arith
holder id first ps (inr e) = ground (arith, e)

back : (reward summed : ℕ) → pos summed +ℤ (pos reward -ℤ pos summed) ≡ pos reward
back reward summed = omega int_laws

module _ (fl : Float) where
  open fl use {F, zero_f, of_nat, to_nat, mul_f, div_f, floor_f, le_f, eq_f, to_nat-le}

  -- However floats round, no share exceeds the reward.
  pub pro_rate-le : (reward : ℕ) (weight total : F) → pro_rate fl reward weight total ≤ reward
  unfolding pro_rate
  pro_rate-le reward weight total =
      let floored = floor_f (mul_f (of_nat reward) (div_f weight total)) in
      elim (Bool-cases (le_f floored zero_f)) [
        | inl e ↦ rw (e) (ground arith)
        | inr e ↦ elim (Bool-cases (le_f (of_nat reward) floored)) [
          | inl e' ↦ rw (e, e') (ground arith)
          | inr e' ↦ let le = to_nat-le floored reward e e' in rw (e, e') (ground arith)
        ]
      ]

  portions-sum :
      (reward : ℕ) (total : F) (ws : List (ShareWindow fl))
      → gross_sum (portions_of fl reward total ws) ≡ pos (prorated_sum fl reward total ws)
  unfolding portions_of ◌+ℤ◌
  portions-sum reward total [] = refl
  portions-sum reward total (w ∷ ws) = rw (portions-sum reward total ws) (ground arith)

  -- Adding the residue to a share stays in range.
  residue-fits :
      (reward g total : ℕ)
      → reward ≤ i64_max
      → total ≤ i64_max
      → g ≤ total
      → add_sat_i64 (pos g) (pos reward -ℤ pos total) ≡ pos g +ℤ (pos reward -ℤ pos total)
  residue-fits reward g total h k le = clamp_i64_in_range _ (omega int_laws) (omega int_laws)

  portions-fit :
      (reward total : ℕ) (weight : F) (ws : List (ShareWindow fl))
      → reward ≤ i64_max
      → total ≤ i64_max
      → prorated_sum fl reward weight ws ≤ total
      → All
          (λ p.
            add_sat_i64 p.gross (pos reward -ℤ pos total) ≡ p.gross +ℤ (pos reward -ℤ pos total))
          (portions_of fl reward weight ws)
  unfolding portions_of
  portions-fit reward total weight [] h k le = tt
  portions-fit reward total weight (w ∷ ws) h k le = (
    residue-fits reward (pro_rate fl reward w.total_weight weight) total h k (omega arith),
    portions-fit reward total weight ws h k (omega arith),
  )

  -- However the floats round, the shares add up to the reward exactly, the residue included, as long
  -- as the reward and the sum of the proportional shares are in the range of an i64.
  pub divide_reward-conserves :
      (reward : ℕ) (total : F) (w : ShareWindow fl) (ws : List (ShareWindow fl))
      → reward ≤ i64_max
      → prorated_sum fl reward total (w ∷ ws) ≤ i64_max
      → gross_sum (divide_reward fl reward total (w ∷ ws)) ≡ pos reward
  unfolding divide_reward portions_of
  divide_reward-conserves reward total w ws h k =
      let rows = portions_of fl reward total (w ∷ ws) in
      let summed = prorated_sum fl reward total (w ∷ ws) in
      let id = smallest_wallet w.window_wallet (portions_of fl reward total ws) in
      let residue = pos reward -ℤ pos summed in
      let among : any (λ p. p.wallet_id == id) rows ≡ true =
        holder id w.window_wallet _
          (smallest-among id w.window_wallet (portions_of fl reward total ws) refl) in
      let in_range : sub_sat_i64 (pos reward) (pos summed) ≡ residue =
        clamp_i64_in_range _ (omega int_laws) (omega int_laws) in
      ap (λ r. gross_sum (award_residue id r rows)) in_range
      ∙ award_residue-sum id residue rows among
          (portions-fit reward summed total (w ∷ ws) h k (omega arith))
      ∙ ap (λ s. s +ℤ residue) (portions-sum reward total (w ∷ ws))
      ∙ back reward summed

-- What the allocations come to: every sompi of a row is a fee, an accrual or a payout.
abbrev pub allocated_sum : List Allocation → ℤ
allocated_sum [] = pos 0
allocated_sum (a ∷ rest) =
    (a.pool_fee_sompi +ℤ a.nacho_accrual_sompi +ℤ a.net_payout_sompi) +ℤ allocated_sum rest

whole :
    (a : Allocation) (g : ℤ)
    → a.gross_sompi ≡ g
    → is_balanced a ≡ true
    → a.pool_fee_sompi +ℤ a.nacho_accrual_sompi +ℤ a.net_payout_sompi ≡ g
unfolding is_balanced
whole a g e b = sym (eq_of_parts _ _ ((==_iff _ _).0 b)) ∙ e

pub classify_wallets-length :
    (address_of : ℕ → Option ℕ) (classify : ℕ → Option WalletTier) (ps : List Portion)
    {tiers : List WalletTier}
    → classify_wallets address_of classify ps ≡ ok tiers
    → length tiers ≡ length ps
unfolding classify_wallets
classify_wallets-length address_of classify [] h = ap length (sym (ok_inj h))
classify_wallets-length address_of classify (p ∷ ps) h =
    let (address, e1, h1) =
      >>=-eq-ok (ok_or (address_of p.wallet_id) (invalid_wallet_address p.wallet_id)) _ h in
    let (tiers, e2, h2) = >>=-eq-ok (classify_wallets address_of classify ps) _ h1 in
    ap length (sym (ok_inj h2)) ∙ ap suc (classify_wallets-length address_of classify ps e2)

compute_allocations-conserves :
    (bps : ℕ) (fee : FeeConfig) (ps : List Portion) (tiers : List WalletTier)
    {allocations : List Allocation}
    → new bps ≡ ok fee
    → length tiers ≡ length ps
    → compute_allocations fee ps tiers ≡ ok allocations
    → allocated_sum allocations ≡ gross_sum ps
unfolding compute_allocations
compute_allocations-conserves bps fee (p ∷ ps) (tier ∷ tiers) valid same h =
    let (first, e2, h2) = >>=-eq-ok (map_err math (compute_allocation fee p.gross tier)) _ h in
    let (rest, e3, h3) = >>=-eq-ok (compute_allocations fee ps tiers) _ h2 in
    let good = compute_allocation-balanced bps fee p.gross tier first valid (map_err-ok _ _ e2) in
    ap allocated_sum (sym (ok_inj h3))
    ∙ ap (λ s. s +ℤ allocated_sum rest) (whole first p.gross good.0 good.1)
    ∙ ap (λ s. p.gross +ℤ s)
        (compute_allocations-conserves bps fee ps tiers valid (omega (arith, same)) e3)
compute_allocations-conserves bps fee (p ∷ ps) [] valid same h = absurd (omega (arith, same))
compute_allocations-conserves bps fee [] tiers valid same h = ap allocated_sum (sym (ok_inj h))

-- When every share is allocated, the fees, the accruals and the payouts come to the shares exactly,
-- under a validated topline fee.
pub allocate_portions-conserves :
    (bps : ℕ) (fee : FeeConfig) (address_of : ℕ → Option ℕ) (classify : ℕ → Option WalletTier)
    (ps : List Portion) {allocations : List Allocation}
    → new bps ≡ ok fee
    → allocate_portions fee address_of classify ps ≡ ok allocations
    → allocated_sum allocations ≡ gross_sum ps
unfolding allocate_portions
allocate_portions-conserves bps fee address_of classify ps valid h =
    let (tiers, e, h1) = >>=-eq-ok (classify_wallets address_of classify ps) _ h in
    compute_allocations-conserves bps fee ps tiers valid
      (classify_wallets-length address_of classify ps e) h1

-- However the floats round and whatever the tiers are: when a reward is divided and every share is
-- allocated, the fees, the accruals and the payouts come to the reward exactly. The reward and the
-- sum of the proportional shares are in the range of an i64, and the topline fee is validated.
pub allocate_reward-conserves :
    (fl : Float) (bps : ℕ) (fee : FeeConfig) (address_of : ℕ → Option ℕ)
    (classify : ℕ → Option WalletTier) (reward : ℕ) (total : fl.F) (w : ShareWindow fl)
    (ws : List (ShareWindow fl)) {allocations : List Allocation}
    → new bps ≡ ok fee
    → reward ≤ i64_max
    → prorated_sum fl reward total (w ∷ ws) ≤ i64_max
    → allocate_portions fee address_of classify (divide_reward fl reward total (w ∷ ws))
      ≡ ok allocations
    → allocated_sum allocations ≡ pos reward
allocate_reward-conserves fl bps fee address_of classify reward total w ws valid small small' h =
    allocate_portions-conserves bps fee address_of classify (divide_reward fl reward total (w ∷ ws))
      valid h
    ∙ divide_reward-conserves fl reward total w ws small small'
