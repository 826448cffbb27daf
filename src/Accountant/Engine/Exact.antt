-- ===== src/Accountant/Engine/Exact.antt =====
-- The rows of an allocated reward come to the reward (accountant/src/allocation.rs).
use katpool.Base.{
  ℕ, suc, ◌≤◌, ◌≡◌, refl, ap, sym, ◌∙◌, inl, inr, false, not, ◌||◌, Option, List, [], ◌∷◌, ◌++◌,
  length, All, Result, ok, err, ◌>>=◌, >>=-eq-ok, ok_inj, ok_or, map_err, map_err-ok, ok_or-ok,
  Bool-cases, arith,
}
use katpool.Base.Float.{Float}
use katpool.Base.Int.{ℤ, pos, ◌+ℤ◌}
use katpool.Base.Word.{i64_max, sub_sat_i64}
use katpool.Accountant.Fee.{WalletTier, FeeConfig, Allocation, new, compute_allocation}
use katpool.Accountant.Allocation.{
  AllocationEngineError, db, math, unknown_reward, invalid_window_weight, Portion, smallest_wallet,
  ShareWindow, award_residue, portions_of, classify_wallets, compute_allocations, allocate_portions,
  divide_reward, prorated_sum,
}
use katpool.Accountant.Allocation.Conservation.{
  allocated_sum, classify_wallets-length, allocate_reward-conserves,
}
use katpool.Accountant.Ledger.{
  lock_for_allocation, ShareRollup, close_window, list_for_window, ShareAllocation, insert_batch,
}
use katpool.Accountant.Engine
use katpool.Accountant.Engine.Effects.{
  is_allocated, allocated_of, rows_of, insert_batch-eq, new_rows-reward, rows_of-append,
}
use katpool.Accountant.Engine.Once.{NoRows}

compute_allocations-length :
    (fee : FeeConfig) (ps : List Portion) (tiers : List WalletTier) {allocations : List Allocation}
    → length tiers ≡ length ps
    → compute_allocations fee ps tiers ≡ ok allocations
    → length allocations ≡ length ps
unfolding compute_allocations
compute_allocations-length fee [] tiers same h = ap length (sym (ok_inj h))
compute_allocations-length fee (p ∷ ps) [] same h = absurd (omega (arith, same))
compute_allocations-length fee (p ∷ ps) (tier ∷ tiers) same h =
    let (first, _, h1) = >>=-eq-ok (map_err math (compute_allocation fee p.gross tier)) _ h in
    let (rest, e, h2) = >>=-eq-ok (compute_allocations fee ps tiers) _ h1 in
    ap length (sym (ok_inj h2))
    ∙ ap suc (compute_allocations-length fee ps tiers (omega (arith, same)) e)

allocate_portions-length :
    (fee : FeeConfig) (address_of : ℕ → Option ℕ) (classify : ℕ → Option WalletTier)
    (ps : List Portion) {allocations : List Allocation}
    → allocate_portions fee address_of classify ps ≡ ok allocations
    → length allocations ≡ length ps
unfolding allocate_portions
allocate_portions-length fee address_of classify ps h =
    let (tiers, e, k) = >>=-eq-ok (classify_wallets address_of classify ps) _ h in
    compute_allocations-length fee ps tiers (classify_wallets-length address_of classify ps e) k

award_residue-length :
    (id : ℕ) (residue : ℤ) (ps : List Portion) → length (award_residue id residue ps) ≡ length ps
unfolding award_residue
award_residue-length id residue [] = refl
award_residue-length id residue (p ∷ ps) = ground (arith, award_residue-length id residue ps)

module _ (fl : Float) where
  open fl use {F, zero_f, le_f, is_finite}

  portions_of-length :
      (reward : ℕ) (total : F) (ws : List (ShareWindow fl))
      → length (portions_of fl reward total ws) ≡ length ws
  unfolding portions_of
  portions_of-length reward total [] = refl
  portions_of-length reward total (w ∷ ws) = ap suc (portions_of-length reward total ws)

  divide_reward-length :
      (reward : ℕ) (total : F) (ws : List (ShareWindow fl))
      → length (divide_reward fl reward total ws) ≡ length ws
  unfolding divide_reward
  divide_reward-length reward total [] = refl
  divide_reward-length reward total (w ∷ ws) =
      award_residue-length (smallest_wallet w.window_wallet (portions_of fl reward total ws))
        (sub_sat_i64 (pos reward) (pos (prorated_sum fl reward total (w ∷ ws))))
        (portions_of fl reward total (w ∷ ws))
      ∙ portions_of-length reward total (w ∷ ws)

  -- what the rows come to: fees, accruals and payouts
  abbrev pub split_sum : List (ShareAllocation fl) → ℤ
  split_sum [] = pos 0
  split_sum (r ∷ rs) =
      (r.split.pool_fee_sompi +ℤ r.split.nacho_accrual_sompi +ℤ r.split.net_payout_sompi)
      +ℤ split_sum rs

  new_rows-sum :
      (id : ℕ) (total : F) (ws : List (ShareWindow fl)) (allocations : List Allocation)
      → length allocations ≡ length ws
      → split_sum (Engine.new_rows fl id total ws allocations) ≡ allocated_sum allocations
  unfolding Engine.new_rows Engine.stored_split
  new_rows-sum id total [] [] same = refl
  new_rows-sum id total [] (a ∷ rest) same = absurd (omega (arith, same))
  new_rows-sum id total (w ∷ ws) [] same = absurd (omega (arith, same))
  new_rows-sum id total (w ∷ ws) (a ∷ rest) same =
      ap (λ s. (a.pool_fee_sompi +ℤ a.nacho_accrual_sompi +ℤ a.net_payout_sompi) +ℤ s)
        (new_rows-sum id total ws rest (omega (arith, same)))

  rows_of-own :
      (id : ℕ) (rows : List (ShareAllocation fl))
      → All (λ r. r.coinbase_reward_id ≡ id) rows
      → rows_of fl id rows ≡ rows
  unfolding rows_of
  rows_of-own id [] h = refl
  rows_of-own id (r ∷ rows) h = ground (arith, rows_of-own id rows h.1)

  -- what holds of the rows when the outcome is an allocation
  Exact : ℕ → ℕ → Result AllocationEngineError (Engine.Books fl × Engine.AllocationOutcome) → Type 0
  Exact id reward r =
      (b' : Engine.Books fl) (n : ℕ) (t : Engine.Totals) (residue : ℤ)
      → r ≡ ok (b', Engine.allocated n t residue)
      → split_sum (rows_of fl id b'.allocations) ≡ pos reward

  gate-Exact :
      (id reward : ℕ) (b : Engine.Books fl)
      (fresh : Result AllocationEngineError (Engine.Books fl × Engine.AllocationOutcome))
      → (is_allocated id b.rewards ≡ false → Exact id reward fresh)
      → Exact id reward (Engine.gate fl id b fresh)
  unfolding Engine.gate Exact is_allocated
  gate-Exact id reward b fresh step b' n t residue h =
      let (r, e, k) =
        >>=-eq-ok (ok_or (lock_for_allocation id b.rewards) (unknown_reward id)) _ h in
      let found = ok_or-ok (lock_for_allocation id b.rewards) (unknown_reward id) e in
      elim (Bool-cases r.allocated) [
        | inl done ↦ absurd (ground (arith, ap (λ p. p.1) (ok_inj (rw done at k))))
        | inr open' ↦ step (ap allocated_of found ∙ open') b' n t residue (rw open' at k)
      ]

  refused-Exact : (id reward : ℕ) (e : AllocationEngineError) → Exact id reward (err e)
  unfolding Exact
  refused-Exact id reward e b' n t residue h = cc

  retained-Exact :
      (id reward : ℕ) (b : Engine.Books fl)
      → Exact id reward (ok (Engine.retain_reward fl id reward b))
  unfolding Exact
  retained-Exact id reward b b' n t residue h = absurd (ground (arith, ap (λ p. p.1) (ok_inj h)))

  bound-Exact :
      (id reward : ℕ) (first : Result AllocationEngineError (List Allocation))
      (rest : List Allocation
        → Result AllocationEngineError (Engine.Books fl × Engine.AllocationOutcome))
      → ((a : List Allocation) → first ≡ ok a → Exact id reward (rest a))
      → Exact id reward (first >>= rest)
  bound-Exact id reward (err e) rest step = refused-Exact id reward e
  bound-Exact id reward (ok a) rest step = step a refl

  module _ (fee : FeeConfig) (address_of : ℕ → Option ℕ) (classify : ℕ → Option WalletTier) where
    fresh-Exact :
        (id reward bps : ℕ) (w : ShareWindow fl) (ws : List (ShareWindow fl)) (b : Engine.Books fl)
        (allocations : List Allocation) (extra : ℤ)
        → NoRows fl b
        → new bps ≡ ok fee
        → reward ≤ i64_max
        → prorated_sum fl reward (Engine.weight_sum fl zero_f (w ∷ ws)) (w ∷ ws) ≤ i64_max
        → allocate_portions fee address_of classify
            (divide_reward fl reward (Engine.weight_sum fl zero_f (w ∷ ws)) (w ∷ ws))
          ≡ ok allocations
        → is_allocated id b.rewards ≡ false
        → Exact id reward (
            Engine.write_fresh fl id
              (Engine.weight_sum fl zero_f (w ∷ ws))
              (w ∷ ws)
              allocations
              extra
              b)
    unfolding Engine.write_fresh Exact
    fresh-Exact id reward bps w ws b allocations extra none_yet valid small small' split open' b' n
          t residue h =
        let total = Engine.weight_sum fl zero_f (w ∷ ws) in
        let new = Engine.new_rows fl id total (w ∷ ws) allocations in
        let (rows, e1, h1) = >>=-eq-ok (map_err db (insert_batch fl new b.allocations)) _ h in
        let (accruals, e2, h2) =
          >>=-eq-ok (map_err db (Engine.accrue_all fl (w ∷ ws) allocations b.accruals)) _ h1 in
        let same : length allocations ≡ length (w ∷ ws) =
          allocate_portions-length fee address_of classify _ split
          ∙ divide_reward-length reward total (w ∷ ws) in
        let own : rows_of fl id rows ≡ new =
          ap (rows_of fl id) (insert_batch-eq fl new b.allocations (map_err-ok db _ e1))
          ∙ rows_of-append fl id b.allocations new
          ∙ ap (λ old. old ++ rows_of fl id new) (none_yet id open')
          ∙ rows_of-own id new (new_rows-reward fl id total (w ∷ ws) allocations) in
        ap (λ p. split_sum (rows_of fl id p.0.allocations)) (sym (ok_inj h2))
        ∙ ap split_sum own
        ∙ new_rows-sum id total (w ∷ ws) allocations same
        ∙ allocate_reward-conserves fl bps fee address_of classify reward total w ws valid small
            small' split

    commit-Exact :
        (id reward : ℕ) (l : Engine.Ledger fl)
        (r : Result AllocationEngineError (Engine.Books fl × Engine.AllocationOutcome)) {n : ℕ}
        {t : Engine.Totals} {residue : ℤ}
        → Exact id reward r
        → (Engine.commit fl fee address_of classify l r).1 ≡ ok (Engine.allocated n t residue)
        → split_sum
            (rows_of fl id (Engine.commit fl fee address_of classify l r).0.books.allocations)
          ≡ pos reward
    unfolding Engine.commit Exact
    commit-Exact id reward l (err e) exact h = cc
    commit-Exact id reward l (ok (b, o)) {n} {t} {residue} exact h =
        exact b n t residue (ap (λ x. ok (b, x)) (ok_inj h))

    closed-Exact :
        (id reward bps : ℕ) (ws : List (ShareWindow fl)) (b : Engine.Books fl)
        → NoRows fl b
        → new bps ≡ ok fee
        → reward ≤ i64_max
        → prorated_sum fl reward (Engine.weight_sum fl zero_f ws) ws ≤ i64_max
        → Exact id reward (Engine.allocate_closed fl fee address_of classify id reward ws b)
    unfolding Engine.allocate_closed Engine.allocate_rows Engine.finalise_empty
    closed-Exact id reward bps [] b none_yet valid small small' =
        gate-Exact id reward b _ (λ _. retained-Exact id reward b)
    closed-Exact id reward bps (w ∷ ws) b none_yet valid small small' =
        let total = Engine.weight_sum fl zero_f (w ∷ ws) in
        elim (Bool-cases (not (is_finite total) || le_f total zero_f)) [
          | inl e ↦ rw e (refused-Exact id reward invalid_window_weight)
          | inr e ↦ rw e (
              bound-Exact id reward
                (allocate_portions fee address_of classify (divide_reward fl reward total (w ∷ ws)))
                _
                (λ allocations split. gate-Exact id reward b _ (
                  fresh-Exact id reward bps w ws b allocations _ none_yet valid small small'
                    split)))
        ]

    -- When the outcome is an allocation, the fees, the accruals and the payouts of the reward's rows come
    -- to the reward exactly, however floats round: for a validated topline fee, a reward in the range of
    -- an i64, books without a row of a reward that is not allocated, and windows whose proportional
    -- shares sum to an i64.
    pub allocate_coinbase_reward-exact :
        (id reward bps daa_start daa_end : ℕ) (l : Engine.Ledger fl)
        (windows : List (ShareRollup fl)) {n : ℕ} {t : Engine.Totals} {residue : ℤ}
        → NoRows fl l.books
        → new bps ≡ ok fee
        → reward ≤ i64_max
        → close_window fl daa_start daa_end l.shares l.windows ≡ ok windows
        → prorated_sum fl reward
            (Engine.weight_sum fl zero_f (list_for_window fl daa_start daa_end windows))
            (list_for_window fl daa_start daa_end windows)
          ≤ i64_max
        → (Engine.allocate_coinbase_reward fl fee address_of classify id
            (pos reward)
            daa_start
            daa_end
            l).1
          ≡ ok (Engine.allocated n t residue)
        → split_sum (
            rows_of fl id
              (Engine.allocate_coinbase_reward fl fee address_of classify id
                (pos reward)
                daa_start
                daa_end
                l).0.books.allocations)
          ≡ pos reward
    unfolding Engine.allocate_coinbase_reward
    allocate_coinbase_reward-exact id reward bps daa_start daa_end l windows none_yet valid small
          closed small' =
        rw closed (
          commit-Exact id reward (Engine.with_windows fl windows l) _ (
            closed-Exact id reward bps (list_for_window fl daa_start daa_end windows) l.books
              none_yet valid small small'))
