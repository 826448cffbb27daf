-- ===== src/Accountant/Engine.antt =====
-- The allocation of one matured reward: `AllocationEngine::allocate_coinbase_reward` and
-- `finalise_empty` of accountant/src/allocation.rs. A call returns the tables as they are left: what a
-- transaction that fails wrote is rolled back, and the closing of the window is one of its own.
pub mod Effects
pub mod Once
pub mod Exact
use katpool.Base.{
  ℕ, ◌+◌, Bool, true, false, not, ◌||◌, if◌then◌else◌, ltb, leb, Option, none, some, List, [], ◌∷◌,
  ◌++◌, length, map, is_empty, Result, ok, err, ◌>>=◌, ok_or, map_err,
}
use katpool.Base.Float.{Float}
use katpool.Base.Int.{ℤ, pos, negsuc, ltb_ℤ}
use katpool.Base.Word.{add_sat_i64, sub_sat_i64}
use katpool.Accountant.Fee.{WalletTier, FeeConfig, Allocation, negative_gross}
use katpool.Accountant.Allocation.{
  DbError, AllocationEngineError, math, db, unknown_reward, invalid_window_weight, ShareWindow,
  prorated_sum, divide_reward, allocate_portions,
}
use katpool.Accountant.Ledger.{
  CoinbaseReward, lock_for_allocation, mark_allocated, NachoRebate, accrue, Share, ShareRollup,
  close_window, list_for_window, ShareAllocation, insert_batch,
}

pub record Totals : Type 0 where
  pub pool_fee : ℤ
  pub nacho : ℤ
  pub net : ℤ

-- the loop of `sum_totals` from the totals so far
unfoldable pub sum_totals : Totals → List Allocation → Totals
sum_totals t [] = t
sum_totals t (a ∷ rest) =
    sum_totals
      (record {
        pool_fee = add_sat_i64 t.pool_fee a.pool_fee_sompi;
        nacho = add_sat_i64 t.nacho a.nacho_accrual_sompi;
        net = add_sat_i64 t.net a.net_payout_sompi;
      })
      rest

pub data AllocationOutcome : Type 0 where
  allocated : ℕ → Totals → ℤ → AllocationOutcome
  already_allocated : AllocationOutcome
  no_contributing_wallets : ℤ → AllocationOutcome

-- an entry of the audit log, without what it only reports
pub data AuditEntry : Type 0 where
  reward_allocated : ℕ → AuditEntry
  reward_allocated_empty : ℕ → AuditEntry

-- `i16::try_from(…).unwrap_or(i16::MAX)`
abbrev pub to_i16 : ℕ → ℕ
to_i16 n = if leb n 32_767 then n else 32_767

-- what the row keeps of an allocation
unfoldable pub stored_split : Allocation → Allocation
stored_split a = record {
  gross_sompi = a.gross_sompi;
  pool_fee_sompi = a.pool_fee_sompi;
  nacho_accrual_sompi = a.nacho_accrual_sompi;
  net_payout_sompi = a.net_payout_sompi;
  applied_topline_bps = to_i16 a.applied_topline_bps;
  applied_rebate_bps = to_i16 a.applied_rebate_bps;
  applied_tier = a.applied_tier;
}

module _ (fl : Float) where
  open fl use {F, zero_f, add_f, le_f, is_finite}

  -- what the transaction of an allocation reads and writes
  pub record Books : Type 0 where
    pub rewards : List CoinbaseReward
    pub allocations : List (ShareAllocation fl)
    pub accruals : List NachoRebate
    pub audit : List AuditEntry

  pub record Ledger : Type 0 where
    pub shares : List (Share fl)
    pub windows : List (ShareRollup fl)
    pub books : Books

  abbrev pub with_windows : List (ShareRollup fl) → Ledger → Ledger
  with_windows windows l = record { shares = l.shares; windows = windows; books = l.books }

  abbrev pub with_books : Books → Ledger → Ledger
  with_books books l = record { shares = l.shares; windows = l.windows; books = books }

  unfoldable pub weight_sum : F → List (ShareWindow fl) → F
  weight_sum acc [] = acc
  weight_sum acc (w ∷ ws) = weight_sum (add_f acc w.total_weight) ws

  -- the rows of a reward: the windows in step with the allocations
  unfoldable pub new_rows :
      ℕ → F → List (ShareWindow fl) → List Allocation → List (ShareAllocation fl)
  unfolding stored_split
  new_rows reward_id total (w ∷ ws) (a ∷ rest) =
      record {
        coinbase_reward_id = reward_id;
        row_wallet = w.window_wallet;
        row_weight = w.total_weight;
        window_total = total;
        split = stored_split a;
      }
      ∷ new_rows reward_id total ws rest
  new_rows reward_id total [] allocations = []
  new_rows reward_id total (w ∷ ws) [] = []

  unfoldable pub accrue_all :
      List (ShareWindow fl) → List Allocation → List NachoRebate → Result DbError (List NachoRebate)
  accrue_all (w ∷ ws) (a ∷ rest) rs = do
    next ←
        if ltb_ℤ (pos 0) a.nacho_accrual_sompi
        then accrue w.window_wallet a.nacho_accrual_sompi rs
        else ok rs
    accrue_all ws rest next
  accrue_all [] allocations rs = ok rs
  accrue_all (w ∷ ws) [] rs = ok rs

  -- the transaction behind its gate: insert, accrue, stamp, audit
  unfoldable pub write_fresh :
      ℕ
      → F
      → List (ShareWindow fl)
      → List Allocation
      → ℤ
      → Books
      → Result AllocationEngineError (Books × AllocationOutcome)
  unfolding new_rows accrue_all
  write_fresh reward_id total ws allocations residue b = do
    rows ← map_err db (insert_batch fl (new_rows reward_id total ws allocations) b.allocations)
    accruals ← map_err db (accrue_all ws allocations b.accruals)
    let totals = sum_totals (record { pool_fee = pos 0; nacho = pos 0; net = pos 0 }) allocations
    ok (
      record {
        rewards = mark_allocated reward_id b.rewards;
        allocations = rows;
        accruals = accruals;
        audit = b.audit ++ (reward_allocated reward_id ∷ []);
      },
      allocated (length ws) totals residue,
    )

  abbrev pub retain_reward : ℕ → ℕ → Books → Books × AllocationOutcome
  retain_reward reward_id reward b = (
    record {
      rewards = mark_allocated reward_id b.rewards;
      allocations = b.allocations;
      accruals = b.accruals;
      audit = b.audit ++ (reward_allocated_empty reward_id ∷ []);
    },
    no_contributing_wallets (pos reward),
  )

  -- lock the reward, and leave one that is allocated
  unfoldable pub gate :
      ℕ
      → Books
      → Result AllocationEngineError (Books × AllocationOutcome)
      → Result AllocationEngineError (Books × AllocationOutcome)
  gate reward_id b fresh = do
    row ← ok_or (lock_for_allocation reward_id b.rewards) (unknown_reward reward_id)
    (if row.allocated then ok (b, already_allocated) else fresh)

  unfoldable pub finalise_empty :
      ℕ → ℕ → Books → Result AllocationEngineError (Books × AllocationOutcome)
  unfolding gate
  finalise_empty reward_id reward b = gate reward_id b (ok (retain_reward reward_id reward b))

  module _ (fee : FeeConfig) (address_of : ℕ → Option ℕ) (classify : ℕ → Option WalletTier) where
    -- the part behind the test for an empty window
    unfoldable pub allocate_rows :
        ℕ
        → ℕ
        → List (ShareWindow fl)
        → Books
        → Result AllocationEngineError (Books × AllocationOutcome)
    unfolding weight_sum gate write_fresh
    allocate_rows reward_id reward ws b =
        let total = weight_sum zero_f ws in
        if not (is_finite total) || le_f total zero_f then err invalid_window_weight else do
          allocations ← allocate_portions fee address_of classify (divide_reward fl reward total ws)
          gate reward_id b (
              write_fresh reward_id total ws allocations
                (sub_sat_i64 (pos reward) (pos (prorated_sum fl reward total ws))) b)

    -- the part behind the closing of the window
    unfoldable pub allocate_closed :
        ℕ
        → ℕ
        → List (ShareWindow fl)
        → Books
        → Result AllocationEngineError (Books × AllocationOutcome)
    allocate_closed reward_id reward ws b =
        if is_empty ws
        then finalise_empty reward_id reward b
        else allocate_rows reward_id reward ws b

    -- a transaction that commits, or that leaves the tables
    unfoldable pub commit :
        Ledger
        → Result AllocationEngineError (Books × AllocationOutcome)
        → Ledger × Result AllocationEngineError AllocationOutcome
    commit l (err e) = (l, err e)
    commit l (ok (b, outcome)) = (with_books b l, ok outcome)

    unfoldable pub allocate_after_close :
        ℕ
        → ℕ
        → ℕ
        → ℕ
        → Ledger
        → Result DbError (List (ShareRollup fl))
        → Ledger × Result AllocationEngineError AllocationOutcome
    unfolding commit
    allocate_after_close reward_id reward daa_start daa_end l (err e) = (l, err (db e))
    allocate_after_close reward_id reward daa_start daa_end l (ok windows) =
        commit (with_windows windows l)
          (allocate_closed reward_id reward (list_for_window fl daa_start daa_end windows) l.books)

    unfoldable pub allocate_coinbase_reward :
        ℕ → ℤ → ℕ → ℕ → Ledger → Ledger × Result AllocationEngineError AllocationOutcome
    unfolding allocate_after_close
    allocate_coinbase_reward reward_id (negsuc n) daa_start daa_end l =
        (l, err (math (negative_gross (negsuc n))))
    allocate_coinbase_reward reward_id (pos reward) daa_start daa_end l =
        allocate_after_close reward_id reward daa_start daa_end l
          (close_window fl daa_start daa_end l.shares l.windows)
