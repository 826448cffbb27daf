-- ===== src/Accountant/Ledger.antt =====
-- The accountant's tables and the statements on them: the share windows that
-- accountant/src/window.rs closes (crates/katpool-db/src/repo/share.rs and share_window.rs), the
-- rewards (coinbase_reward.rs), their allocations (share_allocation.rs) and the NACHO accruals
-- (nacho_rebate.rs). A DAA score is far below the limit of the i64 column that holds it. Columns with
-- timestamps are left out but for `allocated_at`, of which only its presence matters. A sum of floats
-- runs in the order of the rows.
use katpool.Base.{
  ℕ, ◌+◌, ◌==◌, Bool, true, false, not, ◌&&◌, ◌||◌, if◌then◌else◌, ltb, leb, Option, List, [], ◌∷◌,
  ◌++◌, map, retain, any, find?, take, is_empty, Result, ok, err, ◌>>=◌, ◌>>◌, guard,
}
use katpool.Base.Bag.{sort_by}
use katpool.Base.Float.{Float}
use katpool.Base.Int.{ℤ, pos, negsuc, leb_ℤ}
use katpool.Base.Word.{i64_max}
use katpool.Accountant.Fee.{Allocation, is_balanced}
use katpool.Accountant.Allocation.{DbError, config, constraint, ShareWindow}

pub record CoinbaseReward : Type 0 where
  pub id : ℕ
  pub outpoint_transaction_id : ℕ
  pub outpoint_index : ℕ
  pub amount_sompi : ℕ
  pub block_daa_score : ℕ
  pub allocated : Bool

pub data EnsureOutcome : Type 0 where
  inserted already_existed : EnsureOutcome

abbrev pub same_outpoint : ℕ → ℕ → CoinbaseReward → Bool
same_outpoint txid index r = r.outpoint_transaction_id == txid && r.outpoint_index == index

-- `INSERT … ON CONFLICT (outpoint)`, at the sequence's next id; a conflict changes nothing
unfoldable pub ensure_reward :
    ℕ → ℕ → ℕ → ℕ → ℕ → List CoinbaseReward → List CoinbaseReward × EnsureOutcome
ensure_reward next_id txid index amount daa rewards =
    if any (same_outpoint txid index) rewards then (rewards, already_existed) else (
      rewards
          ++ (record {
            id = next_id;
            outpoint_transaction_id = txid;
            outpoint_index = index;
            amount_sompi = amount;
            block_daa_score = daa;
            allocated = false;
          }
              ∷ []),
      inserted,
    )

-- ORDER BY block_daa_score ASC, id ASC LIMIT
unfoldable pub list_unallocated : ℕ → List CoinbaseReward → List CoinbaseReward
list_unallocated limit rewards = take limit (
    sort_by
      (λ a b.
        ltb a.block_daa_score b.block_daa_score
        || a.block_daa_score == b.block_daa_score && leb a.id b.id)
      (retain (λ r. not r.allocated) rewards))

unfoldable pub lock_for_allocation : ℕ → List CoinbaseReward → Option CoinbaseReward
lock_for_allocation id = find? (λ r. r.id == id)

unfoldable pub mark_allocated : ℕ → List CoinbaseReward → List CoinbaseReward
mark_allocated id = map (λ r.
    if r.id == id
    then record {
      id = r.id;
      outpoint_transaction_id = r.outpoint_transaction_id;
      outpoint_index = r.outpoint_index;
      amount_sompi = r.amount_sompi;
      block_daa_score = r.block_daa_score;
      allocated = true;
    }
    else r)

pub record NachoRebate : Type 0 where
  pub rebate_wallet : ℕ
  pub accrued_sompi : ℕ
  pub paid_sompi : ℕ

-- the upsert that adds; the sum has to fit its column
abbrev pub add_accrual : ℕ → ℕ → List NachoRebate → Result DbError (List NachoRebate)
add_accrual wallet delta [] =
    ok (record { rebate_wallet = wallet; accrued_sompi = delta; paid_sompi = 0 } ∷ [])
add_accrual wallet delta (r ∷ rs) = elim (r.rebate_wallet == wallet) [
  | true ↦ do
    guard (leb (r.accrued_sompi + delta) i64_max) constraint
    ok (
        record {
          rebate_wallet = wallet;
          accrued_sompi = r.accrued_sompi + delta;
          paid_sompi = r.paid_sompi;
        }
        ∷ rs)
  | false ↦ add_accrual wallet delta rs >>= λ rest. ok (r ∷ rest)
]

unfoldable pub accrue : ℕ → ℤ → List NachoRebate → Result DbError (List NachoRebate)
accrue wallet (negsuc n) rs = err config
accrue wallet (pos delta) rs = add_accrual wallet delta rs

module _ (fl : Float) where
  open fl use {F, zero_f, add_f, lt_f, le_f}

  pub record Share : Type 0 where
    pub share_wallet : ℕ
    pub difficulty : F
    pub daa_score : ℕ

  pub record ShareRollup : Type 0 where
    pub window : ShareWindow fl
    pub daa_start : ℕ
    pub daa_end : ℕ
    pub share_count : ℕ

  -- a row of the aggregate: GROUP BY wallet_id
  pub record Group : Type 0 where
    pub group_wallet : ℕ
    pub weight : F
    pub count : ℕ

  unfoldable pub add_share : Share → List Group → List Group
  add_share s [] = record { group_wallet = s.share_wallet; weight = s.difficulty; count = 1 } ∷ []
  add_share s (g ∷ gs) =
      if g.group_wallet == s.share_wallet
      then record {
        group_wallet = g.group_wallet;
        weight = add_f g.weight s.difficulty;
        count = g.count + 1;
      }
        ∷ gs
      else g ∷ add_share s gs

  -- the groups so far, and the shares that are left
  unfoldable pub group_from : List Group → List Share → List Group
  group_from gs [] = gs
  group_from gs (s ∷ ss) = group_from (add_share s gs) ss

  unfoldable pub in_window : ℕ → ℕ → Share → Bool
  in_window daa_start daa_end s = leb daa_start s.daa_score && ltb s.daa_score daa_end

  unfoldable pub same_window : ℕ → ℕ → ℕ → ShareRollup → Bool
  same_window wallet daa_start daa_end w =
      w.window.window_wallet == wallet && (w.daa_start == daa_start && w.daa_end == daa_end)

  abbrev pub rollup_of : ℕ → ℕ → Group → ShareRollup
  rollup_of daa_start daa_end g = record {
    window = record { window_wallet = g.group_wallet; total_weight = g.weight };
    daa_start = daa_start;
    daa_end = daa_end;
    share_count = g.count;
  }

  -- `INSERT … ON CONFLICT (wallet_id, daa_start, daa_end) DO UPDATE` of one row
  unfoldable pub upsert_rollup : ℕ → ℕ → Group → List ShareRollup → List ShareRollup
  unfolding same_window
  upsert_rollup daa_start daa_end g [] = rollup_of daa_start daa_end g ∷ []
  upsert_rollup daa_start daa_end g (w ∷ ws) =
      if same_window g.group_wallet daa_start daa_end w
      then rollup_of daa_start daa_end g ∷ ws
      else w ∷ upsert_rollup daa_start daa_end g ws

  unfoldable pub upsert_rollups : ℕ → ℕ → List Group → List ShareRollup → List ShareRollup
  unfolding upsert_rollup
  upsert_rollups daa_start daa_end [] ws = ws
  upsert_rollups daa_start daa_end (g ∷ gs) ws =
      upsert_rollups daa_start daa_end gs (upsert_rollup daa_start daa_end g ws)

  -- `WindowAggregator::close_window`, without the totals that it only reports
  unfoldable pub close_window :
      ℕ → ℕ → List Share → List ShareRollup → Result DbError (List ShareRollup)
  unfolding upsert_rollups group_from add_share in_window
  close_window daa_start daa_end shares windows =
      if leb daa_end daa_start
      then err config
      else ok (
          upsert_rollups daa_start daa_end
            (group_from [] (retain (in_window daa_start daa_end) shares)) windows)

  -- ORDER BY total_weight DESC
  unfoldable pub list_for_window : ℕ → ℕ → List ShareRollup → List (ShareWindow fl)
  list_for_window daa_start daa_end windows =
      sort_by (λ a b. le_f b.total_weight a.total_weight)
        (map (λ w. w.window)
          (retain (λ w. w.daa_start == daa_start && w.daa_end == daa_end) windows))

  pub record ShareAllocation : Type 0 where
    pub coinbase_reward_id : ℕ
    pub row_wallet : ℕ
    pub row_weight : F
    pub window_total : F
    pub split : Allocation

  -- the CHECK constraints of the table
  abbrev pub row_fits : ShareAllocation → Bool
  row_fits r =
      not (lt_f r.row_weight zero_f)
      && (lt_f zero_f r.window_total
          && (le_f r.row_weight r.window_total
              && (leb_ℤ (pos 0) r.split.gross_sompi
                  && (leb_ℤ (pos 0) r.split.pool_fee_sompi
                      && (leb_ℤ (pos 0) r.split.nacho_accrual_sompi
                          && leb_ℤ (pos 0) r.split.net_payout_sompi)))))

  -- UNIQUE (coinbase_reward_id, wallet_id)
  abbrev pub row_taken : ShareAllocation → List ShareAllocation → Bool
  row_taken r =
      any (λ q. q.coinbase_reward_id == r.coinbase_reward_id && q.row_wallet == r.row_wallet)

  unfoldable pub insert_rows :
      List ShareAllocation → List ShareAllocation → Result DbError (List ShareAllocation)
  insert_rows [] rows = ok rows
  insert_rows (r ∷ rs) rows = do
    guard (row_fits r && not (row_taken r rows)) constraint
    insert_rows rs (rows ++ (r ∷ []))

  unfoldable pub insert_batch :
      List ShareAllocation → List ShareAllocation → Result DbError (List ShareAllocation)
  unfolding insert_rows
  insert_batch new rows =
      if is_empty new
      then ok rows
      else do guard (not (any (λ r. not (is_balanced r.split)) new)) config; insert_rows new rows
