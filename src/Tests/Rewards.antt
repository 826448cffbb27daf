-- ===== src/Tests/Rewards.antt =====
-- One reward found, allocated and swept again.
use katpool.Base.{
  ℕ, ◌+◌, ◌*◌, ◌≤◌, ◌≡◌, refl, subst, ok_inj, false, Option, none, some, List, [], ◌∷◌, ok, arith,
  if◌then◌else◌, ◌==◌, All,
}
use katpool.Base.Bag.{sort_by}
use katpool.Base.Int.{pos, ◌+ℤ◌}
use katpool.Base.Word.{clamp_i64}
use katpool.Accountant.Fee.{elite, WalletTier, FeeConfig, new, rebate_bps}
use katpool.Accountant.Allocation.{pro_rate, divide_reward, allocate_portions}
use katpool.Accountant.Ledger.{
  CoinbaseReward, Share, ShareRollup, close_window, list_for_window, lock_for_allocation, accrue,
  insert_batch,
}
use katpool.Accountant.Engine
use katpool.Accountant.Engine.{Books, Ledger, allocate_coinbase_reward}
use katpool.Accountant.Engine.Effects.{is_allocated, rows_of}
use katpool.Accountant.Engine.Once.{Evolves}
use katpool.Accountant.Engine.Exact.{split_sum, allocate_coinbase_reward-exact}
use katpool.Accountant.Blocks.{Block, submitted_to_node}
use katpool.Accountant.Maturity.{
  KaspadClient, CoinbaseUtxo, MaturityConfig, Pool, blue, run_once, run_loop, no_stats,
  sweep_blocks,
}
use katpool.Accountant.Maturity.Sweep.{run_loop-Evolves}
use katpool.Accountant.Maturity.Recorded.{
  IsRecorded, CoinPredicate, Recordable, run_once-IsRecorded,
}
use katpool.Accountant.Maturity.Colour.{AllColoured, sweep_blocks-AllColoured}
use katpool.Tests.FixedPoint.{fixed_point}

abbrev share_of : ℕ → ℕ → ℕ → Share fixed_point
share_of wallet weight daa = record {
  share_wallet = wallet;
  difficulty = weight * 1_000_000;
  daa_score = daa;
}

abbrev two_shares : List (Share fixed_point)
two_shares = share_of 8 1 1_500 ∷ share_of 5 1 1_600 ∷ share_of 8 1 1_700 ∷ share_of 5 9 2_000 ∷ []

abbrev reward_row : CoinbaseReward
reward_row = record {
  id = 1;
  outpoint_transaction_id = 77;
  outpoint_index = 0;
  amount_sompi = 1_000_000;
  block_daa_score = 2_000;
  allocated = false;
}

abbrev ledger : Ledger fixed_point
ledger = record {
  shares = two_shares;
  windows = [];
  books = record { rewards = reward_row ∷ []; allocations = []; accruals = []; audit = [] };
}

abbrev fee : FeeConfig
fee = record { topline_bps = 75 }

abbrev nine_is_elite : ℕ → Option WalletTier
nine_is_elite address = if address == 9 then some elite else none

abbrev address_of : ℕ → Option ℕ
address_of wallet = some (wallet + 4)

abbrev closed : List (ShareRollup fixed_point)
closed =
    record {
      window = record { window_wallet = 8; total_weight = 2_000_000 };
      daa_start = 1_400;
      daa_end = 2_000;
      share_count = 2;
    }
    ∷ record {
      window = record { window_wallet = 5; total_weight = 1_000_000 };
      daa_start = 1_400;
      daa_end = 2_000;
      share_count = 1;
    }
    ∷ []

window_closed : close_window fixed_point 1_400 2_000 two_shares [] ≡ ok closed
unfolding close_window
window_closed = refl

abbrev totals : Engine.Totals
totals = record { pool_fee = pos 3_350; nacho = pos 4_149; net = pos 992_501 }

allocated_once :
    (allocate_coinbase_reward fixed_point fee address_of nine_is_elite 1
      (pos 1_000_000)
      1_400
      2_000
      ledger).1
    ≡ ok (Engine.allocated 2 totals (pos 1))
unfolding allocate_coinbase_reward close_window Engine.allocate_closed list_for_window sort_by
    Engine.allocate_rows allocate_portions divide_reward rebate_bps ◌+ℤ◌ clamp_i64
    lock_for_allocation insert_batch accrue Engine.sum_totals
allocated_once = refl

no_rows_yet :
    (id : ℕ) → is_allocated id ledger.books.rewards ≡ false → rows_of fixed_point id [] ≡ []
unfolding rows_of
no_rows_yet id h = refl

fee_valid : new 75 ≡ ok fee
unfolding new
fee_valid = refl

allocate_coinbase_reward-exact_example :
    split_sum fixed_point (
      rows_of fixed_point 1
        (allocate_coinbase_reward fixed_point fee address_of nine_is_elite 1
          (pos 1_000_000)
          1_400
          2_000
          ledger).0.books.allocations)
    ≡ pos 1_000_000
unfolding list_for_window sort_by pro_rate Engine.weight_sum
allocate_coinbase_reward-exact_example =
    allocate_coinbase_reward-exact fixed_point fee address_of nine_is_elite 1 1_000_000 75 1_400
      2_000 ledger closed no_rows_yet fee_valid (omega arith) window_closed (omega arith)
      allocated_once

abbrev found_block : Block
found_block = record {
  hash = 6;
  daa_score = 1_990;
  blue_score = none;
  status = submitted_to_node;
  miner_reward_sompi = none;
}

abbrev pool : Pool fixed_point
pool = record { ledger = ledger; blocks = found_block ∷ []; last_reward_id = 1 }

abbrev second_coin : CoinbaseUtxo
second_coin = record { transaction_id = 78; index = 1; amount_sompi = 500; block_daa_score = 2_100 }

abbrev node : KaspadClient
node = record {
  virtual_daa_score = ok 3_200;
  block_color = λ hash. ok blue;
  pool_coinbase_utxos = ok (second_coin ∷ []);
}

abbrev maturity : MaturityConfig
maturity = record {
  coinbase_maturity = 1_000;
  window_daa_span = 600;
  batch_size = 200;
  coinbase_min_daa_score = 2_000;
}

run_loop-Evolves_example :
    Evolves fixed_point pool.ledger.books
      (run_loop fixed_point fee address_of nine_is_elite maturity
        ((node, share_of 5 2 2_050 ∷ []) ∷ (node, []) ∷ [])
        pool).ledger.books
run_loop-Evolves_example =
    run_loop-Evolves fixed_point fee address_of nine_is_elite maturity
      ((node, share_of 5 2 2_050 ∷ []) ∷ (node, []) ∷ []) pool

sweep_blocks-AllColoured_example :
    AllColoured node
      (found_block ∷ [])
      (sweep_blocks maturity node 3_200 (found_block ∷ []) no_stats).0
sweep_blocks-AllColoured_example =
    sweep_blocks-AllColoured node maturity 3_200 (found_block ∷ []) no_stats

-- mature at 3200 and of a block from the cutover on
abbrev after_cutover : CoinPredicate
after_cutover txid index amount daa = (2_000 ≤ daa) × (daa + 1_000 ≤ 3_200)

listed_good : All (Recordable after_cutover maturity 3_200) (second_coin ∷ [])
listed_good = ((λ m floor small. (omega arith, omega arith)), tt)

run_once-IsRecorded_example :
    IsRecorded after_cutover
      (run_once fixed_point fee address_of nine_is_elite maturity node pool).0.ledger.books.rewards
run_once-IsRecorded_example =
    run_once-IsRecorded fixed_point {Q = after_cutover} fee address_of nine_is_elite maturity node
      pool
      (λ daa us e e'.
        subst (λ d. All (Recordable after_cutover maturity d) us) (ok_inj e)
          (subst (λ u. All (Recordable after_cutover maturity 3_200) u) (ok_inj e') listed_good))
      (record { justified = ((omega arith, omega arith), tt); distinct = (refl, tt) })
